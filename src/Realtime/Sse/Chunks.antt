-- ===== src/Realtime/Sse/Chunks.antt =====
-- The parser does not see how the stream is cut into chunks.
use mathlib.Core.List.{append_assoc, append-nil}
use wa_ops.Base.{
  ℕ, zero, suc, ◌≤◌, ◌≡◌, refl, ap, sym, none, some, List, [], ◌∷◌, ◌++◌, arith, length,
  length-append, flatten, Option-cases, inl, inr, ◌∙◌,
}
use wa_ops.Base.Text.{Text, split_at, split_at-append_right, length-split_at}
use wa_ops.Realtime.Sse.{newline, Frame, Fields, Parser, on_line, drain, push, push_all}

-- Frames that came out before the rest of a run.
abbrev pub after : List Frame → Parser × List Frame → Parser × List Frame
after frames r = (r.0, frames ++ r.1)

after-after :
    (fs gs : List Frame) (r : Parser × List Frame) → after fs (after gs r) ≡ after (fs ++ gs) r
after-after fs gs r = ap (λ hs. (r.0, hs)) (sym (append_assoc fs gs r.1))

pub drain-some :
    (n : ℕ) (f : Fields) (buffer line rest : Text)
    → split_at newline buffer ≡ some (line, rest)
    → drain (suc n) f buffer ≡ after (on_line f line).1 (drain n (on_line f line).0 rest)
unfolding drain
drain-some n f buffer line rest e = rw (e, drain)

drain-none :
    (n : ℕ) (f : Fields) (buffer : Text)
    → split_at newline buffer ≡ none
    → drain n f buffer ≡ (record { buffer = buffer; fields = f }, [])
unfolding drain
drain-none zero f buffer e = refl
drain-none (suc n) f buffer e = rw (e, drain)

no_newline : (s : Text) → length s ≤ 0 → split_at newline s ≡ none
unfolding split_at
no_newline [] h = refl
no_newline (c ∷ s) h = absurd (omega arith)

-- Fuel beyond the length of the buffer changes nothing.
pub drain_fuel :
    (n m : ℕ) (f : Fields) (s : Text) → length s ≤ n → length s ≤ m → drain n f s ≡ drain m f s
drain_fuel zero m f s h g =
    rw (drain-none zero f s (no_newline s h), drain-none m f s (no_newline s h))
drain_fuel (suc n) zero f s h g =
    rw (drain-none (suc n) f s (no_newline s g), drain-none zero f s (no_newline s g))
drain_fuel (suc n) (suc m) f s h g = elim (Option-cases (split_at newline s)) [
  | inl e ↦ drain-none (suc n) f s e ∙ sym (drain-none (suc m) f s e)
  | inr ((line, rest), e) ↦
      let less = length-split_at newline s line rest e in
      drain-some n f s line rest e
      ∙ ap (after (on_line f line).1)
          (drain_fuel n m (on_line f line).0 rest (omega arith) (omega arith))
      ∙ sym (drain-some m f s line rest e)
]

-- Draining `s ++ t` is draining `s`, and then what is left of it with `t`.
abbrev Resumes : ℕ → ℕ → ℕ → Fields → Text → Text → Type 0
Resumes n m k f s t =
    drain m f (s ++ t)
    ≡ after (drain n f s).1 (drain k (drain n f s).0.fields ((drain n f s).0.buffer ++ t))

Resumes-none :
    (n m k : ℕ) (f : Fields) (s t : Text)
    → split_at newline s ≡ none
    → length (s ++ t) ≤ m
    → length ((drain n f s).0.buffer ++ t) ≤ k
    → Resumes n m k f s t
Resumes-none n m k f s t e g l =
    let still = drain-none n f s e in
    let l' = rw still at l in rw still (drain_fuel m k f (s ++ t) g l')

drain-append :
    (n m k : ℕ) (f : Fields) (s t : Text)
    → length s ≤ n
    → length (s ++ t) ≤ m
    → length ((drain n f s).0.buffer ++ t) ≤ k
    → Resumes n m k f s t
drain-append zero m k f s t h g l = Resumes-none zero m k f s t (no_newline s h) g l
drain-append (suc n) zero k f s t h g l =
    Resumes-none (suc n) zero k f s t (no_newline s (omega (arith, length-append {0} s t))) g l
drain-append (suc n) (suc m) k f s t h g l = elim (Option-cases (split_at newline s)) [
  | inl e ↦ Resumes-none (suc n) (suc m) k f s t e g l
  | inr ((line, rest), e) ↦
      let less = length-split_at newline s line rest e in
      let first = drain-some n f s line rest e in
      let longer = split_at-append_right newline s t line rest e in
      let less' = length-split_at newline (s ++ t) line (rest ++ t) longer in
      let l' = rw first at l in
      let ih = drain-append n m k (on_line f line).0 rest t (omega arith) (omega arith) l' in
      drain-some m f (s ++ t) line (rest ++ t) longer
      ∙ ap (after (on_line f line).1) ih
      ∙ after-after (on_line f line).1 (drain n (on_line f line).0 rest).1 (
          drain k (drain n (on_line f line).0 rest).0.fields
            ((drain n (on_line f line).0 rest).0.buffer ++ t))
      ∙ rw first refl
]

-- A chunk that is cut in two is parsed as the two pieces are, one after the other.
pub push-append :
    (p : Parser) (s t : Text) → push p (s ++ t) ≡ after (push p s).1 (push (push p s).0 t)
unfolding push
push-append p s t = rw (← append_assoc p.buffer s t) (
    drain-append (length (p.buffer ++ s)) (length ((p.buffer ++ s) ++ t)) _ p.fields (p.buffer ++ s)
      t (omega arith) (omega arith) (omega arith))

-- However a text is cut into chunks, the parser ends in the state, and gives the frames, that it has
-- after the whole text in one chunk.
pub push_all-flatten :
    (p : Parser) (chunk : Text) (chunks : List Text)
    → push_all p (chunk ∷ chunks) ≡ push p (chunk ++ flatten chunks)
unfolding push_all
push_all-flatten p chunk [] =
    rw (append-nil chunk) (ap (λ fs. ((push p chunk).0, fs)) (append-nil (push p chunk).1))
push_all-flatten p chunk (next ∷ chunks) =
    ap (after (push p chunk).1) (push_all-flatten (push p chunk).0 next chunks)
    ∙ sym (push-append p chunk (next ++ flatten chunks))
