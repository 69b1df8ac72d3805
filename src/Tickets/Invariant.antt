-- ===== src/Tickets/Invariant.antt =====
-- The numbers of the tickets, their times, and their tenants.
use wa_ops.Base.{
  ℕ, ◌≤◌, ◌≡◌, ◌≢◌, refl, sym, ap, ◌∙◌, Bool, Option, none, some, ◌⊎◌, inl, inr, arith,
}
use wa_ops.Base.Text.{Text, text_eq_iff}
use wa_ops.Database.{RowId, Table}
use wa_ops.Database.Changes.{Was, at_created, at_updated, at_kept_create, at_kept_update}
use wa_ops.Tickets.{Ticket, Comment, Membership, Context, Sequences, next_value, bump}
use wa_ops.Tickets.Effects.{
  IsStamped, IsChange, Store, Effect, makes, changes, leaves, Step, Reach, here, next, Step-Effect,
}

-- A number that the sequence of a tenant has reached.
abbrev pub Issued : Option ℕ → ℕ → Type 0
Issued none n = ⊥
Issued (some last) n = n ≤ last

Issued-bump : (t t' : Text) (seq : Sequences) (n : ℕ) → Issued (seq t') n → Issued (bump t seq t') n
Issued-bump t t' seq n h = ground (arith, text_eq_iff t t')

Issued-next : (t : Text) (seq : Sequences) → Issued (bump t seq t) (next_value (seq t))
Issued-next t seq = rw ((text_eq_iff t t).1 refl) (omega arith)

not-Issued : (o : Option ℕ) → ¬ Issued o (next_value o)
not-Issued none h = h
not-Issued (some n) h = omega arith

module _ (tb : Table Ticket) (tc : Table Comment) (tm : Table Membership)
    (is_uuid : Text → Bool) where
  open tb use {State, at, create, update}

  -- Every ticket has a number that its tenant's sequence has given, no two tickets of a tenant have
  -- the same number, and every ticket has the time of its resolution as its status asks.
  pub record IsSound (s : State) (seq : Sequences) : Type 0 where
    pub issued : (k : RowId) (r : Ticket) → at s k ≡ some r → Issued (seq r.tenant_id) r.number
    pub unique :
        (j k : RowId) (q r : Ticket)
        → at s j ≡ some q
        → at s k ≡ some r
        → q.tenant_id ≡ r.tenant_id
        → q.number ≡ r.number
        → j ≡ k
    pub stamped : (k : RowId) (r : Ticket) → at s k ≡ some r → IsStamped r

  makes-IsSound :
      (s : State) (seq : Sequences) (n : Ticket)
      → IsStamped n
      → n.number ≡ next_value (seq n.tenant_id)
      → IsSound s seq
      → IsSound (create n s).1 (bump n.tenant_id seq)
  makes-IsSound s seq n st num h = record {
    issued = λ k r a. issue k r (at_created tb n s k r a);
    unique = λ j k q r a b. pick j k q r (at_created tb n s j q a) (at_created tb n s k r b);
    stamped = λ k r a. stamp k r (at_created tb n s k r a);
  }
    where
      From : RowId → Ticket → Type 0
      From k r = (((create n s).0 ≡ k) × (r ≡ n)) ⊎ (at s k ≡ some r)

      issue :
          (k : RowId) (r : Ticket) → From k r → Issued (bump n.tenant_id seq r.tenant_id) r.number
      issue k r (inl (_, e)) = rw (e, num) (Issued-next n.tenant_id seq)
      issue k r (inr a) = Issued-bump n.tenant_id r.tenant_id seq r.number (h.issued k r a)

      stamp : (k : RowId) (r : Ticket) → From k r → IsStamped r
      stamp k r (inl (_, e)) = rw e st
      stamp k r (inr a) = h.stamped k r a

      clash :
          (k : RowId) (r : Ticket)
          → at s k ≡ some r
          → r.tenant_id ≡ n.tenant_id
          → r.number ≡ n.number
          → ⊥
      clash k r a t m = not-Issued (seq n.tenant_id) (rw (← num, ← t, ← m) (h.issued k r a))

      pick :
          (j k : RowId) (q r : Ticket)
          → From j q
          → From k r
          → q.tenant_id ≡ r.tenant_id
          → q.number ≡ r.number
          → j ≡ k
      pick j k q r (inl (a, _)) (inl (b, _)) t m = sym a ∙ b
      pick j k q r (inl (_, e)) (inr b) t m = absurd (
          clash k r b (sym t ∙ ap (λ (x : Ticket). x.tenant_id) e)
            (sym m ∙ ap (λ (x : Ticket). x.number) e))
      pick j k q r (inr a) (inl (_, e)) t m = absurd (
          clash j q a (t ∙ ap (λ (x : Ticket). x.tenant_id) e)
            (m ∙ ap (λ (x : Ticket). x.number) e))
      pick j k q r (inr a) (inr b) t m = h.unique j k q r a b t m

  was :
      (s : State) (k : RowId) (r : Ticket) (f : Ticket → Ticket) (q q₀ : Ticket)
      → at s k ≡ some r
      → IsChange r (f r)
      → Was tb s k f q q₀
      → IsChange q₀ q
  was s k r f q q₀ a c (inl (b, e)) = let same : r ≡ q₀ = cc in rw e (rw same at c)
  was s k r f q q₀ a c (inr e) = rw e (record { tenant = refl; number = refl; stamped = λ p. p })

  changes-IsSound :
      (s : State) (seq : Sequences) (k : RowId) (r : Ticket) (f : Ticket → Ticket)
      → at s k ≡ some r
      → IsChange r (f r)
      → IsSound s seq
      → IsSound (update k f s) seq
  changes-IsSound s seq k r f a c h = record {
    issued = λ i q b.
        let (q₀, b₀, w) = at_updated tb s k f i q b in
        let ch = was s k r f q q₀ a c w in rw (ch.tenant, ch.number) (h.issued i q₀ b₀);
    unique = λ i j p q b d t m.
        let (p₀, b₀, w) = at_updated tb s k f i p b in
        let (q₀, d₀, v) = at_updated tb s k f j q d in
        let cp = was s k r f p p₀ a c w in
        let cq = was s k r f q q₀ a c v in
        h.unique i j p₀ q₀ b₀ d₀ (sym cp.tenant ∙ t ∙ cq.tenant) (sym cp.number ∙ m ∙ cq.number);
    stamped = λ i q b.
        let (q₀, b₀, w) = at_updated tb s k f i q b in
        (was s k r f q q₀ a c w).stamped (h.stamped i q₀ b₀);
  }

  Effect-IsSound :
      {tenant : Text} {a b : Store tb tc tm is_uuid}
      → Effect tb tc tm is_uuid tenant a b
      → IsSound a.tickets a.sequences
      → IsSound b.tickets b.sequences
  Effect-IsSound {tenant} {a} (makes n own st num e d) h =
      rw (e, d, ← own) (makes-IsSound a.tickets a.sequences n st (rw own num) h)
  Effect-IsSound {a} (changes k r f p own c e d) h =
      rw (e, d) (changes-IsSound a.tickets a.sequences k r f p c h)
  Effect-IsSound (leaves e d) h = rw (e, d) h

  -- However requests of any tenants follow one another, every ticket keeps a number that its tenant's
  -- sequence has given, no two tickets of a tenant share a number, a resolved ticket has the time of
  -- its resolution, and one that is open or in progress has none.
  pub Reach-IsSound :
      {a b : Store tb tc tm is_uuid}
      → Reach tb tc tm is_uuid a b
      → IsSound a.tickets a.sequences
      → IsSound b.tickets b.sequences
  Reach-IsSound here h = h
  Reach-IsSound (next ctx r s) h =
      Effect-IsSound (Step-Effect tb tc tm is_uuid s) (Reach-IsSound r h)

  -- A request of one tenant leaves every ticket of every other tenant as it was.
  pub Step-keeps_others :
      {ctx : Context} {a b : Store tb tc tm is_uuid} (k : RowId) (r : Ticket)
      → Step tb tc tm is_uuid ctx a b
      → at a.tickets k ≡ some r
      → r.tenant_id ≢ ctx.tenant_id
      → at b.tickets k ≡ some r
  Step-keeps_others {ctx} {a} {b} k r s e other = kept (Step-Effect tb tc tm is_uuid s)
    where
      kept : Effect tb tc tm is_uuid ctx.tenant_id a b → at b.tickets k ≡ some r
      kept (makes n own st num t d) = rw t (at_kept_create tb n a.tickets k r e)
      kept (changes j q f p own c t d) =
          rw t (at_kept_update tb a.tickets j f k r q p e (λ same. other (mine same own p)))
        where
          mine :
              {j : RowId} {q : Ticket}
              → j ≡ k
              → q.tenant_id ≡ ctx.tenant_id
              → at a.tickets j ≡ some q
              → r.tenant_id ≡ ctx.tenant_id
          mine same own' p' = cc
      kept (leaves t d) = rw t e
