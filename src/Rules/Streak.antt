-- ===== src/Rules/Streak.antt =====
-- When a rule fires: after so many samples in a row that violate it.
use mathlib.Core.Bool.{false≢true}
use wa_ops.Base.{
  ℕ, zero, suc, ◌+◌, ◌≤◌, ◌≡◌, ◌↔◌, refl, Bool, true, false, String, none, List, [], ◌∷◌, arith,
  All, length, take, str_eq, eq_iff, if◌then◌else◌,
}
use wa_ops.Base.Dict.{get, get-put}
use wa_ops.Rules.{Rule, Evaluation, violates, evaluate_threshold_rule, Tracker, key, or_zero, track}

module _ (Num : Type 0) (lt : Num → Num → Bool) where
  -- A call of `track`, as the loop over the rules makes it.
  pub record Call : Type 0 where
    pub rule : Rule Num lt
    pub resource_id : String
    pub value : Num

  abbrev pub call_key : Call → String
  call_key c = key Num lt c.rule.event_type c.resource_id

  unfoldable pub make : Tracker Num lt → Call → Tracker Num lt × Evaluation Num lt
  make t c = track Num lt t c.rule.event_type c.resource_id c.value c.rule

  -- The tracker after some calls, the newest first.
  unfoldable pub after : Tracker Num lt → List Call → Tracker Num lt
  after t [] = t
  after t (c ∷ older) = (make (after t older) c).0

  -- Of the calls with a key, the newest first, whether each violated its rule.
  pub history : String → List Call → List Bool
  history k [] = []
  history k (c ∷ older) =
      let rest = history k older in
      if str_eq (call_key c) k then violates Num lt c.rule c.value ∷ rest else rest

  streak : List Bool → ℕ
  streak [] = 0
  streak (b ∷ bs) = let n = streak bs in if b then n + 1 else 0

  abbrev pub IsTrue : Bool → Type 0
  IsTrue b = b ≡ true

  le-streak_iff :
      (n : ℕ) (bs : List Bool) → (n ≤ streak bs) ↔ ((n ≤ length bs) × All IsTrue (take n bs))
  unfolding streak
  le-streak_iff zero bs = (λ _. (omega arith, tt), λ _. omega arith)
  le-streak_iff (suc n) [] = (λ h. absurd (omega arith), λ h. absurd (omega (arith, h.0)))
  le-streak_iff (suc n) (true ∷ bs) =
      let (down, up) = le-streak_iff n bs in
      (
        λ h. let (l, a) = down (omega arith) in (omega arith, (refl, a)),
        λ (l, h). let m = up (omega arith, h.1) in omega arith,
      )
  le-streak_iff (suc n) (false ∷ bs) =
      (λ h. absurd (omega arith), λ (l, h). absurd (false≢true h.0))

  count-evaluate :
      (r : Rule Num lt) (prior : ℕ) (v : Num)
      → (evaluate_threshold_rule Num lt r prior v).consecutive_count
        ≡ (if violates Num lt r v then prior + 1 else 0)
  unfolding evaluate_threshold_rule
  count-evaluate r prior v = ground arith

  get-after :
      (t : Tracker Num lt) (k : String) (calls : List Call)
      → get k t ≡ none
      → or_zero Num lt (get k (after t calls)) ≡ streak (history k calls)
  unfolding after history streak make track
  get-after t k [] e = rw e refl
  get-after t k (c ∷ older) e =
      let prior = or_zero Num lt (get (call_key c) (after t older)) in
      let n = (evaluate_threshold_rule Num lt c.rule prior c.value).consecutive_count in
      ground (
        arith,
        get-put (call_key c) k n (after t older),
        eq_iff (call_key c) k,
        count-evaluate c.rule prior c.value,
        get-after t k older e,
      )

  fired-evaluate :
      (r : Rule Num lt) (prior : ℕ) (v : Num)
      → ((evaluate_threshold_rule Num lt r prior v).fired ≡ true)
        ↔ (r.consecutive_samples ≤ (if violates Num lt r v then prior + 1 else 0))
  unfolding evaluate_threshold_rule
  fired-evaluate r prior v = (λ h. ground arith, λ h. ground arith)

  now :
      (t : Tracker Num lt) (c : Call) (older : List Call)
      → get (call_key c) t ≡ none
      → (if violates Num lt c.rule c.value
          then or_zero Num lt (get (call_key c) (after t older)) + 1
          else 0)
        ≡ streak (history (call_key c) (c ∷ older))
  unfolding history streak
  now t c older e =
      rw (get-after t (call_key c) older e, (eq_iff (call_key c) (call_key c)).1 refl) refl

  -- A call fires exactly when the newest `consecutiveSamples` calls with its key, itself among them,
  -- all violated their rules: fewer never do, one sample that does not violate starts the count anew,
  -- and calls with other keys in between change nothing. Asked: the tracker starts with no count for
  -- the key.
  pub make-fired_iff :
      (t : Tracker Num lt) (c : Call) (older : List Call)
      → get (call_key c) t ≡ none
      → ((make (after t older) c).1.fired ≡ true) ↔ (
          (c.rule.consecutive_samples ≤ length (history (call_key c) (c ∷ older)))
          × All IsTrue (take c.rule.consecutive_samples (history (call_key c) (c ∷ older))))
  unfolding make track
  make-fired_iff t c older e =
      let (down, up) =
        le-streak_iff c.rule.consecutive_samples (history (call_key c) (c ∷ older)) in
      let (fires, fire) =
        fired-evaluate c.rule (or_zero Num lt (get (call_key c) (after t older))) c.value in
      let count = now t c older e in
      (λ h. down (rw (← count) (fires h)), λ h. fire (rw count (up h)))
