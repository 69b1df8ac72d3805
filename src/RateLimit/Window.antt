-- ===== src/RateLimit/Window.antt =====
-- `rateLimited` of apps/collector-gateway/src/main.ts: a fixed window for each agent.
use wa_ops.Base.{
  ℕ, ◌+◌, ◌-◌, ◌≤◌, ◌<◌, ◌≡◌, refl, ◌≢◌, ◌⊎◌, Bool, true, false, String, none, some, List, [], ◌∷◌,
  arith, ltb, if◌then◌else◌, str_eq, eq_iff, max, Option-cases, Bool-cases, inl, inr, ◌∙◌,
}
use wa_ops.Base.Dict.{Dict, get, put, get-put}

pub record Window : Type 0 where
  pub count : ℕ
  pub window_start : ℕ

abbrev fresh : ℕ → Window
fresh now = record { count = 1; window_start = now }

-- The map after the call, and whether the agent is limited.
unfoldable pub rate_limited : ℕ → ℕ → Dict Window → String → ℕ → Dict Window × Bool
rate_limited limit window_ms buckets agent_id now = elim (get agent_id buckets) [
  | none ↦ (put agent_id (fresh now) buckets, false)
  | some w ↦
      if ltb window_ms (now - w.window_start)
      then (put agent_id (fresh now) buckets, false)
      else (put agent_id (record w { count = w.count + 1 }) buckets, ltb limit (w.count + 1))
]

module _ (limit window_ms : ℕ) where
  -- How many of a sequence of calls, each with its agent and time, let `agent_id` through.
  pub passed : String → Dict Window → List (String × ℕ) → ℕ
  passed agent_id d [] = 0
  passed agent_id d ((who, now) ∷ calls) =
      let (d', limited) = rate_limited limit window_ms d who now in
      let rest = passed agent_id d' calls in
      if str_eq who agent_id then (if limited then rest else rest + 1) else rest

  abbrev pub Before : ℕ → List (String × ℕ) → Type 0
  Before end [] = Unit
  Before end ((_, now) ∷ calls) = (now ≤ end) × Before end calls

  -- A call leaves the windows of the other agents as they are.
  pub get-rate_limited_ne :
      (d : Dict Window) (who other : String) (now : ℕ)
      → who ≢ other
      → get other (rate_limited limit window_ms d who now).0 ≡ get other d
  unfolding rate_limited
  get-rate_limited_ne d who other now h = elim (Option-cases (get who d)) [
    | inl e ↦ rw (e, rate_limited) (rw get-put (ground (arith, eq_iff who other)))
    | inr (w, e) ↦
        rw (e, rate_limited)
          (ground (
            arith,
            eq_iff who other,
            get-put who other (fresh now) d,
            get-put who other (record w { count = w.count + 1 }) d,
          ))
  ]

  get-rate_limited_self :
      (d : Dict Window) (who : String) (w : Window) (now : ℕ)
      → get who d ≡ some w
      → now ≤ w.window_start + window_ms
      → (get who (rate_limited limit window_ms d who now).0
          ≡ some (record { count = w.count + 1; window_start = w.window_start }))
        × ((rate_limited limit window_ms d who now).1 ≡ ltb limit (w.count + 1))
  unfolding rate_limited
  get-rate_limited_self d who w now e h =
      rw (e, rate_limited)
        (ground (
          arith,
          eq_iff who who,
          get-put who who (fresh now) d,
          get-put who who (record w { count = w.count + 1 }) d,
        ))

  -- There is no window of the agent, or the one there has ended.
  abbrev pub IsOver : String → Dict Window → ℕ → Type 0
  IsOver who d now =
      (get who d ≡ none)
      ⊎ ((w : Window) × (get who d ≡ some w) × (w.window_start + window_ms < now))

  opens :
      (d : Dict Window) (who : String) (now : ℕ)
      → IsOver who d now
      → rate_limited limit window_ms d who now ≡ (put who (fresh now) d, false)
  unfolding rate_limited
  opens d who now (inl e) = rw (e, rate_limited)
  opens d who now (inr (w, e, over)) =
      let late : ltb window_ms (now - w.window_start) ≡ true = ground arith in
      rw (e, late, rate_limited)

  passed_in_window :
      (who : String) (d : Dict Window) (w : Window) (calls : List (String × ℕ))
      → get who d ≡ some w
      → Before (w.window_start + window_ms) calls
      → passed who d calls + w.count ≤ max limit w.count
  unfolding passed
  passed_in_window who d w [] e t = omega arith
  passed_in_window who d w ((other, now) ∷ calls) e (h, t) = elim (Bool-cases (str_eq other who)) [
    | inl p ↦
        rw ((eq_iff other who).0 p, (eq_iff who who).1 refl)
          (let (kept, flag) = get-rate_limited_self d who w now e h in
            let ih =
              passed_in_window who (rate_limited limit window_ms d who now).0
                (record w { count = w.count + 1 }) calls kept t in
            ground arith)
    | inr p ↦ rw p (
        passed_in_window who (rate_limited limit window_ms d other now).0 w calls
          (get-rate_limited_ne d other who now (λ q. cc ((eq_iff other who).1 q)) ∙ e) t)
  ]

  -- A call of an agent that has no window, or whose window has ended, opens a window. Whatever the
  -- other agents do, the calls of the agent that come at most `windowMs` after it are let through at
  -- most `limit` times together with it (which is always let through).
  pub passed-le_limit :
      (who : String) (d : Dict Window) (start : ℕ) (calls : List (String × ℕ))
      → IsOver who d start
      → Before (start + window_ms) calls
      → passed who d ((who, start) ∷ calls) ≤ max limit 1
  unfolding passed
  passed-le_limit who d start calls e t =
      rw (opens d who start e, (eq_iff who who).1 refl)
        (omega (
          arith,
          passed_in_window who (put who (fresh start) d) (fresh start) calls
              (rw (get-put, (eq_iff who who).1 refl) refl) t,
        ))
