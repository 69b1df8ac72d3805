-- ===== src/Entitlements/Usage.antt =====
-- What the quota sees of the usage that is metered.
use wa_ops.Base.{
  ℕ, ◌+◌, ◌≤◌, ◌≡◌, ◌≢◌, refl, false, String, Option, none, some, List, [], ◌∷◌, arith, eq_iff,
}
use wa_ops.Entitlements.{Counter, read, upsert, current_usage, within_quota, increment}

read-upsert_same :
    (delta : ℕ) (t m : String) (p : ℕ) (cs : List Counter)
    → read (upsert (λ n. n + delta) delta t m p cs) t m p ≡ read cs t m p + delta
unfolding read upsert
read-upsert_same delta t m p [] = ground (arith, eq_iff t t, eq_iff m m)
read-upsert_same delta t m p (c ∷ cs) = ground (arith, read-upsert_same delta t m p cs)

read-upsert_other :
    (f : ℕ → ℕ) (new : ℕ) (t m t' m' : String) (p p' : ℕ) (cs : List Counter)
    → p ≢ p'
    → read (upsert f new t m p cs) t' m' p' ≡ read cs t' m' p'
unfolding read upsert
read-upsert_other f new t m t' m' p p' [] h = ground arith
read-upsert_other f new t m t' m' p p' (c ∷ cs) h =
    ground (arith, read-upsert_other f new t m t' m' p p' cs h)

module _ (utc_month local_month : ℕ → ℕ) where
  -- On a server whose month starts with the one in UTC, a tenant whose usage has reached a limit with an
  -- increment is refused, and its usage is the sum.
  pub within_quota-increment :
      (counters : List Counter) (now : ℕ) (tenant metric : String) (delta limit : ℕ)
      → local_month now ≡ utc_month now
      → limit ≤ current_usage utc_month local_month counters now tenant metric + delta
      → within_quota utc_month local_month
          (increment utc_month local_month counters now tenant metric delta)
          now
          tenant
          metric
          (some limit)
        ≡ false
  unfolding within_quota current_usage increment
  within_quota-increment counters now tenant metric delta limit same h =
      let h' = rw same at h in
      rw same (ground (arith, read-upsert_same delta tenant metric (utc_month now) counters))

  -- An increment in a month whose start in UTC is not the month's start that the server's zone gives
  -- at the time of the question is not seen by the quota: its answer is the one before, for every
  -- tenant, metric and limit.
  pub within_quota_blind :
      (counters : List Counter) (now before : ℕ) (tenant metric tenant' metric' : String)
      (delta : ℕ) (limit : Option ℕ)
      → utc_month before ≢ local_month now
      → within_quota utc_month local_month
          (increment utc_month local_month counters before tenant metric delta)
          now
          tenant'
          metric'
          limit
        ≡ within_quota utc_month local_month counters now tenant' metric' limit
  unfolding within_quota current_usage increment
  within_quota_blind counters now before tenant metric tenant' metric' delta none h = refl
  within_quota_blind counters now before tenant metric tenant' metric' delta (some limit) h =
      rw
        (read-upsert_other (λ n. n + delta) delta tenant metric tenant' metric' (utc_month before)
          (local_month now) counters h)
        refl
