-- ===== src/Metrics/Series.antt =====
-- The handlers of apps/api/src/metrics/metrics.controller.ts. A query is the record of its parameters
-- after their coercion; the rows that the database answers with are arguments, as functions of what it
-- is asked. The values of samples are of a type of which nothing is asked, and queries end after the
-- first hours of 1970.
pub mod Grouping
pub mod Shown
use wa_ops.Base.{
  ℕ, ◌-◌, ◌*◌, ◌≡◌, refl, Bool, true, false, ◌&&◌, String, Option, none, some, List, [], ◌∷◌, ◌++◌,
  map, leb, length, if◌then◌else◌,
}
use wa_ops.Base.Dict.{Dict, get, put}
use wa_ops.Base.Text.{Text, codes}
use wa_ops.Database.{RowId, Table}
use wa_ops.Errors.{
  Result, returned, raised, simple_error, dependency_unavailable, validation, or_throw, guard,
  ◌>>=◌, ◌>>◌,
}
use wa_ops.Hosts.{Host, require_host, resource_of}
use wa_ops.Metrics.Buckets.{
  default_window_ms, span_of, buckets_of, bucket_ms, minutes_of, downsample,
}

-- QuerySchema
pub record Query : Type 0 where
  pub metric : Option Text
  pub from_ms : Option ℕ
  pub to_ms : Option ℕ
  pub buckets : Option ℕ
  pub mount : Option Text
  pub interface : Option Text

abbrev sized : ℕ → ℕ → Option Text → Bool
sized least most none = true
sized least most (some s) = leb least (length s) && leb (length s) most

abbrev between : ℕ → ℕ → Option ℕ → Bool
between least most none = true
between least most (some n) = leb least n && leb n most

abbrev pub fit_query : Query → Bool
fit_query q =
    sized 1 128 q.metric
    && (between 1 200 q.buckets && (sized 0 200 q.mount && sized 0 200 q.interface))

-- What the database is asked for.
pub record Asked : Type 0 where
  pub tenant_id : Text
  pub resource_id : Text
  pub metrics : List Text
  pub minutes : ℕ
  pub from_ms : ℕ
  pub to_ms : ℕ
  pub mount : Option Text
  pub interface : Option Text

-- SeriesPoint
pub record Point (V : Type 0) : Type 0 where
  pub t : ℕ
  pub avg : V
  pub max : V
  pub last : V

-- A row of either query. The rollup has no `last`.
pub record Row (V : Type 0) : Type 0 where
  pub metric : String
  pub point : Point V

pub record Rolled (V : Type 0) : Type 0 where
  pub metric : String
  pub t : ℕ
  pub avg : V
  pub max : V

pub record Answer (V : Type 0) : Type 0 where
  pub host_id : RowId
  pub resource_id : Text
  pub from_ms : ℕ
  pub to_ms : ℕ
  pub bucket_ms : ℕ
  pub series : Dict (List (Point V))

pub record LongAnswer (V : Type 0) : Type 0 where
  pub host_id : RowId
  pub resource_id : Text
  pub window_days : ℕ
  pub series : Dict (List (Point V))

-- LongQuerySchema, with `days` behind its default
pub record LongQuery : Type 0 where
  pub metric : Option Text
  pub days : ℕ
  pub buckets : Option ℕ

abbrev pub fit_long_query : LongQuery → Bool
fit_long_query q =
    sized 1 128 q.metric && ((leb 1 q.days && leb q.days 90) && between 10 500 q.buckets)

abbrev pub or_value {ℓ} : {A : Type ℓ} → A → Option A → A
or_value a none = a
or_value a (some b) = b

abbrev live_metrics : List Text
live_metrics =
    codes "host.cpu.usage_percent"
    ∷ codes "host.memory.used_bytes"
    ∷ codes "host.memory.available_bytes"
    ∷ codes "host.load.1"
    ∷ codes "host.load.5"
    ∷ codes "host.load.15"
    ∷ codes "host.uptime_seconds"
    ∷ []

abbrev long_metrics : List Text
long_metrics = codes "host.cpu.usage_percent" ∷ codes "host.memory.used_bytes" ∷ []

abbrev only : List Text → Option Text → List Text
only otherwise none = otherwise
only otherwise (some m) = m ∷ []

-- The query behind the checks of its window.
abbrev pub ask : Text → Text → Query → ℕ → ℕ → Asked
ask tenant resource q to_ms span_ms = record {
  tenant_id = tenant;
  resource_id = resource;
  metrics = only live_metrics q.metric;
  minutes = minutes_of (bucket_ms span_ms (buckets_of q.buckets span_ms));
  from_ms = to_ms - span_ms;
  to_ms = to_ms;
  mount = q.mount;
  interface = q.interface;
}

-- `(series[key] ??= []).push(value)`
abbrev pub push_at {ℓ} : {A : Type ℓ} → String → A → Dict (List A) → Dict (List A)
push_at key a d = put key (or_value [] (get key d) ++ a ∷ []) d

unfoldable pub group {ℓ} : {A : Type ℓ} → Dict (List A) → List (String × A) → Dict (List A)
group d [] = d
group d ((key, a) ∷ rows) = group (push_at key a d) rows

module _ {V : Type 0} where
  abbrev pub keyed : Row V → String × Point V
  keyed r = (r.metric, r.point)

  abbrev pub keyed_raw : Rolled V → String × Rolled V
  keyed_raw r = (r.metric, r)

  abbrev pub last_avg : V → List (Rolled V) → V
  last_avg otherwise [] = otherwise
  last_avg otherwise (r ∷ []) = r.avg
  last_avg otherwise (r ∷ q ∷ rs) = last_avg otherwise (q ∷ rs)

  -- The points of one metric, each with the newest average as its `last`.
  abbrev pub with_last : V → List (Rolled V) → List (Point V)
  with_last zero_value pts =
      map (λ p. record { t = p.t; avg = p.avg; max = p.max; last = last_avg zero_value pts }) pts

  unfoldable pub reshape : V → Dict (List (Rolled V)) → List (String × Point V)
  reshape zero_value [] = []
  reshape zero_value ((key, pts) ∷ d) =
      map (λ p. (key, p)) (with_last zero_value pts) ++ reshape zero_value d

  unfoldable pub thin : ℕ → Dict (List (Point V)) → Dict (List (Point V))
  thin buckets [] = []
  thin buckets ((key, pts) ∷ d) = (key, downsample buckets pts) ∷ thin buckets d

  -- From the rollup's rows to the series of the answer.
  unfoldable pub long_points : V → ℕ → List (Rolled V) → Dict (List (Point V))
  unfolding group reshape thin
  long_points zero_value buckets raw =
      thin buckets (group [] (reshape zero_value (group [] (map keyed_raw raw))))

  module _ (hosts_table : Table Host) where
    unfoldable pub series :
        (query : Asked → List (Row V))
        → hosts_table.State
        → (tenant id : Text) → Query
        → (now : ℕ) → Result (Answer V)
    unfolding group
    series query hosts tenant id q now = do
      guard (fit_query q) (validation "invalid metrics query")
      (k, h) ← require_host hosts_table hosts tenant id
      let to_ms = or_value now q.to_ms
      span_ms ← or_throw (validation "from must be before to") (span_of q.from_ms to_ms)
      let asked = ask tenant (resource_of k h) q to_ms span_ms
      returned (record {
        host_id = k;
        resource_id = resource_of k h;
        from_ms = to_ms - span_ms;
        to_ms = to_ms;
        bucket_ms = bucket_ms span_ms (buckets_of q.buckets span_ms);
        series = group [] (map keyed (query asked));
      })

    -- `none` where the query throws.
    unfoldable pub long_series :
        (query : Asked → Option (List (Rolled V)))
        → (zero_value : V) → hosts_table.State
        → (tenant id : Text) → LongQuery
        → (now : ℕ) → Result (LongAnswer V)
    unfolding long_points
    long_series query zero_value hosts tenant id q now = do
      guard (fit_long_query q) (validation "invalid long-series query")
      (k, h) ← require_host hosts_table hosts tenant id
      raw ←
          or_throw
            (simple_error dependency_unavailable
              "long-window rollup unavailable (Timescale aggregate missing)" 503)
            (query (record {
              tenant_id = tenant;
              resource_id = resource_of k h;
              metrics = only long_metrics q.metric;
              minutes = 5;
              from_ms = now - q.days * 86400000;
              to_ms = now;
              mount = none;
              interface = none;
            }))
      returned (record {
        host_id = k;
        resource_id = resource_of k h;
        window_days = q.days;
        series = long_points zero_value (or_value 288 q.buckets) raw;
      })

-- `query` answers with the newest sample of each mount.
module _ (hosts_table : Table Host) where
  unfoldable pub filesystems {ℓ} :
      {F : Type ℓ}
      → (query : Text → Text → List F) → hosts_table.State
      → (tenant id : Text) → Result (RowId × List F)
  filesystems query hosts tenant id = do
    (k, h) ← require_host hosts_table hosts tenant id
    returned (k, query tenant (resource_of k h))

  -- `rows` are the tenant's containers on a host.
  unfoldable pub containers {ℓ} :
      {C : Type ℓ}
      → (rows : Text → RowId → List C) → hosts_table.State
      → (tenant id : Text) → Result (List C)
  containers rows hosts tenant id = do
    (k, _) ← require_host hosts_table hosts tenant id
    returned (rows tenant k)
