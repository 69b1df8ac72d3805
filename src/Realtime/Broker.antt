-- ===== src/Realtime/Broker.antt =====
-- The retained events of apps/api/src/realtime/realtime.broker.ts, for one channel of a tenant, as the
-- three producers write them: the broker itself, apps/worker/src/realtime.emit.ts and
-- `publishAgentEvent` of apps/collector-gateway/src/main.ts. `JSON` is an argument. The time is
-- that of Redis, in seconds; a key that has expired reads as an empty list.
pub mod Replay
pub mod Streams
pub mod Ids
pub mod Interleaving
mod Tests
use wa_ops.Base.{
  ℕ, zero, suc, ◌+◌, ◌≤◌, ◌<◌, ◌≡◌, refl, ap, ◌∙◌, sym, ◌↔◌, ◌⊎◌, inl, inr, Bool, true, false,
  Option, none, some, List, [], ◌∷◌, map, arith, ltb, take, All, if◌then◌else◌, Bool-cases,
}
use wa_ops.Base.Text.{Text}

-- RealtimeEvent; its time and its payload are one text here.
pub record Event : Type 0 where
  pub id : ℕ
  pub type : Text
  pub payload : Text

abbrev pub retained_max : ℕ
retained_max = 200

-- RETAINED_TTL_SECONDS
abbrev pub retained_ttl_seconds : ℕ
retained_ttl_seconds = 3600

-- The key of a retained list: the list, and when the key expires.
pub record RetainedList (Raw : Type 0) : Type 0 where
  pub ring : List Raw
  pub expires_at : ℕ

-- `lrange` of the whole list
unfoldable pub read_ring : {Raw : Type 0} → ℕ → RetainedList Raw → List Raw
read_ring now k = if ltb now k.expires_at then k.ring else []

-- `events.sort((a, b) => (a.id < b.id ? -1 : 1))`
unfoldable pub insert : Event → List Event → List Event
insert e [] = e ∷ []
insert e (x ∷ xs) = let rest = insert e xs in if ltb e.id x.id then e ∷ x ∷ xs else x ∷ rest

unfoldable pub sort : List Event → List Event
unfolding insert
sort [] = []
sort (e ∷ es) = insert e (sort es)

module _ (Raw : Type 0) (stringify : Event → Raw) (parse : Raw → Option Event) where
  -- `lpush` and `ltrim` to the newest `RETAINED_MAX`
  unfoldable pub push_trimmed : Event → List Raw → List Raw
  push_trimmed e ring = take retained_max (stringify e ∷ ring)

  -- The list that a message is retained in: these two, and `expire`.
  unfoldable pub publish : ℕ → Event → RetainedList Raw → RetainedList Raw
  unfolding push_trimmed read_ring
  publish now e k = record {
    ring = push_trimmed e (read_ring now k);
    expires_at = now + retained_ttl_seconds;
  }

  -- The events of a list of lines with an id behind the cursor; a line that is malformed is skipped.
  unfoldable pub newer : ℕ → List Raw → List Event
  newer after_id [] = []
  newer after_id (line ∷ lines) =
      let rest = newer after_id lines in
      elim (parse line) [ none ↦ rest | some e ↦ if ltb after_id e.id then e ∷ rest else rest ]

  unfoldable pub retained_after : List Raw → ℕ → List Event
  unfolding newer sort
  retained_after ring after_id = sort (newer after_id ring)

  -- The list after some events have been published, the newest first, from an empty one, none of them an
  -- hour after the one before.
  unfoldable pub ring_of : List Event → List Raw
  unfolding push_trimmed
  ring_of [] = []
  ring_of (e ∷ older) = push_trimmed e (ring_of older)
