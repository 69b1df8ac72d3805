-- ===== src/Realtime/Broker/Tests.antt =====
-- Two tenants on one broker.
use wa_ops.Base.{
  ◌+◌, ◌≤◌, ℕ, ◌≡◌, refl, inl, ◌<◌, ◌↔◌, Bool, true, false, none, some, List, [], ◌∷◌, map, take,
  if◌then◌else◌,
}
use wa_ops.Base.Text.{Text, codes, text_eq}
use wa_ops.Gateway.Credential.{is_space}
use wa_ops.Realtime.Broker.{Event, read_ring, retained_max, retained_after}
use wa_ops.Realtime.Broker.Replay.{IsIn, IsSorted}
use wa_ops.Realtime.Broker.Streams.{
  SseChannel, incidents, agents, channel_name, Call, subscribe, unsubscribe, Stream, Hub,
  open_stream, close_stream, parse_channels,
}
use wa_ops.Realtime.Broker.Streams.Sharing.{send_all, deliver_all, open_stream-shares}
use wa_ops.Realtime.Broker.Interleaving.{
  Act, numbers, publishes, Work, run, act, take_number, publish_waiting, pick, alive, numbered_of,
  count_id, run-replays,
}
use wa_ops.Realtime.Broker.Ids.{set, Draft}

abbrev ticked : ℕ → Event
ticked n = record { id = n; type = codes "tick"; payload = codes "{}" }

abbrev same_event : Event → Event
same_event e = e

parse_same : (e : Event) → some (same_event e) ≡ some e
parse_same e = refl

among : Text → List Text → Bool
unfolding text_eq
among n [] = false
among n (m ∷ ms) = let rest = among n ms in if text_eq n m then true else rest

-- A connection that delivers a channel if the newest call for it subscribes.
unfoldable delivers : List Call → Text → Bool
unfolding among
delivers [] n = false
delivers (subscribe ns ∷ calls) n = let rest = delivers calls n in if among n ns then true else rest
delivers (unsubscribe ns ∷ calls) n =
    let rest = delivers calls n in if among n ns then false else rest

abbrev nothing_retained : Text → List Event
nothing_retained ch = []

abbrev idle : Hub
idle = record { streams = []; calls = [] }

abbrev acme_open : Hub
acme_open =
    open_stream Event same_event some nothing_retained idle 1 (codes "acme") (agents ∷ []) none

abbrev both_open : Hub
both_open =
    open_stream Event same_event some nothing_retained acme_open 2 (codes "bolt") (incidents ∷ [])
      none

open_stream-shares_example :
    (deliver_all Event same_event some parse_same delivers both_open
      (channel_name (codes "bolt") incidents)
      (ticked 1 ∷ ticked 2 ∷ [])).streams
    ≡ map (send_all (ticked 1 ∷ ticked 2 ∷ [])) both_open.streams
unfolding delivers channel_name text_eq open_stream
open_stream-shares_example =
    open_stream-shares Event same_event some parse_same delivers nothing_retained acme_open 2
      (codes "bolt") (incidents ∷ []) none incidents (ticked 1 ∷ ticked 2 ∷ []) (refl, tt)
      (inl refl)

abbrev second_open : Hub
second_open =
    open_stream Event same_event some nothing_retained acme_open 2 (codes "acme") (agents ∷ []) none

abbrev second : Stream
second = record { id = 2; tenant_id = codes "acme"; channels = agents ∷ []; written = [] }

-- The other stream of the tenant is still open.
one_left : (s : Stream) × ((close_stream second_open 2).streams ≡ s ∷ [])
unfolding open_stream close_stream
one_left = (record { id = 1; tenant_id = codes "acme"; channels = agents ∷ []; written = [] }, refl)

abbrev draft : Text → SseChannel → Draft
draft tenant c = record {
  tenant_id = tenant;
  channel = c;
  type = codes "tick";
  payload = codes "{}";
}

-- Two producers for one tenant: the one with the greater number is the first to publish.
abbrev schedule : List Act
schedule =
    publishes 0 4000
    ∷ publishes 0 500
    ∷ numbers (draft (codes "acme") agents)
    ∷ numbers (draft (codes "acme") agents)
    ∷ []

abbrev worked : Work Event same_event some
worked = run Event same_event some schedule

later_first : alive 5000 (codes "acme") agents worked.published ≡ ticked 1 ∷ ticked 2 ∷ []
unfolding run act take_number publish_waiting pick set alive text_eq
later_first = refl

-- An hour after the first of them a client would have found none.
gone : alive 8000 (codes "acme") agents worked.published ≡ []
unfolding run act take_number publish_waiting pick set alive text_eq
gone = refl

run-replays_example :
    let again =
      retained_after Event same_event some
        (read_ring 5000 (worked.retained (channel_name (codes "acme") agents)))
        1 in
    ((id : ℕ)
      → count_id (codes "acme") id worked.waiting
          + count_id (codes "acme") id (numbered_of worked.published)
        ≤ 1)
    × IsSorted again
    × (IsIn (ticked 2) again ↔ (
        IsIn (ticked 2) (take retained_max (alive 5000 (codes "acme") agents worked.published))
        × (1 < 2)))
run-replays_example =
    run-replays Event same_event some parse_same schedule (codes "acme") agents 5000 1 (ticked 2)

channels_parsed : parse_channels (some (codes "agents, incidents")) ≡ some (agents ∷ incidents ∷ [])
unfolding parse_channels is_space
channels_parsed = refl

channel_unknown : parse_channels (some (codes "agents,tickets")) ≡ none
unfolding parse_channels is_space
channel_unknown = refl
