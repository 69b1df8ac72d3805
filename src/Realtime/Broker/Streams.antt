-- ===== src/Realtime/Broker/Streams.antt =====
-- The streams that one RealtimeBroker of apps/api/src/realtime/realtime.broker.ts serves, with the
-- handler of realtime.controller.ts that opens them and the ids of realtime.publisher.ts. The
-- connection `subscriber` to Redis is an argument: what it delivers, by the calls it has seen. So are
-- `JSON` and the retained lists. Comments are not written, and neither is a stream that its client
-- leaves while the replay is read.
pub mod Sharing
use wa_ops.Base.{
  ℕ, suc, ◌≡◌, refl, Bool, true, false, ◌&&◌, ◌||◌, Option, none, some, List, [], ◌∷◌, ◌++◌, map,
  ltb, leb, length, ◌==◌, if◌then◌else◌, arith,
}
use wa_ops.Base.Text.{Text, codes, text_eq, text_eq_iff}
use wa_ops.Contracts.{truthy}
use wa_ops.Errors.{
  Result, returned, raised, authentication_required, simple_error, validation, guard, or_throw,
  ◌>>=◌, ◌>>◌,
}
use wa_ops.Gateway.Credential.{split, trim_start, trim_end}
use wa_ops.Realtime.Broker.{Event, sort, newer}

-- SSE_CHANNELS
pub data SseChannel : Type 0 where
  incidents agents : SseChannel

abbrev pub name_of : SseChannel → Text
name_of incidents = codes "incidents"
name_of agents = codes "agents"

-- `tenant:${tenantId}:${channel}`
unfoldable pub channel_name : Text → SseChannel → Text
channel_name tenant c = codes "tenant:" ++ (tenant ++ 58 ∷ name_of c)

-- A call of the subscribing connection.
pub data Call : Type 0 where
  subscribe unsubscribe : List Text → Call

-- An open stream: whose it is, and the events written to its response, the oldest first.
pub record Stream : Type 0 where
  pub id : ℕ
  pub tenant_id : Text
  pub channels : List SseChannel
  pub written : List Event

-- The broker: its open streams, and the calls of `subscriber`, the newest first.
pub record Hub : Type 0 where
  pub streams : List Stream
  pub calls : List Call

abbrev pub send : Event → Stream → Stream
send e s = record s { written = s.written ++ e ∷ [] }

abbrev pub channel_names : Stream → List Text
channel_names s = map (channel_name s.tenant_id) s.channels

module _ (Raw : Type 0) (stringify : Event → Raw) (parse : Raw → Option Event)
    (retained : Text → List Raw) where
  -- `retainedAfter` for each of the channels
  unfoldable pub replay : Text → ℕ → List SseChannel → List Event
  replay tenant cursor [] = []
  replay tenant cursor (c ∷ cs) =
      sort (newer Raw stringify parse cursor (retained (channel_name tenant c)))
      ++ replay tenant cursor cs

  abbrev pub replay_from : Text → Option ℕ → List SseChannel → List Event
  replay_from tenant none cs = []
  replay_from tenant (some cursor) cs = replay tenant cursor cs

  -- `stream`, up to its subscription: a cursor that is no number is none.
  unfoldable pub open_stream : Hub → ℕ → Text → List SseChannel → Option ℕ → Hub
  unfolding replay
  open_stream hub id tenant cs cursor =
      let s : Stream = record {
        id = id;
        tenant_id = tenant;
        channels = cs;
        written = replay_from tenant cursor cs;
      } in
      record { streams = s ∷ hub.streams; calls = subscribe (channel_names s) ∷ hub.calls }

module _ (Raw : Type 0) (parse : Raw → Option Event) where
  -- `onMessage` of each stream, which does not read the channel
  unfoldable pub on_message : Text → Raw → Stream → Stream
  on_message ch message s = elim (parse message) [ none ↦ s | some e ↦ send e s ]

  -- A message that is published on a channel.
  unfoldable pub deliver : (List Call → Text → Bool) → Hub → Text → Raw → Hub
  unfolding on_message
  deliver delivers hub ch message =
      if delivers hub.calls ch
      then record hub { streams = map (on_message ch message) hub.streams }
      else hub

-- The stream of a response that is closed, and the others.
unfoldable pub find_stream : ℕ → List Stream → Option Stream
find_stream id [] = none
find_stream id (s ∷ ss) = let rest = find_stream id ss in if s.id == id then some s else rest

unfoldable pub without : ℕ → List Stream → List Stream
without id [] = []
without id (s ∷ ss) = let rest = without id ss in if s.id == id then rest else s ∷ rest

-- The handler of `close`
unfoldable pub close_stream : Hub → ℕ → Hub
unfolding find_stream without
close_stream hub id = elim (find_stream id hub.streams) [
  | none ↦ hub
  | some s ↦ record {
    streams = without id hub.streams;
    calls = unsubscribe (channel_names s) ∷ hub.calls;
  }
]

-- ChannelsSchema
unfoldable pub channel_of : Text → Option SseChannel
unfolding text_eq
channel_of name =
    if text_eq name (name_of incidents)
    then some incidents
    else if text_eq name (name_of agents)
    then some agents
    else none

abbrev both : Option SseChannel → Option (List SseChannel) → Option (List SseChannel)
both (some c) (some cs) = some (c ∷ cs)
both _ _ = none

unfoldable pub channels_of : List Text → Option (List SseChannel)
unfolding channel_of trim_start trim_end
channels_of [] = some []
channels_of (name ∷ names) = both (channel_of (trim_end (trim_start name))) (channels_of names)

unfoldable pub parse_channels : Option Text → Option (List SseChannel)
unfolding channels_of split
parse_channels none = some (incidents ∷ agents ∷ [])
parse_channels (some s) = if leb (length (split 44 s)) 2 then channels_of (split 44 s) else none

-- `if (lastEventId) try { BigInt(lastEventId) } catch { undefined }`
abbrev pub cursor_of : (Text → Option ℕ) → Option Text → Option ℕ
cursor_of to_id last_event_id = elim (truthy last_event_id) [ none ↦ none | some s ↦ to_id s ]

-- `stream` of the controller, for the tenant of the request's claims; `to_id` is `BigInt`, or none
-- where it throws.
unfoldable pub stream_request {ℓ} :
    {Answer : Type ℓ} (to_id : Text → Option ℕ)
    (stream : Text → List SseChannel → Option ℕ → Answer) (tenant : Option Text)
    (channels last_event_id : Option Text)
    → Result Answer
unfolding parse_channels
stream_request to_id stream tenant channels last_event_id = do
  t ← or_throw (simple_error authentication_required "authentication required" 401) tenant
  cs ← or_throw (validation "invalid channels") (parse_channels channels)
  returned (stream t cs (cursor_of to_id last_event_id))
