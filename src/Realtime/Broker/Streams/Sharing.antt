-- ===== src/Realtime/Broker/Streams/Sharing.antt =====
-- What the streams that are open at one time have to do with one another.
use mathlib.Core.List.{append_assoc, append-nil}
use wa_ops.Base.{
  ℕ, ◌≡◌, refl, ap, ◌∙◌, ◌⊎◌, inl, inr, Bool, true, false, Option, some, List, [], ◌∷◌, ◌++◌, map,
  All,
}
use wa_ops.Base.Text.{Text}
use wa_ops.Realtime.Broker.{Event}
use wa_ops.Realtime.Broker.Streams.{
  SseChannel, channel_name, Call, subscribe, unsubscribe, Stream, Hub, channel_names, open_stream,
  on_message, deliver, find_stream, close_stream,
}

abbrev pub IsAmong : SseChannel → List SseChannel → Type 0
IsAmong c [] = ⊥
IsAmong c (d ∷ ds) = (c ≡ d) ⊎ IsAmong c ds

abbrev pub send_all : List Event → Stream → Stream
send_all es s = record s { written = s.written ++ es }

abbrev with_calls : List Call → List Stream → Hub
with_calls calls ss = record { streams = ss; calls = calls }

send_all-nil : (ss : List Stream) → map (send_all []) ss ≡ ss
send_all-nil [] = refl
send_all-nil (s ∷ ss) = rw (append-nil s.written, send_all-nil ss) refl

All-names :
    (P : Text → Type 0) (tenant : Text) (c : SseChannel) (cs : List SseChannel)
    → All P (map (channel_name tenant) cs)
    → IsAmong c cs
    → P (channel_name tenant c)
All-names P tenant c [] all h = absurd h
All-names P tenant c (d ∷ ds) (p, all) (inl q) = rw q p
All-names P tenant c (d ∷ ds) (p, all) (inr h) = All-names P tenant c ds all h

module _ (Raw : Type 0) (stringify : Event → Raw) (parse : Raw → Option Event)
    (parse-stringify : (e : Event) → parse (stringify e) ≡ some e)
    (delivers : List Call → Text → Bool) where
  -- Events that are published one after the other on a channel.
  abbrev pub deliver_all : Hub → Text → List Event → Hub
  deliver_all hub ch [] = hub
  deliver_all hub ch (e ∷ es) = deliver_all (deliver Raw parse delivers hub ch (stringify e)) ch es

  send_all-on_message :
      (ch : Text) (e : Event) (es : List Event) (s : Stream)
      → send_all es (on_message Raw parse ch (stringify e) s) ≡ send_all (e ∷ es) s
  unfolding on_message
  send_all-on_message ch e es s =
      rw (parse-stringify e, on_message)
        (ap (λ w. record s { written = w }) (append_assoc s.written (e ∷ []) es))

  map-on_message :
      (ch : Text) (e : Event) (es : List Event) (ss : List Stream)
      → map (send_all es) (map (on_message Raw parse ch (stringify e)) ss)
        ≡ map (send_all (e ∷ es)) ss
  map-on_message ch e es [] = refl
  map-on_message ch e es (s ∷ ss) =
      ap (λ x. x ∷ map (send_all es) (map (on_message Raw parse ch (stringify e)) ss))
        (send_all-on_message ch e es s)
      ∙ ap (◌∷◌ (send_all (e ∷ es) s)) (map-on_message ch e es ss)

  -- On a channel that is delivered, every open stream is written all events.
  deliver_all-heard :
      (streams : List Stream) (calls : List Call) (ch : Text) (es : List Event)
      → delivers calls ch ≡ true
      → deliver_all (record { streams = streams; calls = calls }) ch es
        ≡ record { streams = map (send_all es) streams; calls = calls }
  unfolding deliver
  deliver_all-heard streams calls ch [] h = rw (send_all-nil streams) refl
  deliver_all-heard streams calls ch (e ∷ es) h = rw h (
      deliver_all-heard (map (on_message Raw parse ch (stringify e)) streams) calls ch es h
      ∙ ap (with_calls calls) (map-on_message ch e es streams))

  deliver_all-unheard :
      (hub : Hub) (ch : Text) (es : List Event)
      → delivers hub.calls ch ≡ false
      → deliver_all hub ch es ≡ hub
  unfolding deliver
  deliver_all-unheard hub ch [] h = refl
  deliver_all-unheard hub ch (e ∷ es) h = rw h (deliver_all-unheard hub ch es h)

  -- Once a stream has been opened, all that is published on one of its channels, until the next stream
  -- opens or closes, is written in order to every open stream, of whatever tenant and whichever
  -- channels. Asked: a connection that has just subscribed to channels delivers them.
  pub open_stream-shares :
      (retained : Text → List Raw) (hub : Hub) (id : ℕ) (tenant : Text) (cs : List SseChannel)
      (cursor : Option ℕ) (c : SseChannel) (es : List Event)
      → All
          (λ n. delivers (subscribe (map (channel_name tenant) cs) ∷ hub.calls) n ≡ true)
          (map (channel_name tenant) cs)
      → IsAmong c cs
      → (deliver_all
          (open_stream Raw stringify parse retained hub id tenant cs cursor)
          (channel_name tenant c)
          es).streams
        ≡ map
            (send_all es)
            (open_stream Raw stringify parse retained hub id tenant cs cursor).streams
  unfolding open_stream
  open_stream-shares retained hub id tenant cs cursor c es all h =
      ap (λ (hub' : Hub). hub'.streams)
        (deliver_all-heard
          (open_stream Raw stringify parse retained hub id tenant cs cursor).streams
          (subscribe (map (channel_name tenant) cs) ∷ hub.calls) (channel_name tenant c) es
          (All-names _ tenant c cs all h))

  -- Once a stream has been closed, nothing that is published on one of its channels is written to any
  -- stream, the open ones of the same tenant and channel included, until the next stream opens. Asked:
  -- a connection that has just unsubscribed from channels does not deliver them.
  pub close_stream-silences :
      (hub : Hub) (s : Stream) (c : SseChannel) (es : List Event)
      → find_stream s.id hub.streams ≡ some s
      → All (λ n. delivers (unsubscribe (channel_names s) ∷ hub.calls) n ≡ false) (channel_names s)
      → IsAmong c s.channels
      → deliver_all (close_stream hub s.id) (channel_name s.tenant_id c) es ≡ close_stream hub s.id
  unfolding close_stream
  close_stream-silences hub s c es found all h =
      rw (found, close_stream)
        (deliver_all-unheard _ (channel_name s.tenant_id c) es
          (All-names _ s.tenant_id c s.channels all h))
