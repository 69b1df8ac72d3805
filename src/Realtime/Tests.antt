-- ===== src/Realtime/Tests.antt =====
-- Runs of the parser and of the client of Realtime on small streams.
use wa_ops.Base.{ℕ, ◌≡◌, ◌≢◌, refl, false, none, List, [], ◌∷◌, ◌++◌, All, flatten, map, arith}
use wa_ops.Base.Text.{Text, codes, includes}
use wa_ops.Realtime.Sse.{drop_cr, new_parser, push, push_all}
use wa_ops.Realtime.Sse.Chunks.{after, push-append}
use wa_ops.Realtime.Sse.Stream.{
  Item, event, comment, wire, IsWritable, frames, last_id, between, push_all-wire,
}
use wa_ops.Realtime.Client.{Seen, is_duplicate, Client}
use wa_ops.Realtime.Client.Dedup.{IsWindow}

heartbeat_then_event :
    (push_all new_parser (codes ":ok\n\nid: 7\neve" ∷ codes "nt: a\r\ndata: x\ndata:y\n\n" ∷ [])).1
    ≡ record { id = codes "7"; event = codes "a"; payload = codes "x\ny" } ∷ []
unfolding push_all
heartbeat_then_event = refl

-- A heartbeat and an event.
abbrev items : List Item
items = comment (codes "hb") ∷ event (codes "7") (codes "tick") (codes "{}") ∷ []

abbrev first_chunk : Text
first_chunk = codes ":hb\n\nid: 7\nevent: ti"

abbrev second_chunk : Text
second_chunk = codes "ck\ndata: {}\n\n"

filled : (c : ℕ) (s : Text) → c ∷ s ≢ []
filled c s e = cc

items-IsWritable : All IsWritable items
unfolding includes drop_cr
items-IsWritable =
    ((refl, refl), (((refl, refl), refl, (refl, refl), filled _ _, (refl, refl)), tt))

items_cut : first_chunk ++ flatten (second_chunk ∷ []) ≡ flatten (map wire items)
unfolding wire
items_cut = refl

push_all-wire_example :
    push_all new_parser (first_chunk ∷ second_chunk ∷ [])
    ≡ (between (last_id [] items), frames items)
push_all-wire_example =
    push_all-wire items first_chunk (second_chunk ∷ []) items-IsWritable items_cut

push-append_example :
    push new_parser (first_chunk ++ second_chunk)
    ≡ after (push new_parser first_chunk).1 (push (push new_parser first_chunk).0 second_chunk)
push-append_example = push-append new_parser first_chunk second_chunk

abbrev start : Client
start = record { seen = record { recent = []; queue = [] }; cursor = none; attempt = 3 }

abbrev unseen : Seen
unseen = record { recent = []; queue = [] }

unseen-IsWindow : IsWindow unseen
unseen-IsWindow = record { same = refl; bounded = omega arith }

seven_is_new : (is_duplicate unseen (codes "7")).0 ≡ false
unfolding is_duplicate
seven_is_new = refl
