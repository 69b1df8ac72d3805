-- ===== src/Realtime/Sse/Stream.antt =====
-- The wire format that `stream` of apps/api/src/realtime/realtime.broker.ts writes, and what
-- `SseParser` reads from it.
use mathlib.Core.List.{append_assoc}
use wa_ops.Base.{
  ℕ, suc, ◌≡◌, ◌≢◌, refl, ap, ◌∙◌, false, List, [], ◌∷◌, ◌++◌, arith, All, length, flatten, map,
}
use wa_ops.Base.Text.{Text, codes, includes, split_at-append, length-split_at}
use wa_ops.Realtime.Sse.{
  newline, carriage_return, Frame, Fields, Parser, new_parser, drop_cr, drop_space, on_line, push,
  push_all,
}
use wa_ops.Realtime.Sse.Chunks.{after, drain_fuel, drain-some, push_all-flatten}

-- What the server writes: an event, by `send`, or a comment, by `comment`.
pub data Item : Type 0 where
  event : (id type json : Text) → Item
  comment : Text → Item

-- `id: ${id}\nevent: ${type}\ndata: ${json}\n\n` and `:${text}\n\n`
unfoldable pub wire : Item → Text
wire (event id type json) =
    codes "id: "
    ++ (id
        ++ (newline ∷ codes "event: "
            ++ (type ++ (newline ∷ codes "data: " ++ (json ++ (newline ∷ newline ∷ []))))))
wire (comment s) = 58 ∷ s ++ (newline ∷ newline ∷ [])

-- A text that stands on one line: no newline, and no carriage return at its end.
abbrev pub IsLine : Text → Type 0
IsLine s = (includes newline s ≡ false) × (drop_cr s ≡ s)

abbrev pub IsWritable : Item → Type 0
IsWritable (event id type json) =
    IsLine id × (includes 0 id ≡ false) × IsLine type × (type ≢ []) × IsLine json
IsWritable (comment s) = IsLine s

-- The frames of the events.
abbrev pub frames : List Item → List Frame
frames [] = []
frames (event id type json ∷ items) =
    record { id = id; event = type; payload = json } ∷ frames items
frames (comment s ∷ items) = frames items

abbrev pub last_id : Text → List Item → Text
last_id id [] = id
last_id id (event id' type json ∷ items) = last_id id' items
last_id id (comment s ∷ items) = last_id id items

-- One line of the buffer.
push_line :
    (f : Fields) (line rest : Text)
    → includes newline line ≡ false
    → push (record { buffer = []; fields = f }) (line ++ newline ∷ rest)
      ≡ after (on_line f line).1 (push (record { buffer = []; fields = (on_line f line).0 }) rest)
unfolding push
push_line f line rest h =
    let whole = line ++ newline ∷ rest in
    let split = split_at-append newline line rest h in
    let less = length-split_at newline whole line rest split in
    drain_fuel (length whole) (suc (length whole)) f whole (omega arith) (omega arith)
    ∙ drain-some (length whole) f whole line rest split
    ∙ ap (after (on_line f line).1) (
        drain_fuel (length whole) (length rest) (on_line f line).0 rest (omega arith) (omega arith))

drop_cr-cons : (c : ℕ) (s : Text) → c ≢ carriage_return → drop_cr s ≡ s → drop_cr (c ∷ s) ≡ c ∷ s
unfolding drop_cr
drop_cr-cons c [] h e = ground arith
drop_cr-cons c (d ∷ s) h e = ap (◌∷◌ c) e

spaced : (s : Text) → drop_cr s ≡ s → drop_space (drop_cr (32 ∷ s)) ≡ s
unfolding drop_space
spaced s e = rw (drop_cr-cons 32 s (omega arith) e)

abbrev idle : Text → Fields
idle id = record { lines = []; event_name = []; id = id }

module _ (f : Fields) where
  id_line :
      (id : Text)
      → IsLine id
      → includes 0 id ≡ false
      → on_line f (codes "id: " ++ id) ≡ (record f { id = id }, [])
  unfolding on_line
  id_line id (one, same) clean = rw (spaced id same, clean)

  event_line :
      (type : Text)
      → IsLine type
      → on_line f (codes "event: " ++ type) ≡ (record f { event_name = type }, [])
  unfolding on_line
  event_line type (one, same) = rw (spaced type same)

  data_line :
      (json : Text)
      → IsLine json
      → on_line f (codes "data: " ++ json) ≡ (record f { lines = f.lines ++ json ∷ [] }, [])
  unfolding on_line
  data_line json (one, same) = rw (spaced json same)

  comment_line : (s : Text) → IsLine s → on_line f (58 ∷ s) ≡ (f, [])
  unfolding on_line
  comment_line s (one, same) = rw (drop_cr-cons 58 s (omega arith) same)

blank_line :
    (id type json : Text)
    → type ≢ []
    → on_line (record { lines = json ∷ []; event_name = type; id = id }) []
      ≡ (idle id, record { id = id; event = type; payload = json } ∷ [])
unfolding on_line
blank_line id [] json h = absurd (h refl)
blank_line id (c ∷ type) json h = refl

-- A parser between two items.
abbrev pub between : Text → Parser
between id = record { buffer = []; fields = idle id }

-- One line, whose effect is known.
read_line :
    (f f' : Fields) (line rest : Text) (fs : List Frame)
    → includes newline line ≡ false
    → on_line f line ≡ (f', fs)
    → push (record { buffer = []; fields = f }) (line ++ newline ∷ rest)
      ≡ after fs (push (record { buffer = []; fields = f' }) rest)
read_line f f' line rest fs h e = rw (push_line f line rest h, e)

read_item :
    (last : Text) (item : Item) (rest : Text)
    → IsWritable item
    → push (between last) (wire item ++ rest)
      ≡ after (frames (item ∷ [])) (push (between (last_id last (item ∷ []))) rest)
unfolding wire includes on_line
read_item last (event id type json) rest (one_id, clean, one_type, named, one_json) =
    ap (push (between last)) (simp append_assoc)
    ∙ read_line (idle last) (idle id) (codes "id: " ++ id) _ [] one_id.0
        (id_line (idle last) id one_id clean)
    ∙ read_line (idle id) (record (idle id) { event_name = type }) (codes "event: " ++ type) _ []
        one_type.0 (event_line (idle id) type one_type)
    ∙ read_line (record (idle id) { event_name = type })
        (record { lines = json ∷ []; event_name = type; id = id }) (codes "data: " ++ json)
        (newline ∷ rest) [] one_json.0
        (data_line (record (idle id) { event_name = type }) json one_json)
    ∙ read_line (record { lines = json ∷ []; event_name = type; id = id }) (idle id) [] rest _ refl
        (blank_line id type json named)
read_item last (comment s) rest one =
    ap (push (between last)) (simp append_assoc)
    ∙ read_line (idle last) (idle last) (58 ∷ s) (newline ∷ rest) [] one.0
        (comment_line (idle last) s one)
    ∙ read_line (idle last) (idle last) [] rest [] refl refl

-- The whole of a stream in one chunk.
read_items :
    (last : Text) (items : List Item)
    → All IsWritable items
    → push (between last) (flatten (map wire items)) ≡ (between (last_id last items), frames items)
read_items last [] h = unfold push in refl
read_items last (event id type json ∷ items) (h, hs) =
    read_item last (event id type json) (flatten (map wire items)) h
    ∙ ap (after (record { id = id; event = type; payload = json } ∷ [])) (read_items id items hs)
read_items last (comment s ∷ items) (h, hs) =
    read_item last (comment s) (flatten (map wire items)) h ∙ read_items last items hs

-- Whatever events and comments the server writes, and however the network cuts the bytes into chunks,
-- the browser's parser gives exactly the frames of the events, in their order, with their ids, types
-- and payloads, and ends between two items with the id of the last event. Asked of the texts: they
-- hold no newline and end in no carriage return, ids hold no NUL, and types are not empty.
pub push_all-wire :
    (items : List Item) (chunk : Text) (chunks : List Text)
    → All IsWritable items
    → chunk ++ flatten chunks ≡ flatten (map wire items)
    → push_all new_parser (chunk ∷ chunks) ≡ (between (last_id [] items), frames items)
push_all-wire items chunk chunks h e =
    push_all-flatten new_parser chunk chunks ∙ ap (push new_parser) e ∙ read_items [] items h
