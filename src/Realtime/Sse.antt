-- ===== src/Realtime/Sse.antt =====
-- `SseParser` of apps/web/src/lib/sse.ts.
pub mod Chunks
pub mod Stream
use wa_ops.Base.{
  ℕ, zero, suc, ◌≡◌, refl, Bool, true, false, Option, none, some, List, [], ◌∷◌, ◌++◌, ◌==◌,
  if◌then◌else◌, length, not, ◌&&◌,
}
use wa_ops.Base.Text.{Text, codes, text_eq, includes, split_at}

abbrev pub newline : ℕ
newline = 10

abbrev pub carriage_return : ℕ
carriage_return = 13

-- SseFrame
pub record Frame : Type 0 where
  pub id : Text
  pub event : Text
  pub payload : Text

-- The fields of the parser but `buffer`.
pub record Fields : Type 0 where
  pub lines : List Text
  pub event_name : Text
  pub id : Text

pub record Parser : Type 0 where
  pub buffer : Text
  pub fields : Fields

abbrev pub fresh : Fields
fresh = record { lines = []; event_name = []; id = [] }

-- `join('\n')`
unfoldable pub join_lines : List Text → Text
join_lines [] = []
join_lines (s ∷ []) = s
join_lines (s ∷ t ∷ more) = s ++ (newline ∷ join_lines (t ∷ more))

abbrev or_message : Text → Text
or_message [] = codes "message"
or_message (c ∷ s) = c ∷ s

abbrev pub dispatch_lines : Fields → List Text → Fields × List Frame
dispatch_lines f [] = (record f { event_name = [] }, [])
dispatch_lines f (s ∷ more) = (
  record f { lines = []; event_name = [] },
  record { id = f.id; event = or_message f.event_name; payload = join_lines (s ∷ more) } ∷ [],
)

-- The frame, if any, as a list.
unfoldable pub dispatch : Fields → Fields × List Frame
unfolding join_lines
dispatch f = dispatch_lines f f.lines

-- `if (line.endsWith('\r')) line = line.slice(0, -1)`
unfoldable pub drop_cr : Text → Text
drop_cr [] = []
drop_cr (c ∷ []) = if c == carriage_return then [] else c ∷ []
drop_cr (c ∷ d ∷ s) = c ∷ drop_cr (d ∷ s)

-- `if (value.startsWith(' ')) value = value.slice(1)`
unfoldable pub drop_space : Text → Text
drop_space [] = []
drop_space (c ∷ s) = if c == 32 then s else c ∷ s

unfoldable pub set_field : Fields → Text → Text → Fields
unfolding text_eq includes
set_field f field value =
    if text_eq field (codes "data")
    then record f { lines = f.lines ++ value ∷ [] }
    else if text_eq field (codes "event")
    then record f { event_name = value }
    else if text_eq field (codes "id") && not (includes 0 value)
    then record f { id = value }
    else f

unfoldable pub field_line : Fields → Text → Fields
unfolding split_at drop_space set_field
field_line f line = elim (split_at 58 line) [
  | none ↦ set_field f line (drop_space [])
  | some (field, value) ↦ set_field f field (drop_space value)
]

-- A line that is not empty: a comment begins with a colon.
unfoldable pub on_text : Fields → ℕ → Text → Fields
unfolding field_line
on_text f c s = if c == 58 then f else field_line f (c ∷ s)

abbrev on_stripped : Fields → Text → Fields × List Frame
on_stripped f [] = dispatch f
on_stripped f (c ∷ s) = (on_text f c s, [])

-- The body of the loop of `push`, on a line without its newline.
unfoldable pub on_line : Fields → Text → Fields × List Frame
unfolding dispatch drop_cr on_text
on_line f line = on_stripped f (drop_cr line)

-- The loop of `push`; each round removes a newline from the buffer, so its length is enough fuel.
unfoldable pub drain : ℕ → Fields → Text → Parser × List Frame
drain zero f buffer = (record { buffer = buffer; fields = f }, [])
drain (suc fuel) f buffer = elim (split_at newline buffer) [
  | none ↦ (record { buffer = buffer; fields = f }, [])
  | some (line, rest) ↦
      let (f', frames) = on_line f line in let (p, more) = drain fuel f' rest in (p, frames ++ more)
]

unfoldable pub push : Parser → Text → Parser × List Frame
unfolding drain split_at on_line
push p chunk = let buffer = p.buffer ++ chunk in drain (length buffer) p.fields buffer

abbrev pub new_parser : Parser
new_parser = record { buffer = []; fields = fresh }

-- The reader's loop: one `push` for each chunk.
unfoldable pub push_all : Parser → List Text → Parser × List Frame
unfolding push
push_all p [] = (p, [])
push_all p (chunk ∷ chunks) =
    let (p', frames) = push p chunk in let (p'', more) = push_all p' chunks in (p'', frames ++ more)
