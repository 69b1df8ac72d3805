-- ===== src/Contracts/EventTypes/Registry.antt =====
-- What the registry of packages/contracts/src/event-types.ts answers after the catalog has been
-- registered.
use wa_ops.Base.{
  ◌≡◌, refl, sym, ◌∙◌, ap, Bool, true, false, String, Option, none, some, List, [], ◌∷◌, str_eq,
  eq_iff, All, Bool-cases, Option-cases, inl, inr, if◌then◌else◌,
}
use wa_ops.Base.Dict.{get, get-put}
use wa_ops.Contracts.EventTypes.{
  EventType, Registry, get_event_type, register_new, register_all, register_event_catalog,
  event_catalog,
}

-- The first definition of a kind.
unfoldable pub first_of : String → List EventType → Option EventType
first_of kind [] = none
first_of kind (def ∷ defs) = if str_eq def.kind kind then some def else first_of kind defs

abbrev pub or_first : Option EventType → Option EventType → Option EventType
or_first none other = other
or_first (some def) other = some def

or_none : (found : Option EventType) → found ≡ or_first found none
or_none none = refl
or_none (some d) = refl

or_first_assoc :
    (found : Option EventType) (test : Bool) (def : EventType) (rest : Option EventType)
    → or_first (or_first found (if test then some def else none)) rest
      ≡ or_first found (if test then some def else rest)
or_first_assoc none true def rest = refl
or_first_assoc none false def rest = refl
or_first_assoc (some d) test def rest = refl

get-register_new :
    (def : EventType) (kind : String) (registry : Registry)
    → get kind (register_new def registry)
      ≡ or_first (get kind registry) (if str_eq def.kind kind then some def else none)
unfolding register_new
get-register_new def kind registry = elim (Option-cases (get def.kind registry)) [
  | inl e ↦ elim (Bool-cases (str_eq def.kind kind)) [
    | inl same ↦
        (let at : get kind registry ≡ none = rw (sym ((eq_iff def.kind kind).0 same)) e in
          rw (e, register_new) (get-put def.kind kind def registry ∙ rw (same, at) refl))
    | inr other ↦
        rw (e, register_new)
          (get-put def.kind kind def registry ∙ rw other (or_none (get kind registry)))
  ]
  | inr (old, e) ↦ elim (Bool-cases (str_eq def.kind kind)) [
    | inl same ↦
        (let at : get kind registry ≡ some old = rw (sym ((eq_iff def.kind kind).0 same)) e in
          rw (e, register_new) rw at refl)
    | inr other ↦ rw (e, register_new, other) (or_none (get kind registry))
  ]
]

get-register_all :
    (defs : List EventType) (kind : String) (registry : Registry)
    → get kind (register_all defs registry) ≡ or_first (get kind registry) (first_of kind defs)
unfolding register_all first_of
get-register_all [] kind registry = or_none (get kind registry)
get-register_all (def ∷ defs) kind registry =
    get-register_all defs kind (register_new def registry)
    ∙ rw (get-register_new def kind registry)
        (or_first_assoc (get kind registry) (str_eq def.kind kind) def (first_of kind defs))

abbrev IsThere : Registry → EventType → Type 0
IsThere registry def = (old : EventType) × (get def.kind registry ≡ some old)

or_first-some :
    (found : Option EventType) (def : EventType)
    → (d : EventType) × (or_first found (some def) ≡ some d)
or_first-some none def = (def, refl)
or_first-some (some d) def = (d, refl)

register_all-IsThere :
    (defs : List EventType) (registry : Registry) → All (IsThere (register_all defs registry)) defs
unfolding register_all first_of
register_all-IsThere [] registry = tt
register_all-IsThere (def ∷ defs) registry =
    let (d, e) = or_first-some (get def.kind registry) def in
    (
      (
        d,
        get-register_all (def ∷ defs) def.kind registry ∙ rw ((eq_iff def.kind def.kind).1 refl) e,
      ),
      register_all-IsThere defs (register_new def registry),
    )

register_all_there :
    (defs : List EventType) (registry : Registry)
    → All (IsThere registry) defs
    → register_all defs registry ≡ registry
unfolding register_all
register_all_there [] registry there = refl
register_all_there (def ∷ defs) registry ((old, e), there) =
    ap (register_all defs) (rw (e, register_new) refl) ∙ register_all_there defs registry there

-- After the catalog has been registered, a type is what it was registered as before, and otherwise
-- what the catalog says of it; and registering the catalog once more changes nothing.
pub get_event_type-register_event_catalog :
    (kind : String) (registry : Registry)
    → (get_event_type kind (register_event_catalog registry)
        ≡ or_first (get_event_type kind registry) (first_of kind event_catalog))
      × (register_event_catalog (register_event_catalog registry) ≡ register_event_catalog registry)
unfolding get_event_type register_event_catalog
get_event_type-register_event_catalog kind registry = (
  get-register_all event_catalog kind registry,
  register_all_there event_catalog (register_all event_catalog registry)
      (register_all-IsThere event_catalog registry),
)
