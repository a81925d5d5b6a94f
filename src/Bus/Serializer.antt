-- ===== src/Bus/Serializer.antt =====
-- infrastructure/bus/serializer.py. The JSON library is the interface `Json`. What `_Encoder` writes
-- for a UUID is the value `id u`; the payloads have no times in them.
use leaf_flow_chat.Prelude.{String, ◌≡◌, refl, Option, none, some, [], ◌∷◌}
use leaf_flow_chat.Prelude.Dict.{Dict, IsDict, get, string_eq}
use leaf_flow_chat.Domain.{Value, Payload}

-- a member of the objects that are written: a plain value, or a flat object
pub data Member : Type 0 where
  scalar : Value → Member
  object : Payload → Member

abbrev pub Object : Type 0
Object = Dict String Member

abbrev pub IsMember : Member → Type 0
IsMember (scalar v) = Unit
IsMember (object payload) = IsDict payload

-- A Python object has no key twice, and neither have the objects in it.
abbrev pub IsObject : Object → Type 0
IsObject [] = Unit
IsObject ((k, v) ∷ o) = (get k o ≡ none) × IsMember v × IsObject o

pub record Json : Type 1 where
  -- the texts that go through Redis
  pub Raw : Type 0
  -- `json.dumps(o)`
  pub dumps : Object → Raw
  -- `json.loads(raw)`, where the text is that of an object
  pub loads : Raw → Option Object
  pub loads-dumps : (o : Object) → IsObject o → loads (dumps o) ≡ some o

abbrev pub both : Option Member → Option Member → Option (Member × Member)
both (some a) (some b) = some (a, b)
both (some a) none = none
both none b = none

-- `data["event"], data["data"]`
abbrev pub event_and_data : Option Object → Option (Member × Member)
event_and_data none = none
event_and_data (some o) = both (get "event" o) (get "data" o)

module _ ⦃json : Json⦄ where
  unfoldable pub serialize_event : Value → Payload → json.Raw
  serialize_event event_type payload =
      json.dumps (("event", scalar event_type) ∷ ("data", object payload) ∷ [])

  -- without a value where it raises
  unfoldable pub deserialize_event : json.Raw → Option (Member × Member)
  deserialize_event raw = event_and_data (json.loads raw)

  -- What `serialize_event` makes of an event and a payload, `deserialize_event` gives back.
  pub deserialize_event-serialize_event :
      (event_type : Value) (payload : Payload)
      → IsDict payload
      → deserialize_event (serialize_event event_type payload)
        ≡ some (scalar event_type, object payload)
  unfolding deserialize_event serialize_event get
  deserialize_event-serialize_event event_type payload h =
      rw
        (json.loads-dumps (("event", scalar event_type) ∷ ("data", object payload) ∷ [])
          (refl, tt, (refl, h, tt)))
        refl
