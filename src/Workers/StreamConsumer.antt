-- ===== src/Workers/StreamConsumer.antt =====
-- infrastructure/bus/redis_streams.py: one round of `_consume` over the entries that XREADGROUP
-- returned. XACK is taken to succeed; what it acknowledged is the result. `S` is whatever the callback
-- acts on, a Session for that of the program.
use leaf_flow_chat.Prelude.{
  ℕ, String, ◌≡◌, refl, sym, ap, ◌∙◌, Option, none, some, List, [], ◌∷◌, ◌++◌, map, append_assoc,
  append-nil,
}
use leaf_flow_chat.Prelude.Dict.{get, string_eq}
use leaf_flow_chat.Errors.{Result, ok, err}
use leaf_flow_chat.Workers.LeafEventsConsumer.{Fields}

-- an entry's identifier, by its place in the stream
abbrev pub Entry : Type 0
Entry = ℕ × Fields

-- `fields.get("event_type", "unknown")`
abbrev pub or_unknown : Option String → String
or_unknown none = "unknown"
or_unknown (some event_type) = event_type

abbrev pub event_type_of : Fields → String
event_type_of fields = or_unknown (get "event_type" fields)

-- what is acknowledged after the callback of one entry
abbrev pub acked : {A : Type 0} → ℕ → Result A → List ℕ → List ℕ
acked msg_id (ok a) ids = msg_id ∷ ids
acked msg_id (err e) ids = ids

module _ {S : Type 0} (callback : String → Fields → S → Result (Unit {0}) × S) where
  unfoldable pub consume : List Entry → S → List ℕ × S
  consume [] s = ([], s)
  consume ((msg_id, fields) ∷ rest) s =
      let (r, s') = callback (event_type_of fields) fields s in
      let (ids, end) = consume rest s' in (acked msg_id r ids, end)

acked-append :
    {A : Type 0} (i : ℕ) (r : Result A) (xs ys : List ℕ) → acked i r xs ++ ys ≡ acked i r (xs ++ ys)
acked-append i (ok a) xs ys = refl
acked-append i (err e) xs ys = refl

module _ {S : Type 0} (callback : String → Fields → S → Result (Unit {0}) × S) where
  -- A batch is consumed as its parts are one after the other, whichever entries raised: what the
  -- first part acknowledged stays acknowledged, and the rest is handled from where it left off.
  pub consume-append :
      (xs ys : List Entry) (s : S)
      → let (first, s') = consume callback xs s in
        let (second, end) = consume callback ys s' in
        consume callback (xs ++ ys) s ≡ (first ++ second, end)
  unfolding consume
  consume-append [] ys s = refl
  consume-append ((i, fields) ∷ xs) ys s =
      let (r, s') = callback (event_type_of fields) fields s in
      ap (λ p. (acked i r p.0, p.1)) (consume-append xs ys s')
      ∙ ap (λ ids. (ids, (consume callback ys (consume callback xs s').1).1))
          (sym (
            acked-append i r (consume callback xs s').0
              (consume callback ys (consume callback xs s').1).0))

-- a call of the callback, by its arguments
abbrev pub Call : Type 0
Call = String × Fields

-- the call that an entry is worth
abbrev pub call_of : Entry → Call
call_of e = (event_type_of e.1, e.1)

-- A callback with a record of its calls, in their order: it is made by whoever calls it.
abbrev pub recorded :
    {S : Type 0}
    → (String → Fields → S → Result (Unit {0}) × S)
    → String
    → Fields
    → S × List Call
    → Result (Unit {0}) × (S × List Call)
recorded callback event_type fields (s, calls) =
    let (r, s') = callback event_type fields s in (r, (s', calls ++ (event_type, fields) ∷ []))

module _ {S : Type 0} (callback : String → Fields → S → Result (Unit {0}) × S) where
  -- The callback is called once for each entry, in their order, whatever it raises.
  pub consume-calls :
      (es : List Entry) (s : S) (calls : List Call)
      → (consume (recorded callback) es (s, calls)).1.1 ≡ calls ++ map call_of es
  unfolding consume
  consume-calls [] s calls = sym (append-nil calls)
  consume-calls ((i, fields) ∷ es) s calls =
      let call : Call = (event_type_of fields, fields) in
      let s' = (callback (event_type_of fields) fields s).1 in
      consume-calls es s' (calls ++ call ∷ []) ∙ append_assoc calls (call ∷ []) (map call_of es)
