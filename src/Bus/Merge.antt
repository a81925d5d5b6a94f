-- ===== src/Bus/Merge.antt =====
-- `{**a, **b}` as a dictionary.
use leaf_flow_chat.Prelude.{String, ◌≡◌, refl, Option, none, some, [], ◌∷◌, arith, eq_iff}
use leaf_flow_chat.Prelude.Dict.{IsDict, IsDict-put, get, get-put, put, string_eq}
use leaf_flow_chat.Domain.{Value, Payload}
use leaf_flow_chat.Workers.OutboxWorker.{merge}

pub IsDict-merge : (a b : Payload) → IsDict a → IsDict (merge a b)
unfolding merge
IsDict-merge a [] h = h
IsDict-merge a ((k, v) ∷ b) h = IsDict-merge (put k v a) b (IsDict-put k v a h)

abbrev pub or_else : Option Value → Option Value → Option Value
or_else none o = o
or_else (some v) o = some v

-- The second dictionary's entry comes first.
pub get-merge :
    (k : String) (a b : Payload) → IsDict b → get k (merge a b) ≡ or_else (get k b) (get k a)
unfolding merge get
get-merge k a [] h = refl
get-merge k a ((j, v) ∷ b) h =
    ground (arith, get-merge k (put j v a) b h.1, get-put j k v a, h.0, eq_iff j k)
