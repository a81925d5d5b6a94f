-- ===== src/Prelude/Dict.antt =====
-- Python's `dict` as the list of its entries in insertion order, and its `set` as the list of the
-- elements in the order in which a loop meets them.
use mathlib.Core.Option
use mathlib.Core.Path.{◌≡◌, refl}
use mathlib.Core.Logic.{◌↔◌}
use mathlib.Core.Bool.{Bool, true, false, not, ◌&&◌, ◌||◌}
use mathlib.Core.Option.{Option, none, some}
use mathlib.Core.List.{List, [], ◌∷◌, ◌++◌}
use Prim.Native.Nat.{ℕ}
use Prim.Native.String.{String}
use native.Mathlib.Omega.{arith}
use text.Mathlib.Text.{◌==◌ as str_eq}
use text.Mathlib.TextEquality.{eq_iff}
use leaf_flow_chat.Prelude.Tests.{◌==◌, ==_iff, if◌then◌else◌}

-- Python's `==` on keys and elements
pub record Eq (A : Type 0) : Type 0 where
  pub beq : A → A → Bool
  pub beq_iff : (a b : A) → (beq a b ≡ true) ↔ (a ≡ b)

instance abbrev pub nat_eq : Eq ℕ
nat_eq = record { beq = ◌==◌; beq_iff = ==_iff }

instance abbrev pub string_eq : Eq String
string_eq = record { beq = str_eq; beq_iff = eq_iff }

abbrev pub Dict : Type 0 → Type 0 → Type 0
Dict K V = List (K × V)

module _ {K V : Type 0} ⦃e : Eq K⦄ where
  -- `d.get(k)`
  unfoldable pub get : K → Dict K V → Option V
  get k [] = none
  get k ((j, v) ∷ d) = if e.beq j k then some v else get k d

  -- `d[k] = v`
  unfoldable pub put : K → V → Dict K V → Dict K V
  put k v [] = (k, v) ∷ []
  put k v ((j, w) ∷ d) = if e.beq j k then (j, v) ∷ d else (j, w) ∷ put k v d

  -- `del d[k]`; a real dict has at most one entry of the key
  pub remove : K → Dict K V → Dict K V
  remove k [] = []
  remove k ((j, w) ∷ d) = let rest = remove k d in if e.beq j k then rest else (j, w) ∷ rest

  -- a change of every value
  pub map_values : (V → V) → Dict K V → Dict K V
  map_values f [] = []
  map_values f ((j, w) ∷ d) = (j, f w) ∷ map_values f d

  pub get-put :
      (k j : K) (v : V) (d : Dict K V) → get j (put k v d) ≡ (if e.beq k j then some v else get j d)
  unfolding get put
  get-put k j v [] = refl
  get-put k j v ((i, w) ∷ d) =
      ground (arith, e.beq_iff k j, e.beq_iff i k, e.beq_iff i j, get-put k j v d)

  pub get-remove :
      (k j : K) (d : Dict K V) → get j (remove k d) ≡ (if e.beq k j then none else get j d)
  unfolding get remove
  get-remove k j [] = ground arith
  get-remove k j ((i, w) ∷ d) =
      ground (arith, e.beq_iff k j, e.beq_iff i k, e.beq_iff i j, get-remove k j d)

  pub get-map_values :
      (f : V → V) (j : K) (d : Dict K V) → get j (map_values f d) ≡ Option.map f (get j d)
  unfolding get map_values
  get-map_values f j [] = refl
  get-map_values f j ((i, w) ∷ d) = ground (arith, get-map_values f j d)

  -- No key occurs twice.
  abbrev pub IsDict : Dict K V → Type 0
  IsDict [] = Unit
  IsDict ((k, v) ∷ d) = (get k d ≡ none) × IsDict d

  pub IsDict-put : (k : K) (v : V) (d : Dict K V) → IsDict d → IsDict (put k v d)
  unfolding get put
  IsDict-put k v [] h = (refl, tt)
  IsDict-put k v ((j, w) ∷ d) h =
      ground (arith, e.beq_iff j k, e.beq_iff k j, get-put k j v d, IsDict-put k v d h.1, h.0)

module _ {A : Type 0} ⦃e : Eq A⦄ where
  -- `a in s`
  abbrev pub contains : List A → A → Bool
  contains [] a = false
  contains (x ∷ xs) a = e.beq x a || contains xs a

  -- `s.add(a)`
  unfoldable pub add : A → List A → List A
  add a xs = if contains xs a then xs else xs ++ a ∷ []

  -- `s.discard(a)`
  pub discard : A → List A → List A
  discard a [] = []
  discard a (x ∷ xs) = let rest = discard a xs in if e.beq x a then rest else x ∷ rest

  contains-append :
      (xs : List A) (a b : A) → contains (xs ++ a ∷ []) b ≡ (contains xs b || e.beq a b)
  contains-append [] a b = ground arith
  contains-append (x ∷ xs) a b = ground (arith, contains-append xs a b)

  contains_eq : (xs : List A) (a b : A) → e.beq a b ≡ true → contains xs a ≡ contains xs b
  contains_eq [] a b h = refl
  contains_eq (x ∷ xs) a b h =
      ground (arith, contains_eq xs a b h, e.beq_iff a b, e.beq_iff x a, e.beq_iff x b)

  pub contains-add : (a b : A) (xs : List A) → contains (add a xs) b ≡ (e.beq a b || contains xs b)
  unfolding add
  contains-add a b xs = ground (arith, contains-append xs a b, contains_eq xs a b)

  pub contains-discard :
      (a b : A) (xs : List A) → contains (discard a xs) b ≡ (contains xs b && not (e.beq a b))
  unfolding discard
  contains-discard a b [] = refl
  contains-discard a b (x ∷ xs) =
      ground (arith, contains-discard a b xs, e.beq_iff a b, e.beq_iff x a, e.beq_iff x b)

  pub discard-absent : (a : A) (xs : List A) → contains xs a ≡ false → discard a xs ≡ xs
  unfolding discard
  discard-absent a [] h = refl
  discard-absent a (x ∷ xs) h = ground (arith, discard-absent a xs)
