-- ===== src/Prelude/Lists.antt =====
-- Lists measured by native numbers: lengths, prefixes, and the number of elements that pass a test.
use Prim.Native.Nat.{ℕ, zero, suc, ◌+◌, ◌≤◌}
use mathlib.Core.Path.{◌≡◌, refl, ap}
use mathlib.Core.Bool.{Bool, true, false, ◌&&◌, ◌||◌, not}
use mathlib.Core.List.{List, [], ◌∷◌, ◌++◌}
use mathlib.Core.Option.{Option, none, some}
use native.Mathlib.Omega.{arith}
use leaf_flow_chat.Prelude.Tests.{ltb, if◌then◌else◌}

module _ {ℓ} {A : Type ℓ} where
  abbrev pub length : List A → ℕ
  length [] = 0
  length (x ∷ xs) = suc (length xs)

  abbrev pub take : ℕ → List A → List A
  take zero xs = []
  take (suc n) [] = []
  take (suc n) (x ∷ xs) = x ∷ take n xs

  abbrev pub replicate : ℕ → A → List A
  replicate zero x = []
  replicate (suc n) x = x ∷ replicate n x

  abbrev pub drop : ℕ → List A → List A
  drop zero xs = xs
  drop (suc n) [] = []
  drop (suc n) (x ∷ xs) = drop n xs

  abbrev pub get_elem? : List A → ℕ → Option A
  get_elem? [] i = none
  get_elem? (x ∷ xs) zero = some x
  get_elem? (x ∷ xs) (suc i) = get_elem? xs i

  abbrev pub head? : List A → Option A
  head? [] = none
  head? (x ∷ xs) = some x

  abbrev pub filter : (A → Bool) → List A → List A
  filter p [] = []
  filter p (x ∷ xs) = let rest = filter p xs in if p x then x ∷ rest else rest

  abbrev pub count_p : (A → Bool) → List A → ℕ
  count_p p [] = 0
  count_p p (x ∷ xs) = (if p x then 1 else 0) + count_p p xs

  abbrev pub any : (A → Bool) → List A → Bool
  any p [] = false
  any p (x ∷ xs) = p x || any p xs

  abbrev pub All {κ} : (A → Type κ) → List A → Type κ
  All P [] = Unit
  All P (x ∷ xs) = P x × All P xs

module _ {ℓ} {A : Type ℓ} where
  pub count_p-append :
      (p : A → Bool) (xs ys : List A) → count_p p (xs ++ ys) ≡ count_p p xs + count_p p ys
  count_p-append p [] ys = omega arith
  count_p-append p (x ∷ xs) ys = ground (arith, count_p-append p xs ys)

  pub count_p-filter :
      (p w : A → Bool) (xs : List A) → count_p p (filter w xs) ≡ count_p (λ r. w r && p r) xs
  count_p-filter p w [] = refl
  count_p-filter p w (x ∷ xs) = ground (arith, count_p-filter p w xs)

  -- A test that passes less often counts less.
  pub count_p_mono :
      (p q : A → Bool) (xs : List A)
      → ((x : A) → p x ≡ true → q x ≡ true)
      → count_p p xs ≤ count_p q xs
  count_p_mono p q [] h = omega arith
  count_p_mono p q (x ∷ xs) h = ground (arith, h x, count_p_mono p q xs h)

  pub count_p_congr :
      (p q : A → Bool) (xs : List A) → ((x : A) → p x ≡ q x) → count_p p xs ≡ count_p q xs
  count_p_congr p q [] h = refl
  count_p_congr p q (x ∷ xs) h = ground (arith, h x, count_p_congr p q xs h)

  -- Those that pass `p` either pass `q` too or do not.
  pub count_p_split :
      (p q : A → Bool) (xs : List A)
      → count_p p xs ≡ count_p (λ x. p x && q x) xs + count_p (λ x. p x && not (q x)) xs
  count_p_split p q [] = omega arith
  count_p_split p q (x ∷ xs) = ground (arith, count_p_split p q xs)

  pub count_p-or-le :
      (p q : A → Bool) (xs : List A) → count_p (λ x. p x || q x) xs ≤ count_p p xs + count_p q xs
  count_p-or-le p q [] = omega arith
  count_p-or-le p q (x ∷ xs) = ground (arith, count_p-or-le p q xs)

  pub count_p-false : (p : A → Bool) (xs : List A) → ((x : A) → p x ≡ false) → count_p p xs ≡ 0
  count_p-false p [] h = refl
  count_p-false p (x ∷ xs) h = ground (arith, h x, count_p-false p xs h)

  pub count_p-take-le : (p : A → Bool) (n : ℕ) (xs : List A) → count_p p (take n xs) ≤ count_p p xs
  count_p-take-le p zero xs = omega arith
  count_p-take-le p (suc n) [] = omega arith
  count_p-take-le p (suc n) (x ∷ xs) = ground (arith, count_p-take-le p n xs)

  -- A list that fits is its own prefix.
  pub take-all : (n : ℕ) (xs : List A) → count_p (λ _. true) xs ≤ n → take n xs ≡ xs
  take-all zero [] h = refl
  take-all zero (x ∷ xs) h = absurd (omega (arith, h))
  take-all (suc n) [] h = refl
  take-all (suc n) (x ∷ xs) h = ap (λ ys. x ∷ ys) (take-all n xs (omega (arith, h)))

  pub All-count_p : (p : A → Bool) (xs : List A) → count_p p xs ≡ 0 → All (λ x. p x ≡ false) xs
  All-count_p p [] h = tt
  All-count_p p (x ∷ xs) h = ground (arith, All-count_p p xs)

  pub any-count_p : (p : A → Bool) (xs : List A) → any p xs ≡ ltb 0 (count_p p xs)
  any-count_p p [] = refl
  any-count_p p (x ∷ xs) = ground (arith, any-count_p p xs)

  pub get_elem?-append : (xs ys : List A) (y : A) → get_elem? (xs ++ y ∷ ys) (length xs) ≡ some y
  get_elem?-append [] ys y = refl
  get_elem?-append (x ∷ xs) ys y = get_elem?-append xs ys y

  pub length-append : (xs ys : List A) → length (xs ++ ys) ≡ length xs + length ys
  length-append [] ys = omega arith
  length-append (x ∷ xs) ys = omega (arith, length-append xs ys)
