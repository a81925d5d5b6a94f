-- ===== src/Sql/Pages.antt =====
-- Pages of sorted rows: a page is a prefix, and a condition on its last row finds the rows after it,
-- but for rows that no condition finds (`skip`).
use leaf_flow_chat.Prelude.{
  ℕ, suc, zero, ◌+◌, ◌≡◌, Bool, true, false, not, ◌&&◌, Option, none, some, List, [], ◌∷◌, arith,
  All, count_p, take, ◌≤◌, ◌==◌, All-count_p, count_p-false, count_p_mono, count_p_congr, sym, ap,
  ◌∙◌, subst,
}
use leaf_flow_chat.Sql.{Sql}
use leaf_flow_chat.Sql.Order.{IsLinear, IsSorted}

-- the last of a row and those that follow it
abbrev pub last {ℓ} : {A : Type ℓ} → A → List A → A
last m [] = m
last m (x ∷ xs) = last x xs

abbrev pub last_row {ℓ} : {A : Type ℓ} → List A → Option A
last_row [] = none
last_row (x ∷ xs) = some (last x xs)

pub All-last {ℓ} :
    {A : Type ℓ} (P : A → Type 0) (n : ℕ) (x : A) (xs : List A)
    → P x
    → All P xs
    → P (last x (take n xs))
All-last P zero x xs h hs = h
All-last P (suc n) x [] h hs = h
All-last P (suc n) x (y ∷ ys) h hs = All-last P n y ys hs.0 hs.1

-- No row has a twin after it.
abbrev pub IsSpread : {A : Type 0} → (A → A → Bool) → List A → Type 0
IsSpread twin [] = Unit
IsSpread twin (x ∷ xs) = (count_p (twin x) xs ≡ 0) × IsSpread twin xs

-- How the condition `after` on a last row stands to the order `le`.
pub record IsCut {A : Type 0} (le twin after : A → A → Bool) (skip : A → Bool) : Type 0 where
  pub reaches :
      (l m : A)
      → le l m ≡ true
      → twin l m ≡ false
      → skip l ≡ false
      → skip m ≡ false
      → after l m ≡ true
  pub stays_behind : (l m : A) → le m l ≡ true → after l m ≡ false
  pub not_itself : (l : A) → after l l ≡ false
  pub overlooks : (l m : A) → skip m ≡ true → after l m ≡ false
  pub skipped_last : (l m : A) → le m l ≡ true → skip l ≡ false → skip m ≡ false

module _ {A : Type 0} (le twin after : A → A → Bool) (skip : A → Bool)
    (cut : IsCut le twin after skip) (q : A → Bool) where
  -- Of rows that stand after `x` and are no twins of it, all are found from `x` or are skipped.
  count_p-after :
      (x : A) (xs : List A)
      → skip x ≡ false
      → All (λ y. le x y ≡ true) xs
      → count_p (twin x) xs ≡ 0
      → count_p (λ m. after x m && q m) xs + count_p (λ m. skip m && q m) xs ≡ count_p q xs
  count_p-after x [] seen h apart = omega arith
  count_p-after x (y ∷ ys) seen h apart =
      ground (arith, count_p-after x ys seen, h.0, h.1, cut.reaches x y, cut.overlooks x y)

  -- A page, the rows found after its last row, and the skipped rows are all the rows.
  pub count_p-cut :
      (n : ℕ) (x : A) (xs : List A)
      → IsSorted le (x ∷ xs)
      → IsSpread twin (x ∷ xs)
      → skip (last x (take n xs)) ≡ false
      → count_p q (x ∷ take n xs)
          + count_p (λ m. after (last x (take n xs)) m && q m) (x ∷ xs)
          + count_p (λ m. skip m && q m) (x ∷ xs)
        ≡ count_p q (x ∷ xs)
  count_p-cut zero x xs sorted spread seen =
      ground (arith, count_p-after x xs seen sorted.0 spread.0, cut.not_itself x)
  count_p-cut (suc n) x [] sorted spread seen = ground (arith, cut.not_itself x)
  count_p-cut (suc n) x (y ∷ ys) sorted spread seen =
      let before = All-last (λ z. le x z ≡ true) n y ys sorted.0.0 sorted.0.1 in
      ground (
        arith,
        count_p-cut n y ys sorted.1 spread.1 seen,
        cut.stays_behind (last y (take n ys)) x before,
        cut.skipped_last (last y (take n ys)) x before seen,
      )

-- rows with the same key
abbrev pub twins : {A : Type 0} → (A → ℕ) → A → A → Bool
twins key l m = key m == key l

pub IsSpread-once :
    {A : Type 0} (key : A → ℕ) (xs : List A)
    → ((i : ℕ) → count_p (λ m. key m == i) xs ≤ 1)
    → IsSpread (twins key) xs
IsSpread-once key [] once = tt
IsSpread-once key (x ∷ xs) once =
    (ground (arith, once (key x)), IsSpread-once key xs (λ i. omega (arith, once i)))

module _ ⦃sql : Sql⦄ {A : Type 0} (key : A → ℕ) (le after : A → A → Bool) (skip : A → Bool)
    (cut : IsCut le (twins key) after skip) (linear : IsLinear le) (w : A → Bool) (t : List A)
    (once : (i : ℕ) → count_p (λ m. key m == i) t ≤ 1) where
  abbrev selected : List A
  selected = sql.select w le t

  selected_once : (i : ℕ) → count_p (λ m. key m == i) selected ≤ 1
  selected_once i = omega (
    arith,
    once i,
    sql.count_p-select (λ m. key m == i) w le t,
    count_p_mono (λ m. w m && key m == i) (λ m. key m == i) t (λ m h. ground arith),
  )

  none_strays : count_p (λ m. not (w m)) selected ≡ 0
  none_strays =
      sql.count_p-select (λ m. not (w m)) w le t
      ∙ count_p-false (λ m. w m && not (w m)) t (λ m. ground arith)

  -- The rows of a page, those that the next page's condition `w'` leaves, and the skipped ones are
  -- together the rows that the page is taken from.
  pub count_p-page :
      (q : A → Bool) (n : ℕ) (x : A) (xs : List A) (w' : A → Bool)
      → sql.select w le t ≡ x ∷ xs
      → skip (last x (take n xs)) ≡ false
      → (w (last x (take n xs)) ≡ true → (m : A) → w' m ≡ (w m && after (last x (take n xs)) m))
      → count_p q (x ∷ take n xs)
          + count_p q (sql.select w' le t)
          + count_p (λ m. skip m && q m) (sql.select w le t)
        ≡ count_p q (sql.select w le t)
  count_p-page q n x xs w' e seen next =
      let l = last x (take n xs) in
      let strays =
        All-count_p (λ m. not (w m)) (x ∷ xs)
          (ap (count_p (λ m. not (w m))) (sym e) ∙ none_strays) in
      let stray = All-last (λ m. not (w m) ≡ false) n x xs strays.0 strays.1 in
      omega (
        arith,
        count_p-cut le (twins key) after skip cut q n x xs
            (subst (IsSorted le) e (sql.IsSorted-select w le t linear))
            (subst (IsSpread (twins key)) e (IsSpread-once key selected selected_once)) seen,
        sql.count_p-select q w' le t,
        sql.count_p-select (λ m. after l m && q m) w le t,
        ap (count_p (λ m. after l m && q m)) e,
        ap (count_p (λ m. skip m && q m)) e,
        ap (count_p q) e,
        count_p_congr (λ m. w' m && q m) (λ m. w m && (after l m && q m)) t
            (λ m. ground (arith, next (ground (arith, stray)) m)),
      )
