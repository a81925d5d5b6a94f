-- ===== src/Sql/Rows.antt =====
-- A server that meets the interface: it appends, maps, filters, and sorts by insertion.
use leaf_flow_chat.Prelude.{
  ◌≡◌, refl, ◌∙◌, Bool, true, ◌&&◌, List, [], ◌∷◌, ◌++◌, map, arith, All, if◌then◌else◌, count_p,
  count_p-append, count_p-filter, filter,
}
use leaf_flow_chat.Sql.{Sql}
use leaf_flow_chat.Sql.Order.{IsLinear, IsSorted}

module _ {A : Type 0} (le : A → A → Bool) where
  unfoldable pub insert_sorted : A → List A → List A
  insert_sorted x [] = x ∷ []
  insert_sorted x (y ∷ ys) =
      let rest = insert_sorted x ys in if le x y then x ∷ y ∷ ys else y ∷ rest

  unfoldable pub order_by : List A → List A
  unfolding insert_sorted
  order_by [] = []
  order_by (x ∷ xs) = insert_sorted x (order_by xs)

  count_p-insert_sorted :
      (p : A → Bool) (x : A) (ys : List A) → count_p p (insert_sorted x ys) ≡ count_p p (x ∷ ys)
  unfolding insert_sorted
  count_p-insert_sorted p x [] = refl
  count_p-insert_sorted p x (y ∷ ys) = ground (arith, count_p-insert_sorted p x ys)

  count_p-order_by : (p : A → Bool) (xs : List A) → count_p p (order_by xs) ≡ count_p p xs
  unfolding order_by
  count_p-order_by p [] = refl
  count_p-order_by p (x ∷ xs) =
      ground (arith, count_p-insert_sorted p x (order_by xs), count_p-order_by p xs)

  All-insert_sorted :
      (z x : A) (ys : List A)
      → le z x ≡ true
      → All (λ y. le z y ≡ true) ys
      → All (λ y. le z y ≡ true) (insert_sorted x ys)
  unfolding insert_sorted
  All-insert_sorted z x [] h hs = (h, tt)
  All-insert_sorted z x (y ∷ ys) h hs = ground (arith, All-insert_sorted z x ys h hs.1)

  All-trans :
      (lin : IsLinear le) (x y : A) (ys : List A)
      → le x y ≡ true
      → All (λ z. le y z ≡ true) ys
      → All (λ z. le x z ≡ true) ys
  All-trans lin x y [] h hs = tt
  All-trans lin x y (z ∷ ys) h hs = (lin.trans x y z h hs.0, All-trans lin x y ys h hs.1)

  insert_sorted-IsSorted :
      (lin : IsLinear le) (x : A) (ys : List A) → IsSorted le ys → IsSorted le (insert_sorted x ys)
  unfolding insert_sorted
  insert_sorted-IsSorted lin x [] s = (tt, tt)
  insert_sorted-IsSorted lin x (y ∷ ys) s = ground (
    arith,
    lin.total x y,
    All-trans lin x y ys,
    All-insert_sorted y x ys,
    insert_sorted-IsSorted lin x ys s.1,
  )

  order_by-IsSorted : (lin : IsLinear le) (xs : List A) → IsSorted le (order_by xs)
  unfolding order_by
  order_by-IsSorted lin [] = tt
  order_by-IsSorted lin (x ∷ xs) =
      insert_sorted-IsSorted lin x (order_by xs) (order_by-IsSorted lin xs)

module _ {A : Type 0} where
  pub count_p-map :
      (p : A → Bool) (f : A → A) (t : List A) → count_p p (map f t) ≡ count_p (λ r. p (f r)) t
  count_p-map p f [] = refl
  count_p-map p f (x ∷ xs) = ground (arith, count_p-map p f xs)

  pub insert_law : (p : A → Bool) (r : A) (t : List A) → count_p p (t ++ r ∷ []) ≡ count_p p (r ∷ t)
  insert_law p r t = ground (arith, count_p-append p t (r ∷ []))

unfoldable pub select_rows : {A : Type 0} → (A → Bool) → (A → A → Bool) → List A → List A
unfolding order_by
select_rows w le t = order_by le (filter w t)

pub select_law :
    {A : Type 0} (p w : A → Bool) (le : A → A → Bool) (t : List A)
    → count_p p (select_rows w le t) ≡ count_p (λ r. w r && p r) t
unfolding select_rows
select_law p w le t = count_p-order_by le p (filter w t) ∙ count_p-filter p w t

pub select-IsSorted :
    {A : Type 0} (w : A → Bool) (le : A → A → Bool) (t : List A)
    → IsLinear le
    → IsSorted le (select_rows w le t)
unfolding select_rows
select-IsSorted w le t lin = order_by-IsSorted le lin (filter w t)

instance abbrev pub rows : Sql
rows = record {
  insert = λ r t. t ++ r ∷ [];
  update = λ w f. map (λ r. if w r then f r else r);
  select = λ w le. select_rows w le;
  count_p-insert = insert_law;
  count_p-update = λ p w f t. count_p-map p (λ r. if w r then f r else r) t;
  count_p-select = select_law;
  IsSorted-select = select-IsSorted;
}
