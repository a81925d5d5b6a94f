-- ===== src/Sql/Laws.antt =====
-- What the interface says of the row that a condition determines.
use leaf_flow_chat.Prelude.{
  ◌≡◌, refl, ◌∙◌, ◌≤◌, inl, inr, Bool, true, false, not, ◌&&◌, Option, none, some, List, [], ◌∷◌,
  arith, if◌then◌else◌, head?, is_some, ltb, count_p, count_p_mono, count_p_split, count_p_congr,
  count_p-false, Bool-cases, Option-cases, ap,
}
use leaf_flow_chat.Sql.{Sql}

abbrev pub same : {A : Type 0} → Discrete A → A → A → Bool
same dec r x = elim (dec x r) [ yes _ ↦ true | no _ ↦ false ]

pub same_refl : {A : Type 0} (dec : Discrete A) (r : A) → same dec r r ≡ true
same_refl dec r = ground arith

pub same-eq : {A : Type 0} (dec : Discrete A) (r x : A) → same dec r x ≡ true → r ≡ x
same-eq dec r x h = elim (dec r x) [ yes p ↦ p | no p ↦ absurd (ground arith) ]

-- the first row of a result, as `scalar_one_or_none` and `session.get` read it
abbrev pub fetch : {A : Type 0} ⦃sql : Sql⦄ → (A → Bool) → (A → A → Bool) → List A → Option A
fetch ⦃sql⦄ w le t = head? (sql.select w le t)

module _ {A : Type 0} where
  head?-none : (xs : List A) (p : A → Bool) → head? xs ≡ none → count_p p xs ≡ 0
  head?-none [] p h = refl
  head?-none (x ∷ xs) p h = absurd (ground arith)

  head?-some :
      (xs : List A) (p : A → Bool) (r : A) → head? xs ≡ some r → p r ≡ true → 1 ≤ count_p p xs
  head?-some [] p r h e = absurd (ground arith)
  head?-some (x ∷ xs) p r h e = ground arith

module _ {A : Type 0} ⦃sql : Sql⦄ where
  pub fetch-none :
      (w : A → Bool) (le : A → A → Bool) (t : List A) → fetch w le t ≡ none → count_p w t ≡ 0
  fetch-none w le t h = omega (
    arith,
    head?-none (sql.select w le t) w h,
    sql.count_p-select w w le t,
    count_p_congr (λ r. w r && w r) w t (λ x. ground arith),
  )

  -- A row that is found is a row of the table, and meets the condition.
  pub fetch-some :
      (w : A → Bool) (le : A → A → Bool) (t : List A) (r : A) (p : A → Bool)
      → fetch w le t ≡ some r
      → p r ≡ true
      → 1 ≤ count_p (λ x. w x && p x) t
  fetch-some w le t r p h e =
      omega (arith, head?-some (sql.select w le t) p r h e, sql.count_p-select p w le t)

  pub fetch_meets :
      (w : A → Bool) (le : A → A → Bool) (t : List A) (r : A) → fetch w le t ≡ some r → w r ≡ true
  fetch_meets w le t r h = elim (Bool-cases (w r)) [
    | inl e ↦ e
    | inr e ↦ absurd (
        omega (
          arith,
          fetch-some w le t r (λ x. not (w x)) h (ground arith),
          count_p-false (λ x. w x && not (w x)) t (λ x. ground arith),
        ))
  ]

  pub fetch_missing :
      (w : A → Bool) (le : A → A → Bool) (t : List A) → count_p w t ≡ 0 → fetch w le t ≡ none
  fetch_missing w le t h = elim (Option-cases (fetch w le t)) [
    | inl e ↦ e
    | inr (r, e) ↦ absurd (
        omega (
          arith,
          fetch-some w le t r w e (fetch_meets w le t r e),
          count_p_mono (λ x. w x && w x) w t (λ x q. ground arith),
        ))
  ]

  -- A condition finds a row exactly when some row meets it.
  pub is_some-fetch :
      (w : A → Bool) (le : A → A → Bool) (t : List A) → is_some (fetch w le t) ≡ ltb 0 (count_p w t)
  is_some-fetch w le t = elim (Option-cases (fetch w le t)) [
    | inl e ↦ rw e (ground (arith, fetch-none w le t e))
    | inr (r, e) ↦ rw e (
        ground (
          arith,
          fetch-some w le t r (λ _. true) e refl,
          count_p_mono (λ x. w x && true) w t (λ x q. ground arith),
        ))
  ]

  -- Of at most one candidate, a row that is there is the one that is found.
  pub fetch_unique :
      (dec : Discrete A) (w : A → Bool) (le : A → A → Bool) (t : List A) (r : A)
      → count_p w t ≤ 1
      → 1 ≤ count_p (λ x. w x && same dec r x) t
      → fetch w le t ≡ some r
  fetch_unique dec w le t r one there = elim (Option-cases (fetch w le t)) [
    | inl e ↦ absurd (
        omega (
          arith,
          fetch-none w le t e,
          count_p_mono (λ x. w x && same dec r x) w t (λ x q. ground arith),
        ))
    | inr (x, e) ↦ elim (dec r x) [
      | yes p ↦ rw p e
      | no p ↦ absurd (
          omega (
            arith,
            fetch-some w le t x (λ y. not (same dec r y)) e (ground arith),
            count_p_split w (same dec r) t,
          ))
    ]
  ]

  -- Conversely, a row found is in the table.
  pub fetch-counted :
      (dec : Discrete A) (w : A → Bool) (le : A → A → Bool) (t : List A) (r : A)
      → fetch w le t ≡ some r
      → 1 ≤ count_p (λ x. w x && same dec r x) t
  fetch-counted dec w le t r h = fetch-some w le t r (same dec r) h (same_refl dec r)

  pub fetch-insert :
      (dec : Discrete A) (w : A → Bool) (le : A → A → Bool) (t : List A) (r : A)
      → count_p w t ≡ 0
      → w r ≡ true
      → fetch w le (sql.insert r t) ≡ some r
  fetch-insert dec w le t r h e =
      fetch_unique dec w le (sql.insert r t) r (ground (arith, sql.count_p-insert w r t))
        (ground (arith, sql.count_p-insert (λ x. w x && same dec r x) r t, same_refl dec r))

  -- An insertion does not change what is found by a condition that the new row fails.
  pub fetch-insert_other :
      (dec : Discrete A) (w : A → Bool) (le : A → A → Bool) (t : List A) (r : A)
      → count_p w t ≤ 1
      → w r ≡ false
      → fetch w le (sql.insert r t) ≡ fetch w le t
  fetch-insert_other dec w le t r one e = elim (Option-cases (fetch w le t)) [
    | inl missing ↦ rw missing (
        fetch_missing w le (sql.insert r t)
          (ground (arith, sql.count_p-insert w r t, fetch-none w le t missing)))
    | inr (x, found) ↦ rw found (
        fetch_unique dec w le (sql.insert r t) x (ground (arith, sql.count_p-insert w r t)) (
          ground (
            arith,
            sql.count_p-insert (λ y. w y && same dec x y) r t,
            fetch-counted dec w le t x found,
          )))
  ]

  -- An update that does not touch what a test reads does not change how often it passes.
  pub count_p-update_same :
      (p w : A → Bool) (f : A → A) (t : List A)
      → ((x : A) → w x ≡ true → p (f x) ≡ p x)
      → count_p p (sql.update w f t) ≡ count_p p t
  count_p-update_same p w f t h =
      sql.count_p-update p w f t
      ∙ count_p_congr (λ x. p (if w x then f x else x)) p t (λ x. ground (arith, h x))

  -- An update that no candidate of a condition enters or leaves writes the one row that meets it,
  -- if the update's own condition holds of that row.
  pub fetch-update_row :
      (dec : Discrete A) (v w : A → Bool) (f : A → A) (le : A → A → Bool) (t : List A) (r : A)
      → count_p v t ≤ 1
      → ((x : A) → v (f x) ≡ v x)
      → fetch v le t ≡ some r
      → fetch v le (sql.update w f t) ≡ some (if w r then f r else r)
  fetch-update_row dec v w f le t r one keeps h =
      let g : A → A = λ x. if w x then f x else x in
      fetch_unique dec v le (sql.update w f t) (g r)
        (omega (arith, count_p-update_same v w f t (λ x q. keeps x)))
        (omega (
          arith,
          fetch-counted dec v le t r h,
          sql.count_p-update (λ x. v x && same dec (g r) x) w f t,
          count_p_mono (λ x. v x && same dec r x) (λ x. v (g x) && same dec (g r) (g x)) t
              (λ x q. ground (arith, keeps x, ap {B = A} f {x = r} {y = x})),
        ))

  -- An update that keeps its own condition true writes the one row that meets it.
  pub fetch-update :
      (dec : Discrete A) (w : A → Bool) (f : A → A) (le : A → A → Bool) (t : List A) (r : A)
      → count_p w t ≤ 1
      → ((x : A) → w (f x) ≡ w x)
      → fetch w le t ≡ some r
      → fetch w le (sql.update w f t) ≡ some (f r)
  fetch-update dec w f le t r one keeps h =
      fetch-update_row dec w w f le t r one keeps h
      ∙ ap (λ b. some (if b then f r else r)) (fetch_meets w le t r h)

  -- An update leaves alone what is found by a condition that none of its rows meets.
  pub fetch-update_other :
      (dec : Discrete A) (v w : A → Bool) (f : A → A) (le : A → A → Bool) (t : List A)
      → count_p v t ≤ 1
      → ((x : A) → w x ≡ true → (v x ≡ false) × (v (f x) ≡ false))
      → fetch v le (sql.update w f t) ≡ fetch v le t
  fetch-update_other dec v w f le t one apart = elim (Option-cases (fetch v le t)) [
    | inl missing ↦
        rw missing
          (fetch_missing v le (sql.update w f t) (omega (arith, fetch-none v le t missing, kept)))
    | inr (r, found) ↦ rw found (
        fetch_unique dec v le (sql.update w f t) r (omega (arith, kept))
          (omega (arith, kept_row r, fetch-counted dec v le t r found)))
  ]
    where
      kept : count_p v (sql.update w f t) ≡ count_p v t
      kept = count_p-update_same v w f t (λ x q. ground (arith, apart x q))

      kept_row :
          (r : A)
          → count_p (λ x. v x && same dec r x) (sql.update w f t)
            ≡ count_p (λ x. v x && same dec r x) t
      kept_row r =
          count_p-update_same (λ x. v x && same dec r x) w f t (λ x q. ground (arith, apart x q))
