-- ===== src/Ws/SetLoop.antt =====
-- Python's `for` over a set that other tasks can change while the body of the loop waits.
use leaf_flow_chat.Prelude.{
  ℕ, zero, suc, ◌≡◌, refl, ap, ◌∙◌, sym, Option, none, some, List, [], ◌∷◌, ◌++◌, arith, length,
  All, ◌==◌, ==_refl, false, if◌then◌else◌, get_elem?, get_elem?-append, length-append,
  append_assoc,
}

-- What the iterator of a set yields after `n` elements, from the elements when the loop began and
-- those now. An unchanged set is met in its order; what Python yields from a changed set of the
-- same size is left open.
pub record SetIterator (A : Type 0) : Type 0 where
  pub item : List A → List A → ℕ → Option A
  pub item-unchanged : (xs : List A) (n : ℕ) → item xs xs n ≡ get_elem? xs n

-- How a loop ended: by its end, or by "Set changed size during iteration".
pub data Ending : Type 0 where
  returned : Ending
  runtime_error : Ending

-- what follows, where nothing was raised
abbrev pub and_then : {S : Type 0} → Ending × S → (S → Ending × S) → Ending × S
and_then (returned, s) f = f s
and_then (runtime_error, s) f = (runtime_error, s)

abbrev pub on_item : {A S : Type 0} → Option A → Ending × S → (A → Ending × S) → Ending × S
on_item none stop f = stop
on_item (some a) stop f = f a

module _ {A S : Type 0} (iterator : SetIterator A) (now : S → List A) (body : A → S → Ending × S)
    (start : List A) where
  -- The size of the set is compared before each element, and once more at the end.
  abbrev pub if_same_size : S → Ending × S → Ending × S
  if_same_size s next = if length (now s) == length start then next else (runtime_error, s)

  -- the rest of the loop after `n` elements, with at most so many to come
  unfoldable pub for_each : ℕ → ℕ → S → Ending × S
  for_each n zero s = if_same_size s (returned, s)
  for_each n (suc rest) s =
      let round = λ (a : A). and_then (body a s) (λ s'. for_each (suc n) rest s') in
      if_same_size s (on_item (iterator.item start (now s) n) (returned, s) round)

  -- the bodies one after the other
  unfoldable pub each : List A → S → S
  each [] s = s
  each (a ∷ xs) s = each xs (body a s).1

pub and_then_returned :
    {S : Type 0} (r : Ending × S) (f : S → Ending × S) → r.0 ≡ returned → and_then r f ≡ f r.1
and_then_returned (returned, s) f h = refl
and_then_returned (runtime_error, s) f h = absurd (cc h)

module _ {A S : Type 0} (iterator : SetIterator A) (now : S → List A) (body : A → S → Ending × S)
    (start : List A) (P : S → Type 0) (Q : A → Type 0) (unchanged : (s : S) → P s → now s ≡ start)
    (keeps : (a : A) (s : S) → Q a → P s → ((body a s).0 ≡ returned) × P (body a s).1) where
  -- While the set stays as it was, the loop runs its body for each element.
  for_each_rest :
      (done xs : List A) (s : S)
      → start ≡ done ++ xs
      → All Q xs
      → P s
      → (for_each iterator now body start (length done) (length xs) s
          ≡ (returned, each iterator now body start xs s))
        × P (each iterator now body start xs s)
  unfolding for_each each
  for_each_rest done [] s e q p = (rw (unchanged s p) (rw (==_refl (length start)) refl), p)
  for_each_rest done (a ∷ xs) s e q p =
      let (fine, p') = keeps a s q.0 p in
      let ih =
        for_each_rest (done ++ a ∷ []) xs (body a s).1 (e ∙ sym (append_assoc done (a ∷ []) xs)) q.1
          p' in
      (
        rw (unchanged s p) (
            rw (==_refl (length start)) (
              rw (iterator.item-unchanged start (length done)) (
                rw (ap (λ l. get_elem? l (length done)) e ∙ get_elem?-append done xs a) (
                  and_then_returned (body a s) _ fine
                  ∙ ap (λ n. for_each iterator now body start n (length xs) (body a s).1)
                      (omega (arith, length-append done (a ∷ [])))
                  ∙ ih.0)))),
        ih.1,
      )

  pub for_each_unchanged :
      (s : S)
      → All Q start
      → P s
      → (for_each iterator now body start 0 (length start) s
          ≡ (returned, each iterator now body start start s))
        × P (each iterator now body start start s)
  for_each_unchanged s q p = for_each_rest [] start s refl q p

module _ {A S : Type 0} (iterator : SetIterator A) (now : S → List A) (body : A → S → Ending × S)
    (start : List A) where
  pub for_each_changed :
      (n rest : ℕ) (s : S)
      → (length (now s) == length start) ≡ false
      → for_each iterator now body start n rest s ≡ (runtime_error, s)
  unfolding for_each
  for_each_changed n zero s changed = rw changed refl
  for_each_changed n (suc rest) s changed = rw changed refl

  -- the first round, in which nothing is raised
  pub for_each_first :
      (a : A) (xs : List A) (s : S)
      → start ≡ a ∷ xs
      → now s ≡ start
      → (body a s).0 ≡ returned
      → for_each iterator now body start 0 (length start) s
        ≡ for_each iterator now body start 1 (length xs) (body a s).1
  unfolding for_each
  for_each_first a xs s e same fine =
      ap (λ l. for_each iterator now body start 0 (length l) s) e
      ∙ rw same (
          rw (==_refl (length start)) (
            rw (iterator.item-unchanged start 0)
              (rw (ap (λ l. get_elem? l 0) e) (and_then_returned (body a s) _ fine))))
