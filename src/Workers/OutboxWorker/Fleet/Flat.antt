-- ===== src/Workers/OutboxWorker/Fleet/Flat.antt =====
-- The rows of several batches.
use leaf_flow_chat.Prelude.{
  ◌+◌, ◌≡◌, Bool, List, [], ◌∷◌, ◌++◌, arith, All, count_p, count_p-append,
}
use leaf_flow_chat.Workers.OutboxWorker.Fleet.{flat}

module _ {A : Type 0} (P : A → Type 0) where
  pub All-append : (xs ys : List A) → All P xs → All P ys → All P (xs ++ ys)
  All-append [] ys hx hy = hy
  All-append (x ∷ xs) ys hx hy = (hx.0, All-append xs ys hx.1 hy)

  All-left : (xs ys : List A) → All P (xs ++ ys) → All P xs
  All-left [] ys h = tt
  All-left (x ∷ xs) ys h = (h.0, All-left xs ys h.1)

  All-right : (xs ys : List A) → All P (xs ++ ys) → All P ys
  All-right [] ys h = h
  All-right (x ∷ xs) ys h = All-right xs ys h.1

  -- the batch in the middle, and the others
  pub All-middle :
      (before after : List (List A)) (xs : List A)
      → All P (flat (before ++ xs ∷ after))
      → All P xs × All P (flat (before ++ after))
  All-middle [] after xs h = (All-left xs (flat after) h, All-right xs (flat after) h)
  All-middle (b ∷ before) after xs h =
      let (mine, rest) = All-middle before after xs (All-right b (flat (before ++ xs ∷ after)) h) in
      (
        mine,
        All-append b (flat (before ++ after)) (All-left b (flat (before ++ xs ∷ after)) h) rest,
      )

pub count_p-middle :
    {A : Type 0} (p : A → Bool) (before after : List (List A)) (xs : List A)
    → count_p p (flat (before ++ xs ∷ after)) ≡ count_p p xs + count_p p (flat (before ++ after))
count_p-middle p [] after xs = count_p-append p xs (flat after)
count_p-middle p (b ∷ before) after xs = omega (
  arith,
  count_p-append p b (flat (before ++ xs ∷ after)),
  count_p-append p b (flat (before ++ after)),
  count_p-middle p before after xs,
)
