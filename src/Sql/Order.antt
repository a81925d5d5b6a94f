-- ===== src/Sql/Order.antt =====
-- What ORDER BY promises: rows in a total, transitive order come out sorted.
use leaf_flow_chat.Prelude.{◌≡◌, ◌⊎◌, Bool, true, List, [], ◌∷◌, All}

pub record IsLinear {A : Type 0} (le : A → A → Bool) : Type 0 where
  pub total : (x y : A) → (le x y ≡ true) ⊎ (le y x ≡ true)
  pub trans : (x y z : A) → le x y ≡ true → le y z ≡ true → le x z ≡ true

-- Every element stands before all later ones.
abbrev pub IsSorted : {A : Type 0} → (A → A → Bool) → List A → Type 0
IsSorted le [] = Unit
IsSorted le (x ∷ xs) = All (λ y. le x y ≡ true) xs × IsSorted le xs
