-- ===== src/Sql.antt =====
-- The statements that the repositories hand to SQLAlchemy and PostgreSQL, as an interface.
-- A table is the list of its rows in the order in which the server happens to scan them.
-- What is assumed is the documented meaning: which rows a table or a result holds, told by how
-- many of them pass any given test, and the order that ORDER BY asks for.
pub mod Order
pub mod Pages
pub mod Laws
pub mod Rows
use leaf_flow_chat.Prelude.{◌≡◌, Bool, true, List, ◌∷◌, ◌&&◌, if◌then◌else◌, count_p}
use leaf_flow_chat.Sql.Order.{IsLinear, IsSorted}

pub record Sql : Type 1 where
  -- INSERT of one row
  pub insert : {A : Type 0} → A → List A → List A
  -- UPDATE … SET … WHERE …
  pub update : {A : Type 0} → (A → Bool) → (A → A) → List A → List A
  -- SELECT … WHERE … ORDER BY …
  pub select : {A : Type 0} → (A → Bool) → (A → A → Bool) → List A → List A
  pub count_p-insert :
      {A : Type 0} (p : A → Bool) (r : A) (t : List A) → count_p p (insert r t) ≡ count_p p (r ∷ t)
  pub count_p-update :
      {A : Type 0} (p w : A → Bool) (f : A → A) (t : List A)
      → count_p p (update w f t) ≡ count_p (λ r. p (if w r then f r else r)) t
  pub count_p-select :
      {A : Type 0} (p w : A → Bool) (le : A → A → Bool) (t : List A)
      → count_p p (select w le t) ≡ count_p (λ r. w r && p r) t
  pub IsSorted-select :
      {A : Type 0} (w : A → Bool) (le : A → A → Bool) (t : List A)
      → IsLinear le
      → IsSorted le (select w le t)

-- no ORDER BY
abbrev pub unordered : {A : Type 0} → A → A → Bool
unordered _ _ = true
