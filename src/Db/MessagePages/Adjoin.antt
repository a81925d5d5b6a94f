-- ===== src/Db/MessagePages/Adjoin.antt =====
-- The pages of a conversation's messages adjoin: the next page begins after the last row of a page.
use leaf_flow_chat.Prelude.{
  ℕ, suc, zero, ◌+◌, ◌≡◌, ◌≤◌, Bool, true, false, ◌&&◌, Option, none, some, List, [], ◌∷◌, arith,
  count_p, take, count_p-false, refl,
}
use leaf_flow_chat.Domain.{Uuid}
use leaf_flow_chat.Sql.{Sql}
use leaf_flow_chat.Sql.Order.{IsLinear}
use leaf_flow_chat.Sql.Pages.{last, IsCut, twins, count_p-page}
use leaf_flow_chat.Db.Cursor.{Cursor}
use leaf_flow_chat.Db.Constraints.{is_message}
use leaf_flow_chat.Db.Models.{MessageModel}
use leaf_flow_chat.Db.MessagePages.{in_order, on_page, belongs, page}

in_order-IsLinear : IsLinear in_order
in_order-IsLinear = record { total = λ x y. ground arith; trans = λ x y z p q. ground arith }

-- the cursor of a row
abbrev pub cursor_of : MessageModel → Cursor
cursor_of m = (m.created_at, m.id)

-- the cursor of the next page: the last row's, or the same again after an empty page
abbrev pub next : Option Cursor → List MessageModel → Option Cursor
next cursor [] = cursor
next cursor (x ∷ xs) = some (cursor_of (last x xs))

abbrev after : MessageModel → MessageModel → Bool
after l m = on_page (some (cursor_of l)) m

abbrev never : MessageModel → Bool
never m = false

after-IsCut : IsCut in_order (twins (λ m. m.id)) after never
after-IsCut = record {
  reaches = λ l m h apart seen seen'. ground arith;
  stays_behind = λ l m h. ground arith;
  not_itself = λ l. ground arith;
  overlooks = λ l m h. cc h;
  skipped_last = λ l m h seen. refl;
}

module _ ⦃sql : Sql⦄ (c : Uuid) (cursor : Option Cursor) (t : List MessageModel) where
  -- A row after a row of the list is one of the list too.
  later_belongs :
      (l m : MessageModel)
      → belongs c cursor l ≡ true
      → belongs c (some (cursor_of l)) m ≡ (belongs c cursor m && after l m)
  later_belongs l m h = elim cursor [ none ↦ ground arith | some k ↦ ground arith ]

  adjoin_at :
      (p : MessageModel → Bool) (n : ℕ) (ys : List MessageModel)
      → sql.select (belongs c cursor) in_order t ≡ ys
      → ((i : Uuid) → count_p (is_message i) t ≤ 1)
      → count_p p (take n ys)
          + count_p p (sql.select (belongs c (next cursor (take n ys))) in_order t)
        ≡ count_p p (sql.select (belongs c cursor) in_order t)
  adjoin_at p zero ys e once = omega arith
  adjoin_at p (suc n) [] e once = omega arith
  adjoin_at p (suc n) (y ∷ ys) e once = omega (
    arith,
    count_p-page (λ m. m.id) in_order after never after-IsCut in_order-IsLinear (belongs c cursor) t
        once p n y ys (belongs c (some (cursor_of (last y (take n ys))))) e refl
        (λ h m. later_belongs (last y (take n ys)) m h),
    count_p-false (λ m. never m && p m) (sql.select (belongs c cursor) in_order t) (λ m. refl),
  )

  -- A page and the rows that its cursor leaves for later pages are together exactly the rows that
  -- the page's own cursor left: no message is on two pages, and none is left out. (The identifiers
  -- of messages are unique.)
  pub pages_adjoin :
      (p : MessageModel → Bool) (limit : ℕ)
      → ((i : Uuid) → count_p (is_message i) t ≤ 1)
      → let rows = page c cursor limit t in
        count_p p rows + count_p p (sql.select (belongs c (next cursor rows)) in_order t)
        ≡ count_p p (sql.select (belongs c cursor) in_order t)
  pages_adjoin p limit once = adjoin_at p limit (sql.select (belongs c cursor) in_order t) refl once
