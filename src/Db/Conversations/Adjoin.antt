-- ===== src/Db/Conversations/Adjoin.antt =====
-- What the pages of conversations have between them: all but the conversations without
-- `last_message_at`, which no cursor finds.
use leaf_flow_chat.Prelude.{
  ℕ, suc, zero, ◌+◌, ◌≡◌, ◌⊎◌, ◌≤◌, ◌==◌, Bool, true, false, not, ◌&&◌, Option, none, some, is_some,
  List, [], ◌∷◌, arith, count_p, take, refl, ◌∙◌, subst, ap,
}
use leaf_flow_chat.Domain.{Uuid, Timestamp}
use leaf_flow_chat.Sql.{Sql}
use leaf_flow_chat.Sql.Order.{IsLinear}
use leaf_flow_chat.Sql.Pages.{last, last_row, IsCut, twins, count_p-page}
use leaf_flow_chat.Db.Cursor.{Cursor, more_recent, is_older}
use leaf_flow_chat.Db.Constraints.{is_conversation}
use leaf_flow_chat.Db.Models.{ConversationModel}
use leaf_flow_chat.Db.Conversations.Pages.{by_activity, on_page, page}

abbrev Key : Type 0
Key = Option Timestamp × Uuid

more_recent-total : (a b : Key) → (more_recent a b ≡ true) ⊎ (more_recent b a ≡ true)
more_recent-total (none, i) (none, j) = ground arith
more_recent-total (none, i) (some t, j) = ground arith
more_recent-total (some s, i) (none, j) = ground arith
more_recent-total (some s, i) (some t, j) = ground arith

more_recent_trans :
    (a b c : Key) → more_recent a b ≡ true → more_recent b c ≡ true → more_recent a c ≡ true
more_recent_trans (none, i) (none, j) (none, k) p q = ground arith
more_recent_trans (none, i) (none, j) (some u, k) p q = absurd (cc q)
more_recent_trans (none, i) (some t, j) (c, k) p q = absurd (cc p)
more_recent_trans (some s, i) (b, j) (none, k) p q = refl
more_recent_trans (some s, i) (none, j) (some u, k) p q = absurd (cc q)
more_recent_trans (some s, i) (some t, j) (some u, k) p q = ground arith

by_activity-IsLinear : IsLinear by_activity
by_activity-IsLinear = record {
  total = λ x y. more_recent-total (x.last_message_at, x.id) (y.last_message_at, y.id);
  trans = λ x y z.
      more_recent_trans (x.last_message_at, x.id) (y.last_message_at, y.id)
        (z.last_message_at, z.id);
}

-- the key of a row is after a last row's key; no row is after a row without a time
abbrev older_than : Key → Key → Bool
older_than (none, i) k = false
older_than (some ts, i) k = is_older (ts, i) k

abbrev after : ConversationModel → ConversationModel → Bool
after l m = older_than (l.last_message_at, l.id) (m.last_message_at, m.id)

abbrev pub is_silent : ConversationModel → Bool
is_silent m = not (is_some m.last_message_at)

reaches :
    (a b : Key)
    → more_recent a b ≡ true
    → (b.1 == a.1) ≡ false
    → is_some a.0 ≡ true
    → is_some b.0 ≡ true
    → older_than a b ≡ true
reaches (none, i) b h apart seen seen' = absurd (cc seen)
reaches (some s, i) (none, j) h apart seen seen' = absurd (cc seen')
reaches (some s, i) (some t, j) h apart seen seen' = ground arith

stays_behind : (a b : Key) → more_recent b a ≡ true → older_than a b ≡ false
stays_behind (none, i) b h = refl
stays_behind (some s, i) (none, j) h = refl
stays_behind (some s, i) (some t, j) h = ground arith

not_itself : (a : Key) → older_than a a ≡ false
not_itself (none, i) = refl
not_itself (some s, i) = ground arith

overlooks : (a b : Key) → is_some b.0 ≡ false → older_than a b ≡ false
overlooks (none, i) b h = refl
overlooks (some s, i) (none, j) h = refl
overlooks (some s, i) (some t, j) h = absurd (cc h)

skipped_last : (a b : Key) → more_recent b a ≡ true → is_some a.0 ≡ true → is_some b.0 ≡ true
skipped_last (none, i) b h seen = absurd (cc seen)
skipped_last (some s, i) (none, j) h seen = absurd (cc h)
skipped_last (some s, i) (some t, j) h seen = refl

after-IsCut : IsCut by_activity (twins (λ m. m.id)) after is_silent
after-IsCut = record {
  reaches = λ l m h apart seen seen'.
      reaches (l.last_message_at, l.id) (m.last_message_at, m.id) h apart (ground (arith, seen))
        (ground (arith, seen'));
  stays_behind = λ l m h. stays_behind (l.last_message_at, l.id) (m.last_message_at, m.id) h;
  not_itself = λ l. not_itself (l.last_message_at, l.id);
  overlooks =
      λ l m h. overlooks (l.last_message_at, l.id) (m.last_message_at, m.id) (ground (arith, h));
  skipped_last = λ l m h seen. ground (
    arith,
    skipped_last (l.last_message_at, l.id) (m.last_message_at, m.id) h (ground (arith, seen)),
  );
}

is_older_trans :
    (k l : Cursor) (b : Key)
    → is_older k (some l.0, l.1) ≡ true
    → is_older l b ≡ true
    → is_older k b ≡ true
is_older_trans k l (none, j) h h' = absurd (cc h')
is_older_trans (u, i) (s, j) (some t, k) h h' = ground arith

-- A conversation after one of the list is one of the list too.
narrows :
    (cursor : Option Cursor) (ts : Timestamp) (l m : ConversationModel)
    → l.last_message_at ≡ some ts
    → on_page cursor l ≡ true
    → on_page (some (ts, l.id)) m ≡ (on_page cursor m && after l m)
narrows none ts l m e h = rw e refl
narrows (some k) ts l m e h = ground (
  arith,
  is_older_trans k (ts, l.id) (m.last_message_at, m.id)
      (subst (λ o. is_older k (o, l.id) ≡ true) e h),
  ap (λ o. older_than (o, l.id) (m.last_message_at, m.id)) e,
)

module _ ⦃sql : Sql⦄ (w : ConversationModel → Bool) (t : List ConversationModel) where
  -- the rows that a cursor leaves for its page and the later ones
  abbrev pub left : Option Cursor → List ConversationModel
  left k = sql.select (λ m. w m && on_page k m) by_activity t

module _ ⦃sql : Sql⦄ (w : ConversationModel → Bool) (cursor : Option Cursor)
    (t : List ConversationModel) (once : (i : Uuid) → count_p (is_conversation i) t ≤ 1)
    (p : ConversationModel → Bool) where
  adjoin_at :
      (n : ℕ) (ys : List ConversationModel) (l : ConversationModel) (ts : Timestamp)
      → left w t cursor ≡ ys
      → last_row (take n ys) ≡ some l
      → l.last_message_at ≡ some ts
      → count_p p (take n ys)
          + count_p p (left w t (some (ts, l.id)))
          + count_p (λ m. is_silent m && p m) (left w t cursor)
        ≡ count_p p (left w t cursor)
  adjoin_at zero ys l ts e e' there = absurd (cc e')
  adjoin_at (suc n) [] l ts e e' there = absurd (cc e')
  adjoin_at (suc n) (y ∷ ys) l ts e e' there =
      let same : last y (take n ys) ≡ l = cc e' in
      let there' : (last y (take n ys)).last_message_at ≡ some ts =
        ap (λ m. m.last_message_at) same ∙ there in
      count_p-page (λ m. m.id) by_activity after is_silent after-IsCut by_activity-IsLinear
        (λ m. w m && on_page cursor m) t once p n y ys (λ m. w m && on_page (some (ts, l.id)) m) e
        (ground (arith, there'))
        (λ h m.
          ground (arith, narrows cursor ts (last y (take n ys)) m there', ap (λ z. z.id) same))

  -- A page whose last row has a last_message_at and the rows that this row's cursor leaves for later pages are
  -- together exactly the rows that the page's own cursor left, but for the conversations without
  -- last_message_at: no conversation is on two pages, and those alone are lost.
  pub pages_lose_silent :
      (limit : ℕ) (l : ConversationModel) (ts : Timestamp)
      → last_row (page w cursor limit t) ≡ some l
      → l.last_message_at ≡ some ts
      → count_p p (page w cursor limit t)
          + count_p p (left w t (some (ts, l.id)))
          + count_p (λ m. is_silent m && p m) (left w t cursor)
        ≡ count_p p (left w t cursor)
  pages_lose_silent limit l ts = adjoin_at limit (left w t cursor) l ts refl
