-- ===== src/Workers/OutboxWorker/Publishes.antt =====
-- What one run of `_process_batch` is sure to publish.
use mathlib.Core.List.{Memᴰ}
use mathlib.Core.List.Memᴰ
use leaf_flow_chat.Prelude.{
  ℕ, ◌+◌, ◌≡◌, ◌≤◌, refl, sym, ap, ◌∙◌, subst, inl, inr, Bool, true, false, ◌&&◌, some, List, [],
  ◌∷◌, Mem, map, arith, any, All, count_p, Bool-cases, All-count_p, any-count_p, take-all,
  count_p_congr, count_p_mono,
}
use leaf_flow_chat.Errors.{ok}
use leaf_flow_chat.Settings.{Settings}
use leaf_flow_chat.Sql.{Sql, unordered}
use leaf_flow_chat.Sql.Laws.{fetch, fetch-some}
use leaf_flow_chat.Db.Models.{OutboxMessageModel}
use leaf_flow_chat.Db.Outbox.{OutboxRecord, to_record, is_fetchable, oldest_first, mark_processing}
use leaf_flow_chat.Db.Session.{Session}
use leaf_flow_chat.Workers.OutboxWorker.{Envelope, envelope, process_fetched, process_batch}
use leaf_flow_chat.Workers.OutboxWorker.Loop.{is_row, is_record, exhausted, published_of, published}
use leaf_flow_chat.Workers.OutboxWorker.Batch.{
  settle, process_fetched-cons, All-records, any-records,
}
use leaf_flow_chat.Workers.OutboxWorker.Outcome.{
  batch_rows, stranger, no_stranger, process_batch_run, process_batch_settles,
}

module _ ⦃sql : Sql⦄ (settings : Settings) (fails : OutboxRecord → Bool) where
  published_of-sent :
      (r : OutboxRecord)
      → exhausted settings fails r ≡ false
      → fails r ≡ false
      → published_of settings fails r ≡ envelope settings r ∷ []
  published_of-sent r fresh works = rw fresh (rw works refl)

  published-Mem :
      (i : ℕ) (r : OutboxRecord) (rs : List OutboxRecord)
      → exhausted settings fails r ≡ false
      → fails r ≡ false
      → any (is_record i) rs ≡ true
      → All (λ q. is_record i q ≡ true → q ≡ r) rs
      → Memᴰ (envelope settings r) (published settings fails rs)
  published-Mem i r [] fresh works there only = absurd (cc there)
  published-Mem i r (q ∷ rest) fresh works there only = elim (Bool-cases (is_record i q)) [
    | inl e ↦ Memᴰ.append_left (published settings fails rest) (
        subst (λ (p : OutboxRecord). Memᴰ (envelope settings r) (published_of settings fails p))
          (sym (only.0 e)) (rw (published_of-sent r fresh works) (Memᴰ.head refl)))
    | inr e ↦
        Memᴰ.append_right (published_of settings fails q)
          (published-Mem i r rest fresh works (ground arith) only.1)
  ]

  fetched-Mem :
      (i : ℕ) (x : OutboxMessageModel) (rows : List OutboxMessageModel) (s : Session)
      → exhausted settings fails (to_record x) ≡ false
      → fails (to_record x) ≡ false
      → any (is_row i) rows ≡ true
      → All (λ r. is_record i r ≡ true → r ≡ to_record x) (map to_record rows)
      → (out : List Envelope) × ((process_fetched settings fails (map to_record rows) s).0 ≡ ok out)
        × Mem (envelope settings (to_record x)) out
  fetched-Mem i x [] s fresh works there only = absurd (cc there)
  fetched-Mem i x (y ∷ rows) s fresh works there only = (
    published settings fails (map to_record (y ∷ rows)),
    ap (λ r. r.0) (process_fetched-cons settings fails (to_record y) (map to_record rows) s),
    ∣ published-Mem i (to_record x) (map to_record (y ∷ rows)) fresh works
        (any-records i (y ∷ rows) ∙ there) only ∣₁,
  )

  pub settle-sent :
      (s : Session) (n : ℕ) (x : OutboxMessageModel)
      → exhausted settings fails (to_record x) ≡ false
      → fails (to_record x) ≡ false
      → settle settings fails s n x ≡ record x { status = "sent"; updated_at = s.server_now }
  settle-sent s n x fresh works = rw fresh (rw works refl)

  -- Where all rows that are due fit into one batch, every such row is fetched.
  pub due-fetched :
      (s : Session) (x : OutboxMessageModel)
      → fetch (is_row x.id) unordered s.working.outbox ≡ some x
      → is_fetchable s.locked (s.clock s.ticks) x ≡ true
      → count_p (is_fetchable s.locked (s.clock s.ticks)) s.working.outbox
        ≤ settings.outbox_batch_size
      → any (is_row x.id) (batch_rows settings fails s) ≡ true
  due-fetched s x row due fits =
      let w = is_fetchable s.locked (s.clock s.ticks) in
      rw
        (take-all settings.outbox_batch_size (sql.select w oldest_first s.working.outbox) (
          omega (
            arith,
            fits,
            sql.count_p-select (λ _. true) w oldest_first s.working.outbox,
            count_p_mono (λ r. w r && true) w s.working.outbox (λ r h. ground arith),
          )))
        (ground (
          arith,
          any-count_p (is_row x.id) (sql.select w oldest_first s.working.outbox),
          sql.count_p-select (is_row x.id) w oldest_first s.working.outbox,
          fetch-some (is_row x.id) unordered s.working.outbox x w row due,
          count_p_congr (λ r. is_row x.id r && w r) (λ r. w r && is_row x.id r) s.working.outbox
              (λ r. ground arith),
        ))

  -- A row that is due, has attempts left and an id of its own, in a run whose batch has room for all
  -- rows that are due: where Redis takes the event, the run returns, it has published the event, and
  -- the committed row is `sent`.
  pub due_row_published :
      (s : Session) (x : OutboxMessageModel)
      → s.committed ≡ s.working
      → count_p (is_row x.id) s.working.outbox ≤ 1
      → fetch (is_row x.id) unordered s.working.outbox ≡ some x
      → is_fetchable s.locked (s.clock s.ticks) x ≡ true
      → count_p (is_fetchable s.locked (s.clock s.ticks)) s.working.outbox
        ≤ settings.outbox_batch_size
      → exhausted settings fails (to_record x) ≡ false
      → fails (to_record x) ≡ false
      → let (r, s') = process_batch settings fails s in
        (out : List Envelope) × (r ≡ ok out)
        × Mem (envelope settings (to_record x)) out
        × (fetch (is_row x.id) unordered s'.committed.outbox
            ≡ some (record x { status = "sent"; updated_at = s.server_now }))
  due_row_published s x begun once row due fits fresh works =
      let there = due-fetched s x row due fits in
      let start = record s { ticks = s.ticks + 1 } in
      let (out, returned, has) =
        fetched-Mem x.id x (batch_rows settings fails s)
          (mark_processing (batch_rows settings fails s) start).1 fresh works there
          (All-records x.id x (batch_rows settings fails s) (
            All-count_p (stranger settings fails s x once row) (batch_rows settings fails s)
              (no_stranger settings fails s x once row))) in
      let (n, settled) = (process_batch_settles settings fails s x begun once row).1 there in
      (
        out,
        ap (λ r. r.0) (process_batch_run settings fails s) ∙ returned,
        has,
        settled ∙ ap some (settle-sent s n x fresh works),
      )
