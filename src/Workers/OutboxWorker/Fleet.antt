-- ===== src/Workers/OutboxWorker/Fleet.antt =====
-- Several outbox workers at once, each with a run of `_process_batch` in a transaction of its own.
-- A run takes its batch and holds the rows' locks until it commits; SKIP LOCKED keeps these rows
-- from the others. Its UPDATEs touch rows that it has locked alone, so they are applied together
-- when it commits.
pub mod Rows
pub mod Flat
pub mod Others
pub mod Keeps
pub mod Exclusive
pub mod Stops
pub mod Once
use leaf_flow_chat.Prelude.{
  ℕ, ◌+◌, ◌≡◌, ◌≤◌, refl, sym, ap, Bool, some, List, [], ◌∷◌, ◌++◌, map, take, any, count_p,
}
use leaf_flow_chat.Settings.{Settings}
use leaf_flow_chat.Sql.{Sql, unordered}
use leaf_flow_chat.Sql.Laws.{fetch}
use leaf_flow_chat.Db.Models.{OutboxMessageModel}
use leaf_flow_chat.Db.Outbox.{to_record, mark_processing}
use leaf_flow_chat.Db.Session.{Session, rollback}
use leaf_flow_chat.Workers.OutboxWorker.{process_fetched, process_batch}
use leaf_flow_chat.Workers.OutboxWorker.Loop.{is_row, sent_ids}
use leaf_flow_chat.Workers.OutboxWorker.Outcome.{batch_rows, process_batch_run}
use leaf_flow_chat.Workers.OutboxWorker.Rounds.{Round, arrange}

abbrev pub flat : {A : Type 0} → List (List A) → List A
flat [] = []
flat (xs ∷ rest) = xs ++ flat rest

-- The committed database, the batches of the runs under way, the ids of the records that committed
-- runs have published, and for each run that raised the ids of those that it had published before.
pub record Fleet : Type 0 where
  pub session : Session
  pub batches : List (List OutboxMessageModel)
  pub published : List ℕ
  pub rolled_back : List (List ℕ)

abbrev pub is_held : List (List OutboxMessageModel) → ℕ → Bool
is_held batches i = any (is_row i) (flat batches)

abbrev pub opened : Round → Session → Session
opened r s = rollback (arrange r s)

module _ ⦃sql : Sql⦄ (settings : Settings) where
  -- the SELECT … FOR UPDATE SKIP LOCKED of a run, beside the runs under way
  unfoldable pub take_batch : Round → Fleet → List OutboxMessageModel
  take_batch r f =
      batch_rows settings r.fails (opened (record r { locked = is_held f.batches }) f.session)

  -- the rest of the run, with its commit
  unfoldable pub finish_batch : Round → List OutboxMessageModel → Session → Session
  finish_batch r rows s =
      let begun = record (opened r s) { ticks = (opened r s).ticks + 1 } in
      (process_fetched settings r.fails (map to_record rows) (mark_processing rows begun).1).1

  -- What other transactions leave: the rows that were there, and ids that occur once.
  pub record Rely (s s' : Session) : Type 0 where
    pub still_once :
        (i : ℕ)
        → count_p (is_row i) s.committed.outbox ≤ 1
        → count_p (is_row i) s'.committed.outbox ≤ 1
    pub same_row :
        (i : ℕ) (x : OutboxMessageModel)
        → count_p (is_row i) s.committed.outbox ≤ 1
        → fetch (is_row i) unordered s.committed.outbox ≡ some x
        → fetch (is_row i) unordered s'.committed.outbox ≡ some x

  pub data Step (f : Fleet) : Fleet → Type 0 where
    takes : (r : Round) → Step f (record f { batches = take_batch r f ∷ f.batches })
    finishes :
        (r : Round) (before after : List (List OutboxMessageModel)) (rows : List OutboxMessageModel)
        → f.batches ≡ before ++ rows ∷ after
        → Step f (record {
          session = finish_batch r rows f.session;
          batches = before ++ after;
          published = sent_ids settings r.fails (map to_record rows) ++ f.published;
          rolled_back = f.rolled_back;
        })
    -- The run raises after it has gone through so many of its records: in mark_failed, mark_sent or
    -- commit, or before it publishes anything. Its changes are rolled back; its events are out.
    fails :
        (r : Round) (k : ℕ) (before after : List (List OutboxMessageModel))
        (rows : List OutboxMessageModel)
        → f.batches ≡ before ++ rows ∷ after
        → Step f (record f {
          batches = before ++ after;
          rolled_back = sent_ids settings r.fails (take k (map to_record rows)) ∷ f.rolled_back;
        })
    others : (s' : Session) → Rely f.session s' → Step f (record f { session = s' })

  pub data Reach (f : Fleet) : Fleet → Type 0 where
    here : Reach f f
    next : {g h : Fleet} → Reach f g → Step g h → Reach f h

  -- A run that nothing comes between is `_process_batch` in a session of its own.
  pub finish_batch-take_batch :
      (r : Round) (f : Fleet)
      → let r' = record r { locked = is_held f.batches } in
        finish_batch r' (take_batch r f) f.session
        ≡ (process_batch settings r.fails (opened r' f.session)).1
  unfolding finish_batch take_batch
  finish_batch-take_batch r f =
      ap (λ z. z.1)
        (sym (
          process_batch_run settings r.fails
            (opened (record r { locked = is_held f.batches }) f.session)))
