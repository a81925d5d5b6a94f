-- ===== src/Workers/OutboxWorker/Valid.antt =====
-- A run of the worker keeps the database valid.
use leaf_flow_chat.Prelude.{ℕ, Bool, List, [], ◌∷◌}
use leaf_flow_chat.Domain.{Timestamp}
use leaf_flow_chat.Settings.{Settings}
use leaf_flow_chat.Sql.{Sql}
use leaf_flow_chat.Db.Models.{OutboxMessageModel}
use leaf_flow_chat.Db.Outbox.{
  OutboxRecord, update_outbox, fetch_pending, mark_processing, mark_sent, mark_failed,
}
use leaf_flow_chat.Db.Valid.Keeps.{Keeps, Keeps-then, Keeps-pure, Keeps-utc_now, keeps_rules}
use leaf_flow_chat.Db.Valid.Repositories.{BothValid, valid_rules}
use leaf_flow_chat.Db.Valid.Updates.{outbox-IsValid}
use leaf_flow_chat.Workers.OutboxWorker.{
  calc_backoff, process_record, process_records, process_fetched, process_batch,
}

module _ ⦃sql : Sql⦄ where
  update_outbox-Keeps :
      (ids : List ℕ) (f : OutboxMessageModel → OutboxMessageModel)
      → Keeps BothValid (update_outbox ids f)
  unfolding update_outbox
  update_outbox-Keeps ids f = record { at = λ s h. (h.0, outbox-IsValid s.working _ h.1) }

  mark_processing-Keeps : (rows : List OutboxMessageModel) → Keeps BothValid (mark_processing rows)
  unfolding mark_processing
  mark_processing-Keeps [] = search keeps_rules
  mark_processing-Keeps (y ∷ ys) = update_outbox-Keeps _ _

  mark_sent-Keeps : (ids : List ℕ) → Keeps BothValid (mark_sent ids)
  unfolding mark_sent
  mark_sent-Keeps [] = search keeps_rules
  mark_sent-Keeps (k ∷ ids) = update_outbox-Keeps _ _

  mark_failed-Keeps : (i : ℕ) (at : Timestamp) → Keeps BothValid (mark_failed i at)
  unfolding mark_failed
  mark_failed-Keeps i at = update_outbox-Keeps _ _

  fetch_pending-Keeps : (n : ℕ) → Keeps BothValid (fetch_pending n)
  unfolding fetch_pending
  fetch_pending-Keeps n = Keeps-then _ _ Keeps-utc_now (λ now.
      Keeps-then _ _ (record { at = λ s h. h })
        (λ rows. Keeps-then _ _ (mark_processing-Keeps rows) (λ u. Keeps-pure _)))

  module _ (settings : Settings) (fails : OutboxRecord → Bool) where
    process_record-Keeps : (r : OutboxRecord) → Keeps BothValid (process_record settings fails r)
    unfolding process_record calc_backoff
    process_record-Keeps r = search (keeps_rules, mark_failed-Keeps) depth 12

    process_records-Keeps :
        (rs : List OutboxRecord) → Keeps BothValid (process_records settings fails rs)
    unfolding process_records
    process_records-Keeps [] = search keeps_rules
    process_records-Keeps (r ∷ rest) =
        Keeps-then _ _ (process_record-Keeps r)
          (λ a. Keeps-then _ _ (process_records-Keeps rest) (λ b. Keeps-pure _))

    process_fetched-Keeps :
        (rs : List OutboxRecord) → Keeps BothValid (process_fetched settings fails rs)
    unfolding process_fetched
    process_fetched-Keeps [] = search keeps_rules
    process_fetched-Keeps (r ∷ rest) =
        search (valid_rules, process_records-Keeps, mark_sent-Keeps) depth 12

    pub process_batch-Keeps : Keeps BothValid (process_batch settings fails)
    unfolding process_batch
    process_batch-Keeps = search (keeps_rules, fetch_pending-Keeps, process_fetched-Keeps)
