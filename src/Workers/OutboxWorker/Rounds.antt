-- ===== src/Workers/OutboxWorker/Rounds.antt =====
-- `run_outbox_worker`: run after run, each in a session of its own, with what a row of the outbox
-- can come to.
use leaf_flow_chat.Prelude.{
  ℕ, ◌≡◌, refl, ap, ◌∙◌, inl, inr, Bool, List, [], ◌∷◌, ◌++◌, map, arith, count_p, Bool-cases,
}
use leaf_flow_chat.Domain.{Timestamp}
use leaf_flow_chat.Errors.{Result, ok, err}
use leaf_flow_chat.Settings.{Settings}
use leaf_flow_chat.Sql.{Sql}
use leaf_flow_chat.Sql.Laws.{count_p-update_same}
use leaf_flow_chat.Db.Models.{Db, OutboxMessageModel}
use leaf_flow_chat.Db.Outbox.{
  OutboxRecord, to_record, mark_processing, mark_sent, update_outbox, has_id,
}
use leaf_flow_chat.Db.Session.{Session, in_session, ◌>>=◌}
use leaf_flow_chat.Workers.OutboxWorker.{Envelope, process_records, process_fetched, process_batch}
use leaf_flow_chat.Workers.OutboxWorker.Loop.{
  sent_ids, retried, ticked, retry_at, mark, process_record-skips, process_record-marks,
  process_records-cons,
}
use leaf_flow_chat.Workers.OutboxWorker.Batch.{process_fetched-cons}

-- what a run meets: the clocks, the rows that other workers hold, and the messages that Redis refuses
pub record Round : Type 0 where
  pub clock : ℕ → Timestamp
  pub server_now : Timestamp
  pub locked : ℕ → Bool
  pub fails : OutboxRecord → Bool

abbrev pub arrange : Round → Session → Session
arrange r s = record s { clock = r.clock; ticks = 0; server_now = r.server_now; locked = r.locked }

-- `except Exception` around a run
abbrev pub published_by : Result (List Envelope) → List Envelope
published_by (ok out) = out
published_by (err e) = []

module _ ⦃sql : Sql⦄ (settings : Settings) where
  abbrev pub run_once : Round → Session → Result (List Envelope) × Session
  run_once r s = in_session (process_batch settings r.fails) (arrange r s)

  -- the loop of `run_outbox_worker`, for as many rounds as are given
  unfoldable pub run_worker : List Round → Session → List Envelope × Session
  run_worker [] s = ([], s)
  run_worker (r ∷ rest) s =
      let (out, s') = run_once r s in
      let (more, end) = run_worker rest s' in (published_by out ++ more, end)

module _ ⦃sql : Sql⦄ (q : ℕ → Bool) where
  -- the number of rows whose id passes the test
  abbrev pub rows : Session → ℕ
  rows s = count_p (λ y. q y.id) s.working.outbox

  update_outbox-rows :
      (ids : List ℕ) (values : OutboxMessageModel → OutboxMessageModel) (s : Session)
      → ((y : OutboxMessageModel) → (values y).id ≡ y.id)
      → rows (update_outbox ids values s).1 ≡ rows s
  unfolding update_outbox
  update_outbox-rows ids values s keeps =
      count_p-update_same (λ y. q y.id) (has_id ids)
        (λ y. record (values y) { updated_at = s.server_now }) s.working.outbox
        (λ y h. ground (arith, keeps y))

  mark_processing-rows :
      (ys : List OutboxMessageModel) (s : Session) → rows (mark_processing ys s).1 ≡ rows s
  unfolding mark_processing ◌>>=◌
  mark_processing-rows [] s = refl
  mark_processing-rows (y ∷ ys) s =
      update_outbox-rows (map (λ z. z.id) (y ∷ ys)) (λ z. record z { status = "processing" }) s
        (λ z. refl)

  mark_sent-rows : (ids : List ℕ) (s : Session) → rows (mark_sent ids s).1 ≡ rows s
  unfolding mark_sent ◌>>=◌
  mark_sent-rows [] s = refl
  mark_sent-rows (k ∷ ids) s =
      update_outbox-rows (k ∷ ids) (λ z. record z { status = "sent" }) s (λ z. refl)

  module _ (settings : Settings) (fails : OutboxRecord → Bool) where
    process_records-rows :
        (rs : List OutboxRecord) (s : Session)
        → rows (process_records settings fails rs s).1 ≡ rows s
    process_records-rows [] s = unfold process_records ◌>>=◌ in refl
    process_records-rows (r ∷ rest) s =
        ap rows (process_records-cons settings fails r rest s)
        ∙ process_records-rows rest _
        ∙ elim (Bool-cases (retried settings fails r)) [
          | inl e ↦
              ap rows (process_record-marks settings fails r s e)
              ∙ update_outbox-rows (r.id ∷ []) (mark settings fails (retry_at settings fails r s))
                  (ticked settings fails s) (λ y. refl)
          | inr e ↦ ap rows (process_record-skips settings fails r s e)
        ]

    pub process_fetched-rows :
        (ys : List OutboxMessageModel) (s : Session)
        → s.committed ≡ s.working
        → count_p
            (λ y. q y.id)
            (process_fetched settings fails
              (map to_record ys)
              (mark_processing ys s).1).1.committed.outbox
          ≡ rows s
    process_fetched-rows [] s begun =
        unfold process_fetched mark_processing ◌>>=◌ in
        ap (λ (d : Db). count_p (λ y. q y.id) d.outbox) begun
    process_fetched-rows (y ∷ ys) s begun =
        let marked = (mark_processing (y ∷ ys) s).1 in
        let rs = map to_record (y ∷ ys) in
        rw (process_fetched-cons settings fails (to_record y) (map to_record ys) marked) (
          mark_sent-rows (sent_ids settings fails rs) (process_records settings fails rs marked).1
          ∙ process_records-rows rs marked
          ∙ mark_processing-rows (y ∷ ys) s)
