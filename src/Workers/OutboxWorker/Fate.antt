-- ===== src/Workers/OutboxWorker/Fate.antt =====
-- What one run of `_process_batch` makes of each row of the outbox.
use leaf_flow_chat.Prelude.{
  ℕ, ◌+◌, ◌≡◌, refl, sym, subst, inl, inr, Bool, true, not, ◌&&◌, List, [], ◌∷◌, arith, ◌==◌,
  if◌then◌else◌, any, All, count_p, Bool-cases,
}
use leaf_flow_chat.Settings.{Settings}
use leaf_flow_chat.Sql.{Sql}
use leaf_flow_chat.Db.Models.{OutboxMessageModel}
use leaf_flow_chat.Db.Outbox.{OutboxRecord}
use leaf_flow_chat.Db.Session.{Session}
use leaf_flow_chat.Workers.OutboxWorker.{seconds, delay_seconds, process_record, process_records}
use leaf_flow_chat.Workers.OutboxWorker.Loop.{
  Shows, is_record, exhausted, retried, failed_row, sent_ids, process_records-cons,
  process_record-apart, process_record-failed, process_records-apart,
}

module _ ⦃sql : Sql⦄ (settings : Settings) (fails : OutboxRecord → Bool) where
  abbrev pub looped : Session → ℕ → OutboxRecord → OutboxMessageModel → OutboxMessageModel
  looped base n rec x =
      if retried settings fails rec
      then failed_row settings fails (base.clock n + seconds (delay_seconds rec.attempts))
          base.server_now x
      else x

  module _ (base : Session) (i : ℕ) (x : OutboxMessageModel) (here : x.id ≡ i)
      (rec : OutboxRecord) where
    loop_head :
        (rest : List OutboxRecord) (s : Session)
        → is_record i rec ≡ true
        → count_p (is_record i) rest ≡ 0
        → Shows base i x s
        → (n : ℕ) × Shows base i
            (looped base n rec x)
            (process_records settings fails (rec ∷ rest) s).1
    loop_head rest s mine no_more h = elim (Bool-cases (retried settings fails rec)) [
      | inl tried ↦
          let (n, shown) =
            process_record-failed settings fails base i x here rec s (ground arith) h in
          (
            n,
            rw (process_records-cons settings fails rec rest s) (
                subst
                  (λ b.
                    Shows base i
                      (if b
                        then failed_row settings fails
                            (base.clock n + seconds (delay_seconds rec.attempts)) base.server_now x
                        else x)
                      (process_records settings fails rest
                        (process_record settings fails rec s).1).1)
                  (sym tried)
                  (process_records-apart settings fails base i
                    (failed_row settings fails (base.clock n + seconds (delay_seconds rec.attempts))
                      base.server_now x)
                    here rest (process_record settings fails rec s).1 no_more shown)),
          )
      | inr kept ↦ (
        0,
        rw (process_records-cons settings fails rec rest s) (
            subst
              (λ b.
                Shows base i
                  (if b
                    then failed_row settings fails
                        (base.clock 0 + seconds (delay_seconds rec.attempts)) base.server_now x
                    else x)
                  (process_records settings fails rest (process_record settings fails rec s).1).1)
              (sym kept)
              (process_records-apart settings fails base i x here rest
                (process_record settings fails rec s).1 no_more
                (process_record-apart settings fails base i x here rec s (ground arith) h))),
      )
    ]

    -- The loop, for the row of one of its records.
    pub process_records-Shows :
        (rs : List OutboxRecord) (s : Session)
        → All (λ r. is_record i r ≡ true → r ≡ rec) rs
        → count_p (is_record i) rs ≡ 1
        → Shows base i x s
        → (n : ℕ) × Shows base i (looped base n rec x) (process_records settings fails rs s).1
    process_records-Shows [] s only one h = absurd (omega arith)
    process_records-Shows (r ∷ rest) s only one h = elim (Bool-cases (is_record i r)) [
      | inl e ↦
          subst
            (λ q.
              (n : ℕ) × Shows base i (looped base n rec x)
                (process_records settings fails (q ∷ rest) s).1)
            (sym (only.0 e)) (loop_head rest s (ground (arith, only.0 e)) (ground arith) h)
      | inr e ↦
          let (n, shown) =
            process_records-Shows rest (process_record settings fails r s).1 only.1 (ground arith)
              (process_record-apart settings fails base i x here r s (ground arith) h) in
          (n, rw (process_records-cons settings fails r rest s) shown)
    ]

    -- The ids that go to `mark_sent`.
    pub any-sent_ids :
        (rs : List OutboxRecord)
        → All (λ r. is_record i r ≡ true → r ≡ rec) rs
        → any (λ j. j == i) (sent_ids settings fails rs)
          ≡ (any (is_record i) rs && (not (exhausted settings fails rec) && not (fails rec)))
    any-sent_ids [] only = refl
    any-sent_ids (r ∷ rest) only = ground (arith, only.0, any-sent_ids rest only.1)
