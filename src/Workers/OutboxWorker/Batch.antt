-- ===== src/Workers/OutboxWorker/Batch.antt =====
-- One whole run of `_process_batch`: fetching, the loop, `mark_sent` and the commit.
use leaf_flow_chat.Prelude.{
  ℕ, ◌+◌, ◌≡◌, refl, sym, ap, ◌∙◌, subst, Bool, true, false, not, ◌&&◌, List, [], ◌∷◌, map, arith,
  ◌==◌, if◌then◌else◌, any, All, count_p, any-count_p,
}
use leaf_flow_chat.Domain.{Timestamp}
use leaf_flow_chat.Errors.{ok}
use leaf_flow_chat.Settings.{Settings}
use leaf_flow_chat.Sql.{Sql}
use leaf_flow_chat.Sql.Laws.{same, same-eq}
use leaf_flow_chat.Db.Models.{OutboxMessageModel, OutboxMessageModel-discrete}
use leaf_flow_chat.Db.Outbox.{OutboxRecord, to_record, update_outbox, mark_processing, mark_sent}
use leaf_flow_chat.Db.Session.{Session, commit, ◌>>=◌}
use leaf_flow_chat.Workers.OutboxWorker.{seconds, delay_seconds, process_records, process_fetched}
use leaf_flow_chat.Workers.OutboxWorker.Loop.{
  Shows, is_row, is_record, exhausted, failed_row, sent_ids, published, update_outbox-Shows,
  process_records_returns,
}
use leaf_flow_chat.Workers.OutboxWorker.Fate.{looped, process_records-Shows, any-sent_ids}

abbrev pub processing : Timestamp → OutboxMessageModel → OutboxMessageModel
processing now x = record x { status = "processing"; updated_at = now }

any-map_id :
    (i : ℕ) (rows : List OutboxMessageModel)
    → any (λ j. j == i) (map (λ y. y.id) rows) ≡ any (is_row i) rows
any-map_id i [] = refl
any-map_id i (y ∷ rows) = ground (arith, any-map_id i rows)

pub count_p-records :
    (i : ℕ) (rows : List OutboxMessageModel)
    → count_p (is_record i) (map to_record rows) ≡ count_p (is_row i) rows
count_p-records i [] = refl
count_p-records i (y ∷ rows) = ground (arith, count_p-records i rows)

pub any-records :
    (i : ℕ) (rows : List OutboxMessageModel)
    → any (is_record i) (map to_record rows) ≡ any (is_row i) rows
any-records i [] = refl
any-records i (y ∷ rows) = ground (arith, any-records i rows)

-- Of rows none of which has the id without being `x`, the records with the id are the one of `x`.
pub All-records :
    (i : ℕ) (x : OutboxMessageModel) (rows : List OutboxMessageModel)
    → All (λ y. (is_row i y && not (same OutboxMessageModel-discrete x y)) ≡ false) rows
    → All (λ r. is_record i r ≡ true → r ≡ to_record x) (map to_record rows)
All-records i x [] h = tt
All-records i x (y ∷ rows) h = (
  λ e. ap to_record (sym (same-eq OutboxMessageModel-discrete x y (ground arith))),
  All-records i x rows h.1,
)

module _ ⦃sql : Sql⦄ where
  pub mark_processing_returns :
      (rows : List OutboxMessageModel) (s : Session) → (mark_processing rows s).0 ≡ ok tt
  unfolding mark_processing update_outbox ◌>>=◌
  mark_processing_returns [] s = refl
  mark_processing_returns (y ∷ rows) s = refl

  pub mark_processing-Shows :
      (base : Session) (i : ℕ) (x : OutboxMessageModel) (rows : List OutboxMessageModel)
      (s : Session)
      → x.id ≡ i
      → Shows base i x s
      → Shows base i
          (if any (is_row i) rows then processing base.server_now x else x)
          (mark_processing rows s).1
  unfolding mark_processing ◌>>=◌
  mark_processing-Shows base i x [] s here h = h
  mark_processing-Shows base i x (y ∷ rows) s here h =
      subst
        (λ b.
          Shows base i (if b then processing base.server_now x else x)
            (update_outbox (map (λ z. z.id) (y ∷ rows)) (λ z. record z { status = "processing" })
              s).1)
        (ap (λ j. any (λ k. k == j) (map (λ z. z.id) (y ∷ rows))) here ∙ any-map_id i (y ∷ rows))
        (update_outbox-Shows base i x s (map (λ z. z.id) (y ∷ rows))
          (λ z. record z { status = "processing" }) (λ z. refl) h)

  pub mark_sent-Shows :
      (base : Session) (i : ℕ) (x : OutboxMessageModel) (ids : List ℕ) (s : Session)
      → x.id ≡ i
      → Shows base i x s
      → Shows base i
          (if any (λ j. j == i) ids
            then record x { status = "sent"; updated_at = base.server_now }
            else x)
          (mark_sent ids s).1
  unfolding mark_sent ◌>>=◌
  mark_sent-Shows base i x [] s here h = h
  mark_sent-Shows base i x (k ∷ ids) s here h =
      subst
        (λ j.
          Shows base i
            (if any (λ k'. k' == j) (k ∷ ids)
              then record x { status = "sent"; updated_at = base.server_now }
              else x)
            (update_outbox (k ∷ ids) (λ z. record z { status = "sent" }) s).1)
        here
        (update_outbox-Shows base i x s (k ∷ ids) (λ z. record z { status = "sent" }) (λ z. refl) h)

  mark_sent_returns : (ids : List ℕ) (s : Session) → (mark_sent ids s).0 ≡ ok tt
  unfolding mark_sent update_outbox ◌>>=◌
  mark_sent_returns [] s = refl
  mark_sent_returns (k ∷ ids) s = refl

  -- What a fetched row `x` becomes, with the retry after the `n`-th reading of the clock.
  abbrev pub settle :
      Settings → (OutboxRecord → Bool) → Session → ℕ → OutboxMessageModel → OutboxMessageModel
  settle settings fails base n x =
      if exhausted settings fails (to_record x)
      then processing base.server_now x
      else if fails (to_record x)
      then failed_row settings fails (base.clock n + seconds (delay_seconds x.attempts))
          base.server_now x
      else record x { status = "sent"; updated_at = base.server_now }

  abbrev pub saved : Session → Session
  saved s = record s { committed = s.working }

  pub saved-Shows :
      (base : Session) (i : ℕ) (x : OutboxMessageModel) (s : Session)
      → Shows base i x s
      → Shows base i x (saved s)
  saved-Shows base i x s h = record {
    once = h.once;
    row = h.row;
    clock = h.clock;
    server_now = h.server_now;
  }

  module _ (settings : Settings) (fails : OutboxRecord → Bool) where
    pub process_fetched-cons :
        (r : OutboxRecord) (rest : List OutboxRecord) (s : Session)
        → process_fetched settings fails (r ∷ rest) s ≡ (
          ok (published settings fails (r ∷ rest)),
          saved
              (mark_sent
                (sent_ids settings fails (r ∷ rest))
                (process_records settings fails (r ∷ rest) s).1).1,
        )
    unfolding process_fetched commit ◌>>=◌
    process_fetched-cons r rest s = ground (
      arith,
      process_records_returns settings fails (r ∷ rest) s,
      mark_sent_returns (sent_ids settings fails (r ∷ rest))
          (process_records settings fails (r ∷ rest) s).1,
    )

    pub process_fetched-Shows :
        (base : Session) (i : ℕ) (x : OutboxMessageModel) (r : OutboxRecord)
        (rest : List OutboxRecord) (s : Session)
        → x.id ≡ i
        → All (λ r. is_record i r ≡ true → r ≡ to_record x) (r ∷ rest)
        → count_p (is_record i) (r ∷ rest) ≡ 1
        → Shows base i (processing base.server_now x) s
        → (n : ℕ) × Shows base i (settle settings fails base n x) (
            saved
              (mark_sent
                (sent_ids settings fails (r ∷ rest))
                (process_records settings fails (r ∷ rest) s).1).1)
    process_fetched-Shows base i x r rest s here only one h =
        let (n, shown) =
          process_records-Shows settings fails base i (processing base.server_now x) here
            (to_record x) (r ∷ rest) s only one h in
        let y : OutboxMessageModel =
          looped settings fails base n (to_record x) (processing base.server_now x) in
        let s' : Session = (process_records settings fails (r ∷ rest) s).1 in
        let ids : List ℕ = sent_ids settings fails (r ∷ rest) in
        (
          n,
          saved-Shows base i (settle settings fails base n x) (mark_sent ids s').1 (
              subst (λ z. Shows base i z (mark_sent ids s').1)
                (ground (
                  arith,
                  any-sent_ids settings fails base i (processing base.server_now x) here
                      (to_record x) (r ∷ rest) only,
                  any-count_p (is_record i) (r ∷ rest),
                ))
                (mark_sent-Shows base i y ids s' (ground arith) shown)),
        )
