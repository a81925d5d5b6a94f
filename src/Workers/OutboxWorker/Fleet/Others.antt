-- ===== src/Workers/OutboxWorker/Fleet/Others.antt =====
-- What a service's transaction leaves of the outbox, beside the workers.
use leaf_flow_chat.Prelude.{
  ◌≡◌, ◌≤◌, ◌∙◌, ap, none, sym, subst, inl, inr, arith, ◌==◌, ==_iff, count_p, Bool-cases,
}
use leaf_flow_chat.Domain.{Payload}
use leaf_flow_chat.Prelude.{String}
use leaf_flow_chat.Sql.{Sql, unordered}
use leaf_flow_chat.Sql.Laws.{fetch, fetch-insert_other, fetch_missing}
use leaf_flow_chat.Db.Models.{Db, OutboxMessageModel, OutboxMessageModel-discrete}
use leaf_flow_chat.Db.Outbox.{add}
use leaf_flow_chat.Db.Session.{Session, commit}
use leaf_flow_chat.Settings.{Settings}
use leaf_flow_chat.Workers.OutboxWorker.Loop.{is_row}
use leaf_flow_chat.Workers.OutboxWorker.Fleet.{Rely}

module _ ⦃sql : Sql⦄ (settings : Settings) where
  abbrev row_of : String → Payload → Session → OutboxMessageModel
  row_of event_type payload s = record {
    id = s.outbox_seq;
    event_type = event_type;
    payload = payload;
    status = "pending";
    attempts = 0;
    next_retry_at = none;
    created_at = s.server_now;
    updated_at = s.server_now;
  }

  -- An event that is added under an unused id, and committed, leaves the other rows.
  pub add-Rely :
      (event_type : String) (payload : Payload) (s : Session)
      → s.committed ≡ s.working
      → count_p (is_row s.outbox_seq) s.committed.outbox ≡ 0
      → Rely settings s (commit (add event_type payload s).1).1
  unfolding add commit
  add-Rely event_type payload s begun unused =
      let new = row_of event_type payload s in
      let same : s.working.outbox ≡ s.committed.outbox = ap (λ (d : Db). d.outbox) (sym begun) in
      record {
        still_once = λ i once. elim (Bool-cases (s.outbox_seq == i)) [
          | inl e ↦ ground (
            arith,
            sql.count_p-insert (is_row i) new s.working.outbox,
            ap (count_p (is_row i)) same,
            ap (λ j. count_p (is_row j) s.committed.outbox) ((==_iff s.outbox_seq i).0 e),
          )
          | inr e ↦ ground (
            arith,
            once,
            sql.count_p-insert (is_row i) new s.working.outbox,
            ap (count_p (is_row i)) same,
          )
        ];
        same_row = λ i x once row. elim (Bool-cases (s.outbox_seq == i)) [
          | inl e ↦ absurd (
              cc (
                row,
                fetch_missing (is_row i) unordered s.committed.outbox (
                    ap (λ j. count_p (is_row j) s.committed.outbox)
                      (sym ((==_iff s.outbox_seq i).0 e))
                    ∙ unused),
              ))
          | inr e ↦
              fetch-insert_other OutboxMessageModel-discrete (is_row i) unordered s.working.outbox
                new (subst (λ t. count_p (is_row i) t ≤ 1) (sym same) once) e
              ∙ ap (λ t. fetch (is_row i) unordered t) same
              ∙ row
        ];
      }
