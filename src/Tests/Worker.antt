-- ===== src/Tests/Worker.antt =====
-- One run of the outbox worker over three records: one to send, one that fails, one used up.
use leaf_flow_chat.Prelude.{
  ℕ, ◌+◌, ◌≡◌, ◌≤◌, refl, Bool, true, false, some, none, List, [], ◌∷◌, Mem, arith, any, ◌==◌,
}
use leaf_flow_chat.Domain.{str}
use leaf_flow_chat.Settings.{defaults}
use leaf_flow_chat.Sql.{unordered}
use leaf_flow_chat.Sql.Laws.{fetch}
use leaf_flow_chat.Sql.Rows.{rows, select_rows}
use leaf_flow_chat.Db.Models.{OutboxMessageModel}
use leaf_flow_chat.Db.Outbox.{OutboxRecord, to_record, is_waiting}
use leaf_flow_chat.Db.Session.{Session}
use leaf_flow_chat.Workers.OutboxWorker.{Envelope, envelope, process_batch}
use leaf_flow_chat.Workers.OutboxWorker.Publishes.{due_row_published}
use leaf_flow_chat.Workers.OutboxWorker.Rounds.{Round, run_worker}
use leaf_flow_chat.Workers.OutboxWorker.Retries.{retries_end}
use leaf_flow_chat.Workers.OutboxWorker.GivesUp.{IsSpaced, gives_up}
use leaf_flow_chat.Errors.{ok}
use leaf_flow_chat.Workers.OutboxWorker.Loop.{is_row}
use leaf_flow_chat.Workers.OutboxWorker.Batch.{settle}
use leaf_flow_chat.Workers.OutboxWorker.Outcome.{batch_rows, process_batch_settles}
use leaf_flow_chat.Tests.Data.{db, session}

abbrev pub pending : OutboxMessageModel
pending = record {
  id = 1;
  event_type = "chat.message_created";
  payload = ("body", str "hello") ∷ [];
  status = "pending";
  attempts = 0;
  next_retry_at = none;
  created_at = 1;
  updated_at = 1;
}

abbrev pub refused : OutboxMessageModel
refused = record pending { id = 2; status = "failed"; attempts = 1; next_retry_at = some 500 }

abbrev pub used_up : OutboxMessageModel
used_up = record pending { id = 3; status = "failed"; attempts = 5; next_retry_at = some 500 }

abbrev pub stuck : OutboxMessageModel
stuck = record pending { id = 4; status = "processing"; attempts = 5; next_retry_at = some 500 }

abbrev pub queue : Session
queue = record session {
  committed = record db { outbox = pending ∷ refused ∷ used_up ∷ stuck ∷ [] };
  working = record db { outbox = pending ∷ refused ∷ used_up ∷ stuck ∷ [] };
}

abbrev pub fails : OutboxRecord → Bool
fails r = r.id == 2

process_batch_settles_example :
    let s' = (process_batch defaults fails queue).1 in
    (any (is_row 2) (batch_rows defaults fails queue) ≡ false
      → fetch (is_row 2) unordered s'.committed.outbox ≡ some refused)
    × (any (is_row 2) (batch_rows defaults fails queue) ≡ true
        → (n : ℕ) × (fetch (is_row 2) unordered s'.committed.outbox
            ≡ some (settle defaults fails queue n refused)))
unfolding select_rows
process_batch_settles_example =
    process_batch_settles defaults fails queue refused refl (omega arith) refl

abbrev works : OutboxRecord → Bool
works r = false

due_row_published_example :
    let (r, s') = process_batch defaults works queue in
    (out : List Envelope) × (r ≡ ok out)
    × Mem (envelope defaults (to_record pending)) out
    × (fetch (is_row 1) unordered s'.committed.outbox
        ≡ some (record pending { status = "sent"; updated_at = 1000 }))
unfolding select_rows
due_row_published_example =
    due_row_published defaults works queue pending refl (omega arith) refl refl (omega arith) refl
      refl

abbrev first : Round
first = record { clock = λ n. 2000 + n; server_now = 1000; locked = λ j. j == 1; fails = fails }

abbrev second : Round
second = record { clock = λ n. 9000000 + n; server_now = 8000; locked = λ j. false; fails = fails }

retries_end_example :
    (y : OutboxMessageModel) × (fetch
        (is_row 2)
        unordered
        (run_worker defaults (first ∷ second ∷ []) queue).1.committed.outbox
      ≡ some y)
    × (1 ≤ y.attempts)
    × (1 ≤ 5 → y.attempts ≤ 5)
    × (is_waiting refused.status ≡ false → y ≡ refused)
unfolding select_rows
retries_end_example = retries_end defaults (first ∷ second ∷ []) queue refused (omega arith) refl

abbrev refuses : OutboxRecord → Bool
refuses r = true

abbrev round_at : ℕ → Round
round_at t = record { clock = λ n. t; server_now = t; locked = λ j. false; fails = refuses }

abbrev five : List Round
five =
    round_at 1000000000
    ∷ round_at 2000000000
    ∷ round_at 3000000000
    ∷ round_at 4000000000
    ∷ round_at 5000000000
    ∷ []

five-IsSpaced : IsSpaced 1000 five
five-IsSpaced = (
  omega arith,
  2000000000,
  λ n. omega arith,
  (
    omega arith,
    3000000000,
    λ n. omega arith,
    (
      omega arith,
      4000000000,
      λ n. omega arith,
      (omega arith, 5000000000, λ n. omega arith, (omega arith, 6000000000, λ n. omega arith, tt)),
    ),
  ),
)

gives_up_example :
    (y : OutboxMessageModel) × (fetch
        (is_row 2)
        unordered
        (run_worker defaults five queue).1.committed.outbox
      ≡ some y)
    × (y.status ≡ "processing")
    × (y.attempts ≡ 5)
unfolding select_rows
gives_up_example =
    gives_up defaults five 1000 queue refused (omega arith) refl refl refl (omega arith)
      (omega arith) five-IsSpaced (refl, (refl, (refl, (refl, (refl, tt)))))
      (λ q h. refl, (λ q h. refl, (λ q h. refl, (λ q h. refl, (λ q h. refl, tt))))) (omega arith)
