-- ===== src/Tests/Fleet.antt =====
-- Two outbox workers at once over the records of Tests/Worker.
use leaf_flow_chat.Prelude.{◌+◌, ◌≡◌, ◌≤◌, refl, false, [], ◌∷◌, All, arith, count_p, ◌==◌}
use leaf_flow_chat.Settings.{defaults}
use leaf_flow_chat.Sql.Rows.{rows, select_rows}
use leaf_flow_chat.Db.Outbox.{add}
use leaf_flow_chat.Db.Session.{commit, rollback}
use leaf_flow_chat.Workers.OutboxWorker.Loop.{is_row}
use leaf_flow_chat.Workers.OutboxWorker.Rounds.{Round}
use leaf_flow_chat.Workers.OutboxWorker.Fleet.{
  Fleet, flat, take_batch, finish_batch, takes, finishes, fails as raises, others, Reach, here,
  next,
}
use leaf_flow_chat.Workers.OutboxWorker.Fleet.Others.{add-Rely}
use leaf_flow_chat.Workers.OutboxWorker.Fleet.Exclusive.{IsSettled}
use leaf_flow_chat.Workers.OutboxWorker.Fleet.Once.{published_once}
use leaf_flow_chat.Tests.Worker.{queue, fails}

abbrev turn : Round
turn = record { clock = λ n. 9000 + n; server_now = 9000; locked = λ _. false; fails = fails }

abbrev idle : Fleet
idle = record {
  session = record queue { outbox_seq = 9 };
  batches = [];
  published = [];
  rolled_back = [];
}

-- one worker takes the batch, publishes its first record, and loses its transaction
abbrev taken_first : Fleet
taken_first = record idle { batches = take_batch defaults turn idle ∷ [] }

abbrev lost : Fleet
lost = record idle { rolled_back = (1 ∷ []) ∷ [] }

-- it takes the batch again
abbrev one_taken : Fleet
one_taken = record lost { batches = take_batch defaults turn lost ∷ [] }

-- a second comes while the first is under way
abbrev two_taken : Fleet
two_taken = record lost { batches = take_batch defaults turn one_taken ∷ one_taken.batches }

-- a service adds an event
abbrev added : Fleet
added = record two_taken { session = (commit (add "chat.event" [] two_taken.session).1).1 }

-- the first commits
abbrev finished : Fleet
finished = record {
  session = finish_batch defaults turn (take_batch defaults turn lost) added.session;
  batches = take_batch defaults turn one_taken ∷ [];
  published = 1 ∷ [];
  rolled_back = (1 ∷ []) ∷ [];
}

lost-Reach : Reach defaults idle lost
unfolding take_batch select_rows rollback
lost-Reach =
    next (next here (takes turn)) (raises turn 1 [] [] (take_batch defaults turn idle) refl)

finished-Reach : Reach defaults idle finished
unfolding take_batch select_rows rollback
finished-Reach =
    next
      (next (next (next lost-Reach (takes turn)) (takes turn))
        (others added.session (add-Rely defaults "chat.event" [] two_taken.session refl refl)))
      (finishes turn (take_batch defaults turn one_taken ∷ []) [] (take_batch defaults turn lost)
        refl)

-- the rows that the first holds are in no other batch
second_skips : take_batch defaults turn one_taken ≡ []
unfolding take_batch select_rows rollback
second_skips = refl

published_once_example :
    (count_p (is_row 1) (flat finished.batches) + count_p (λ j. j == 1) finished.published ≤ 1)
    × All (λ ids. count_p (λ j. j == 1) ids ≤ 1) finished.rolled_back
    × (1 ≤ count_p (λ j. j == 1) finished.published
        → IsSettled defaults 1 finished.session.committed.outbox
          × (count_p (λ j. j == 1) finished.published ≡ 1)
          × (count_p (λ j. j == 1) (flat finished.rolled_back)
              ≡ count_p (λ j. j == 1) (flat finished.rolled_back)))
published_once_example =
    published_once defaults idle finished finished 1 refl refl refl (omega arith) finished-Reach
      here
