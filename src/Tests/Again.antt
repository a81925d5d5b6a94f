-- ===== src/Tests/Again.antt =====
-- Rounds over a stream.
use leaf_flow_chat.Prelude.{ℕ, String, ◌+◌, ◌≡◌, ◌≤◌, refl, some, List, [], ◌∷◌, arith, map, subst}
use leaf_flow_chat.Errors.{err, value_error}
use leaf_flow_chat.Sql.Rows.{rows}
use leaf_flow_chat.Db.Session.{Action}
use leaf_flow_chat.Workers.LeafEventsConsumer.{Fields}
use leaf_flow_chat.Workers.StreamConsumer.{Entry, call_of, recorded}
use leaf_flow_chat.Workers.StreamLoop.{Group, IsBetween, times, created, busygroup, response_error}
use leaf_flow_chat.Workers.ConsumerRun.{Run, restarts}
use leaf_flow_chat.Workers.ConsumerRun.Calls.{restarts_call_once}
use leaf_flow_chat.Tests.Data.{session}

abbrev one_entry : ℕ → List Entry
one_entry g = (g + 1, []) ∷ []

read_new :
    (g : ℕ) (es : List Entry)
    → some (one_entry g) ≡ some es
    → IsBetween g (g + 1) es × ((i : ℕ) → times i es ≤ 1)
read_new g es h =
    let same : one_entry g ≡ es = cc h in
    subst (λ (es : List Entry). IsBetween g (g + 1) es × ((i : ℕ) → times i es ≤ 1)) same
      (((omega arith, omega arith), tt), λ i. ground arith)

-- one new entry for each call
instance abbrev counter : Group
counter = record {
  State = ℕ;
  delivered = λ g. g;
  xreadgroup = λ n g. (some (one_entry g), g + 1);
  xack = λ ids g. g;
  xreadgroup_advances = λ n g. omega arith;
  xreadgroup_new = λ n g es h. read_new g es h;
  delivered-xack = λ ids g. refl;
}

abbrev raises : String → Fields → Action (Unit {0})
raises event_type fields s = (err value_error, s)

-- a run that is cancelled after a round, one that Redis refuses, and one that is cancelled before
-- it has handled what it read
abbrev three_runs : List Run
three_runs =
    record { creation = created; whole_rounds = 1; finished = 1 }
    ∷ record { creation = response_error "ERR"; whole_rounds = 1; finished = 1 }
    ∷ record { creation = busygroup; whole_rounds = 2; finished = 0 }
    ∷ []

restarts_call_once_example :
    let (handled, end) = restarts 10 (recorded raises) three_runs (5, (session, [])) in
    (end.1.1 ≡ map call_of handled)
    × ((i : ℕ) → times i handled ≤ 1)
    × ((i : ℕ) → i ≤ 5 → times i handled ≡ 0)
restarts_call_once_example = restarts_call_once 10 raises three_runs 5 session
