-- ===== src/Tests/Data.antt =====
-- A small database: one open conversation, number 10, with the user 42 in it.
use leaf_flow_chat.Prelude.{◌+◌, arith, none, [], ◌∷◌, false}
use leaf_flow_chat.Domain.{user, admin}
use leaf_flow_chat.Principal.{Principal}
use leaf_flow_chat.Db.Models.{Db, ConversationModel, ParticipantModel}
use leaf_flow_chat.Db.Session.{Session}
use leaf_flow_chat.Db.Valid.{IsValid}

abbrev pub conversation : ConversationModel
conversation = record {
  id = 10;
  topic_type = "support";
  topic_id = none;
  status = "open";
  assignee_admin_id = none;
  last_message_at = none;
  created_at = 1;
  updated_at = 1;
}

abbrev pub member : ParticipantModel
member = record { id = 20; conversation_id = 10; kind = "user"; subject_id = 42; joined_at = 1 }

abbrev pub db : Db
db = record {
  conversations = conversation ∷ [];
  participants = member ∷ [];
  messages = [];
  read_states = [];
  outbox = [];
}

abbrev pub session : Session
session = record {
  committed = db;
  working = db;
  outbox_seq = 1;
  server_now = 1000;
  locked = λ _. false;
  uuids = λ n. 100 + n;
  drawn = 0;
  clock = λ n. 2000 + n;
  ticks = 0;
}

abbrev pub customer : Principal
customer = record { kind = user; subject_id = 42; roles = [] }

abbrev pub stranger : Principal
stranger = record { kind = user; subject_id = 7; roles = [] }

abbrev pub operator : Principal
operator = record { kind = admin; subject_id = 1; roles = "admin" ∷ [] }

pub db-IsValid : IsValid db
db-IsValid = record {
  conversation_once = λ i. ground arith;
  message_once = λ i. omega arith;
  participant_once = λ i. ground arith;
  read_state_once = λ i. omega arith;
  member_once = λ c k i. ground arith;
  sent_once = λ c k i m. omega arith;
  reader_once = λ c k i. omega arith;
  members_placed = omega arith;
  messages_placed = omega arith;
  readers_placed = omega arith;
  markers_placed = omega arith;
}
