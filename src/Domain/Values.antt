-- ===== src/Domain/Values.antt =====
-- The enumerations, with the text that a `StrEnum` stands for, and the values of a JSON object.
use leaf_flow_chat.Prelude.{ℕ, String, List, Option, none, some}

abbrev pub Uuid : Type 0
Uuid = ℕ

abbrev pub Timestamp : Type 0
Timestamp = ℕ

abbrev pub SubjectId : Type 0
SubjectId = ℕ

-- `OPEN` and `CLOSED`
pub data ConversationStatus : Type 0 where
  opened closed : ConversationStatus

abbrev pub status_value : ConversationStatus → String
status_value opened = "open"
status_value closed = "closed"

pub data ParticipantKind : Type 0 where
  user admin : ParticipantKind

abbrev pub kind_value : ParticipantKind → String
kind_value user = "user"
kind_value admin = "admin"

pub data MessageType : Type 0 where
  text system attachment : MessageType

abbrev pub type_value : MessageType → String
type_value text = "text"
type_value system = "system"
type_value attachment = "attachment"

-- A value in the flat objects that the program writes; `id u` is the text `str(u)` of a UUID.
pub data Value : Type 0 where
  null : Value
  str : String → Value
  int : ℕ → Value
  id : Uuid → Value

abbrev pub Payload : Type 0
Payload = List (String × Value)

-- `x` or `None` as a JSON value
abbrev pub str_or_null : Option String → Value
str_or_null none = null
str_or_null (some s) = str s
