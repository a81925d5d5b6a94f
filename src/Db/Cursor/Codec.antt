-- ===== src/Db/Cursor/Codec.antt =====
-- infrastructure/db/repositories/_cursor.py: the text of a cursor. Texts are lists of code points. What
-- base64, datetime and uuid do is the interface `Codec`, with the laws that their documentation gives.
use leaf_flow_chat.Prelude.{
  ℕ, ◌+◌, ◌-◌, ◌%◌, ◌<◌, ◌≡◌, ◌≢◌, Option, none, some, List, [], ◌∷◌, ◌++◌, ◌==◌, All, length,
  replicate, if◌then◌else◌,
}
use leaf_flow_chat.Domain.{Uuid, Timestamp}
use leaf_flow_chat.Errors.{Result, ok, err, value_error}
use leaf_flow_chat.Db.Cursor.{Cursor}

abbrev pub Text : Type 0
Text = List ℕ

abbrev pub Lacks : ℕ → Text → Type 0
Lacks c = All (λ x. x ≢ c)

-- Base64 of a text in the standard alphabet ends in less than four "=", which make its length a
-- multiple of four, and has no other "=".
pub record IsPadded (t : Text) : Type 0 where
  pub body : Text
  pub pads : ℕ
  pub is_body : t ≡ body ++ replicate pads b'='
  pub body_lacks : Lacks b'=' body
  pub few : pads < 4
  pub whole : (length body + pads) % 4 ≡ 0

pub record Codec : Type 0 where
  -- `base64.urlsafe_b64encode(t.encode()).decode()`, and its inverse, which may raise
  pub encode64 : Text → Text
  pub decode64 : Text → Option Text
  -- `ts.isoformat()` and `datetime.fromisoformat(t)`
  pub isoformat : Timestamp → Text
  pub fromisoformat : Text → Option Timestamp
  -- `str(uid)` and `UUID(t)`
  pub uuid_text : Uuid → Text
  pub parse_uuid : Text → Option Uuid
  pub decode64-encode64 : (t : Text) → decode64 (encode64 t) ≡ some t
  pub decode64-nil : decode64 [] ≡ some []
  pub IsPadded-encode64 : (t : Text) → IsPadded (encode64 t)
  pub fromisoformat-isoformat : (ts : Timestamp) → fromisoformat (isoformat ts) ≡ some ts
  pub Lacks-isoformat : (ts : Timestamp) → Lacks b'|' (isoformat ts)
  pub parse_uuid-uuid_text : (uid : Uuid) → parse_uuid (uuid_text uid) ≡ some uid

-- the end of `rstrip`, after the rest was stripped
abbrev pub trim_end : ℕ → ℕ → Text → Text
trim_end c x [] = if x == c then [] else x ∷ []
trim_end c x (y ∷ ys) = x ∷ y ∷ ys

-- `t.rstrip(c)`
unfoldable pub rstrip : ℕ → Text → Text
rstrip c [] = []
rstrip c (x ∷ xs) = trim_end c x (rstrip c xs)

abbrev pub with_first : ℕ → Option (Text × Text) → Option (Text × Text)
with_first x none = none
with_first x (some (a, b)) = some (x ∷ a, b)

-- `t.split(c, 1)`, where it gives two parts
unfoldable pub split_once : ℕ → Text → Option (Text × Text)
split_once c [] = none
split_once c (x ∷ xs) = if x == c then some ([], xs) else with_first x (split_once c xs)

-- `datetime.min.replace(tzinfo=timezone.utc)`
abbrev pub datetime_min : Timestamp
datetime_min = 0

abbrev pub or_min : Option Timestamp → Timestamp
or_min none = datetime_min
or_min (some ts) = ts

abbrev pub or_value_error : {A : Type 0} → Option A → Result A
or_value_error none = err value_error
or_value_error (some a) = ok a

abbrev pub and_then : {A B : Type 0} → Option A → (A → Option B) → Option B
and_then none f = none
and_then (some a) f = f a

abbrev pub some_ok : {A : Type 0} → Result A → Result (Option A)
some_ok (ok a) = ok (some a)
some_ok (err e) = err e

-- `"=" * ((4 - len(cursor) % 4) % 4)`
abbrev pub padding : Text → Text
padding cursor = replicate ((4 - length cursor % 4) % 4) b'='

module _ ⦃codec : Codec⦄ where
  unfoldable pub encode_cursor : Option Timestamp → Uuid → Text
  encode_cursor ts uid =
      rstrip b'=' (codec.encode64 (codec.isoformat (or_min ts) ++ b'|' ∷ codec.uuid_text uid))

  -- Each step that fails raises a ValueError, or an exception that is one.
  unfoldable pub decode_cursor : Text → Result Cursor
  decode_cursor cursor = or_value_error (
      and_then (codec.decode64 (cursor ++ padding cursor)) (λ raw.
        and_then (split_once b'|' raw) (λ (ts_str, uid_str).
          and_then (codec.fromisoformat ts_str)
            (λ ts. and_then (codec.parse_uuid uid_str) (λ uid. some (ts, uid))))))

  -- `if cursor: … = decode_cursor(cursor)`
  unfoldable pub read_cursor : Option Text → Result (Option Cursor)
  read_cursor none = ok none
  read_cursor (some []) = ok none
  read_cursor (some (c ∷ cs)) = some_ok (decode_cursor (c ∷ cs))
