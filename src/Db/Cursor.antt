-- ===== src/Db/Cursor.antt =====
-- infrastructure/db/repositories/_cursor.py: what a cursor says, the pair that `decode_cursor`
-- returns, and the orders and conditions that it goes with. Codec has the text of cursors.
pub mod Codec
pub mod RoundTrip
use leaf_flow_chat.Prelude.{Bool, true, false, ◌&&◌, ◌||◌, Option, none, some, ltb, leb, ◌==◌}
use leaf_flow_chat.Domain.{Uuid, Timestamp}

abbrev pub Cursor : Type 0
Cursor = Timestamp × Uuid

-- ORDER BY time ASC, id ASC
abbrev pub earlier : Timestamp × Uuid → Timestamp × Uuid → Bool
earlier a b = ltb a.0 b.0 || (a.0 == b.0 && leb a.1 b.1)

-- `(time > ts) | ((time == ts) & (id > uid))`
abbrev pub is_later : Cursor → Timestamp × Uuid → Bool
is_later (ts, uid) (time, id) = ltb ts time || (time == ts && ltb uid id)

-- ORDER BY time DESC NULLS LAST, id
abbrev pub more_recent : Option Timestamp × Uuid → Option Timestamp × Uuid → Bool
more_recent (none, i) (none, j) = leb i j
more_recent (none, i) (some t, j) = false
more_recent (some s, i) (none, j) = true
more_recent (some s, i) (some t, j) = ltb t s || (s == t && leb i j)

-- `(time < ts) | ((time == ts) & (id > uid))`; no comparison with NULL is true.
abbrev pub is_older : Cursor → Option Timestamp × Uuid → Bool
is_older cursor (none, id) = false
is_older (ts, uid) (some time, id) = ltb time ts || (time == ts && ltb uid id)
