-- ===== src/Db/Cursor/RoundTrip.antt =====
-- A cursor's text read back.
use leaf_flow_chat.Prelude.{
  ℕ, suc, zero, ◌-◌, ◌%◌, ◌≡◌, ◌≢◌, refl, sym, ap, ◌∙◌, Option, some, [], ◌∷◌, ◌++◌, arith, length,
  replicate,
}
use leaf_flow_chat.Domain.{Uuid, Timestamp}
use leaf_flow_chat.Errors.{ok, err, value_error}
use leaf_flow_chat.Db.Cursor.{Cursor}
use leaf_flow_chat.Db.Cursor.Codec.{
  Text, Lacks, IsPadded, Codec, rstrip, split_once, or_min, encode_cursor, padding, decode_cursor,
  read_cursor,
}

rstrip-replicate : (c k : ℕ) → rstrip c (replicate k c) ≡ []
unfolding rstrip
rstrip-replicate c zero = refl
rstrip-replicate c (suc k) = ground (arith, rstrip-replicate c k)

rstrip-append : (c k : ℕ) (body : Text) → Lacks c body → rstrip c (body ++ replicate k c) ≡ body
unfolding rstrip
rstrip-append c k [] h = rstrip-replicate c k
rstrip-append c k (x ∷ []) h = ground (arith, rstrip-replicate c k)
rstrip-append c k (x ∷ y ∷ ys) h = ground (arith, rstrip-append c k (y ∷ ys))

split_once-append : (c : ℕ) (a b : Text) → Lacks c a → split_once c (a ++ c ∷ b) ≡ some (a, b)
unfolding split_once
split_once-append c [] b h = ground arith
split_once-append c (x ∷ a) b h = ground (arith, split_once-append c a b)

-- What `rstrip` takes off, the padding puts on again.
padded_again : (t : Text) → IsPadded t → rstrip b'=' t ++ padding (rstrip b'=' t) ≡ t
padded_again t p =
    let stripped : rstrip b'=' t ≡ p.body =
      ap (rstrip b'=') p.is_body ∙ rstrip-append b'=' p.pads p.body p.body_lacks in
    let count : (4 - length p.body % 4) % 4 ≡ p.pads = omega (arith, p.few, p.whole) in
    rw stripped (ap (λ k. p.body ++ replicate k b'=') count ∙ sym p.is_body)

module _ ⦃codec : Codec⦄ where
  -- The text of a cursor reads back as the time and the identifier that it was made of, the earliest
  -- time standing for None.
  pub decode_cursor-encode_cursor :
      (ts : Option Timestamp) (uid : Uuid)
      → decode_cursor (encode_cursor ts uid) ≡ ok (or_min ts, uid)
  unfolding encode_cursor decode_cursor
  decode_cursor-encode_cursor ts uid =
      let raw : Text = codec.isoformat (or_min ts) ++ b'|' ∷ codec.uuid_text uid in
      rw (padded_again (codec.encode64 raw) (codec.IsPadded-encode64 raw)) (
        rw (codec.decode64-encode64 raw) (
          rw
            (split_once-append b'|' (codec.isoformat (or_min ts)) (codec.uuid_text uid)
              (codec.Lacks-isoformat (or_min ts)))
            (rw (codec.fromisoformat-isoformat (or_min ts))
              (rw (codec.parse_uuid-uuid_text uid) refl))))

  -- No cursor is the empty text, which `if cursor:` would pass over.
  encode_cursor-ne-nil : (ts : Option Timestamp) (uid : Uuid) → encode_cursor ts uid ≢ []
  encode_cursor-ne-nil ts uid empty =
      absurd (cc (sym (decode_cursor-encode_cursor ts uid) ∙ ap decode_cursor empty ∙ decode-nil))
    where
      decode-nil : decode_cursor [] ≡ err value_error
      decode-nil = unfold decode_cursor split_once in rw codec.decode64-nil refl

  read_cursor-decode :
      (t : Text) (c : Cursor) → t ≢ [] → decode_cursor t ≡ ok c → read_cursor (some t) ≡ ok (some c)
  unfolding read_cursor
  read_cursor-decode [] c ne h = absurd (ne refl)
  read_cursor-decode (x ∷ xs) c ne h = rw h refl

  pub read_cursor-encode_cursor :
      (ts : Option Timestamp) (uid : Uuid)
      → read_cursor (some (encode_cursor ts uid)) ≡ ok (some (or_min ts, uid))
  read_cursor-encode_cursor ts uid =
      read_cursor-decode (encode_cursor ts uid) (or_min ts, uid) (encode_cursor-ne-nil ts uid)
        (decode_cursor-encode_cursor ts uid)
