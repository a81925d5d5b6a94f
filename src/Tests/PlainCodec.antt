-- ===== src/Tests/PlainCodec.antt =====
-- A codec that computes: numbers are written as strokes, and a text is kept but for its padding and
-- for "=", which each code point from "=" on makes room for.
use leaf_flow_chat.Prelude.{
  ℕ, suc, zero, ◌+◌, ◌-◌, ◌%◌, ◌≡◌, refl, ap, some, [], ◌∷◌, ◌++◌, map, arith, ◌==◌, ltb, length,
  replicate, if◌then◌else◌,
}
use leaf_flow_chat.Db.Cursor.Codec.{Text, Lacks, IsPadded, Codec, padding}

abbrev shift : ℕ → ℕ
shift c = if ltb c b'=' then c else c + 1

abbrev unshift : ℕ → ℕ
unshift c = if ltb c b'=' then c else c - 1

abbrev before_pads : Text → Text
before_pads [] = []
before_pads (x ∷ xs) = let rest = before_pads xs in if x == b'=' then [] else x ∷ rest

abbrev pad : Text → Text
pad t = map shift t ++ padding (map shift t)

unpad : (t : Text) (k : ℕ) → map unshift (before_pads (map shift t ++ replicate k b'=')) ≡ t
unpad [] zero = refl
unpad [] (suc k) = ground arith
unpad (x ∷ xs) k = ground (arith, unpad xs k)

Lacks-shift : (t : Text) → Lacks b'=' (map shift t)
Lacks-shift [] = tt
Lacks-shift (x ∷ xs) = (λ e. ground arith, Lacks-shift xs)

pub IsPadded-pad : (t : Text) → IsPadded (pad t)
IsPadded-pad t = record {
  body = map shift t;
  pads = (4 - length (map shift t) % 4) % 4;
  is_body = refl;
  body_lacks = Lacks-shift t;
  few = omega arith;
  whole = omega arith;
}

abbrev strokes : ℕ → Text
strokes n = replicate n b'1'

length-strokes : (n : ℕ) → length (strokes n) ≡ n
length-strokes zero = refl
length-strokes (suc n) = omega (arith, length-strokes n)

pub Lacks-strokes : (n : ℕ) → Lacks b'|' (strokes n)
Lacks-strokes zero = tt
Lacks-strokes (suc n) = (λ e. omega (arith, e), Lacks-strokes n)

pub unpad-pad : (t : Text) → some (map unshift (before_pads (pad t))) ≡ some t
unpad-pad t = ap some (unpad t _)

pub some-length-strokes : (n : ℕ) → some (length (strokes n)) ≡ some n
some-length-strokes n = ap some (length-strokes n)

instance abbrev pub plain : Codec
plain = record {
  encode64 = pad;
  decode64 = λ t. some (map unshift (before_pads t));
  isoformat = strokes;
  fromisoformat = λ t. some (length t);
  uuid_text = strokes;
  parse_uuid = λ t. some (length t);
  decode64-encode64 = unpad-pad;
  decode64-nil = refl;
  IsPadded-encode64 = IsPadded-pad;
  fromisoformat-isoformat = some-length-strokes;
  Lacks-isoformat = Lacks-strokes;
  parse_uuid-uuid_text = some-length-strokes;
}
