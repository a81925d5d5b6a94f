-- ===== src/Prelude/Text.antt =====
-- Equality of texts, and the decimal text of a number, as Python's f-strings print it.
use Prim.Native.Nat.{ℕ, zero, suc, ◌/◌, ◌%◌}
use Prim.Native.String.{String, ◌++◌}
use mathlib.Core.Bool.{Bool-discrete, true}
use text.Mathlib.Text
use text.Mathlib.TextEquality.{eq_iff}
use leaf_flow_chat.Prelude.Tests.{ltb, if◌then◌else◌, ◌==◌}

abbrev digit : ℕ → String
digit d =
    if d == 0
    then "0"
    else if d == 1
    then "1"
    else if d == 2
    then "2"
    else if d == 3
    then "3"
    else if d == 4
    then "4"
    else if d == 5
    then "5"
    else if d == 6
    then "6"
    else if d == 7
    then "7"
    else if d == 8
    then "8"
    else "9"

-- The number itself is fuel enough: it has at most so many digits.
str_digits : ℕ → ℕ → String
str_digits zero n = digit n
str_digits (suc fuel) n =
    let rest = str_digits fuel (n / 10) ++ digit (n % 10) in if ltb n 10 then digit n else rest

unfoldable pub str_int : ℕ → String
unfolding str_digits
str_int n = str_digits n n

pub String-discrete : Discrete String
String-discrete s t = elim (Bool-discrete (Text.◌==◌ s t) true) [
  | yes same ↦ yes ((eq_iff s t).0 same)
  | no differ ↦ no (λ p. differ ((eq_iff s t).1 p))
]
