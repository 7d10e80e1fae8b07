-- ===== src/Prelude/Text.antt =====
-- Python's `str` as the native text: truth value, truncation and the decimal digits of an int.
use Prim.Native.Nat.{ℕ, zero, suc, ◌+◌, ◌/◌, ◌%◌}
use Prim.Native.Char.{Char}
use Prim.Native.String.{String}
use mathlib.Core.Bool.{Bool, true, false}
use propza_amlak.Prelude.Tests.{◌==◌, if◌then◌else◌}

-- `bool(s)`: the empty text is false.
abbrev pub is_set : String → Bool
is_set String.[] = false
is_set (String.◌∷◌ c s) = true

-- `s[:n]`
unfoldable pub truncate : ℕ → String → String
truncate zero s = String.[]
truncate (suc n) String.[] = String.[]
truncate (suc n) (String.◌∷◌ c s) = String.◌∷◌ c (truncate n s)

-- `s or t`
abbrev pub or_text : String → String → String
or_text s t = if is_set s then s else t

digit : ℕ → Char
digit n =
    if n == 0
    then "0"
    else if n == 1
    then "1"
    else if n == 2
    then "2"
    else if n == 3
    then "3"
    else if n == 4
    then "4"
    else if n == 5
    then "5"
    else if n == 6
    then "6"
    else if n == 7
    then "7"
    else if n == 8
    then "8"
    else "9"

-- The digits of `n` before `acc`; one round writes one digit, so `n + 1` rounds are enough.
digits : ℕ → ℕ → String → String
digits zero n acc = acc
digits (suc f) n acc =
    let acc' = String.◌∷◌ (digit (n % 10)) acc in
    let rest = digits f (n / 10) acc' in if n / 10 == 0 then acc' else rest

-- `str(n)`
unfoldable pub show : ℕ → String
unfolding digits digit
show n = digits (n + 1) n String.[]
