-- ===== src/Sadad/BillNumber.antt =====
-- `_luhn_check_digit` and `_generate_bill_number` of models/sa_sadad_invoice.py. A text of digits is
-- the list of its digits; a character of the biller's code is what `int` reads it as, if anything.
pub mod Laws
use propza_amlak.Prelude.{
  ℕ, zero, suc, ◌+◌, ◌-◌, ◌*◌, ◌/◌, ◌%◌, Option, none, some, List, [], ◌∷◌, ◌++◌, length, ltb, ◌==◌,
  if◌then◌else◌,
}

-- The term of a digit with `k` characters from it to the end.
abbrev pub term : ℕ → ℕ → ℕ
term k d = if k % 2 == 0 then (if ltb 9 (d * 2) then d * 2 - 9 else d * 2) else d

pub luhn_sum : List ℕ → ℕ
luhn_sum [] = 0
luhn_sum (d ∷ ds) = term (suc (length ds)) d + luhn_sum ds

abbrev pub luhn_check_digit : List ℕ → ℕ
unfolding luhn_sum
luhn_check_digit payload = (10 - luhn_sum payload % 10) % 10

-- The digits of `n` before `acc`, none for 0; one round writes one digit, so `n` rounds are enough.
digits_before : ℕ → ℕ → List ℕ → List ℕ
digits_before zero n acc = acc
digits_before (suc f) n acc =
    let rest = digits_before f (n / 10) (n % 10 ∷ acc) in if n == 0 then acc else rest

-- `'%05d' % n`: five digits, and more in front where the number has more.
unfoldable pub five_digits : ℕ → List ℕ
unfolding digits_before
five_digits n =
    digits_before (n / 100000) (n / 100000)
      (n / 10000 % 10 ∷ n / 1000 % 10 ∷ n / 100 % 10 ∷ n / 10 % 10 ∷ n % 10 ∷ [])

-- `s[:n]`
abbrev pub take {ℓ} : {A : Type ℓ} → ℕ → List A → List A
take zero ds = []
take (suc n) [] = []
take (suc n) (d ∷ ds) = d ∷ take n ds

abbrev nine : Option ℕ
nine = some 9

abbrev nought : Option ℕ
nought = some 0

-- `biller_code or '9999'`
abbrev pub or_default : List (Option ℕ) → List (Option ℕ)
or_default [] = nine ∷ nine ∷ nine ∷ nine ∷ []
or_default (c ∷ cs) = c ∷ cs

-- `s.zfill(4)`; a sign in front, which `int` does not read either way, need not be told apart.
abbrev pub zfill_four : List (Option ℕ) → List (Option ℕ)
zfill_four [] = nought ∷ nought ∷ nought ∷ nought ∷ []
zfill_four (a ∷ []) = nought ∷ nought ∷ nought ∷ a ∷ []
zfill_four (a ∷ b ∷ []) = nought ∷ nought ∷ a ∷ b ∷ []
zfill_four (a ∷ b ∷ c ∷ []) = nought ∷ a ∷ b ∷ c ∷ []
zfill_four (a ∷ b ∷ c ∷ d ∷ ds) = a ∷ b ∷ c ∷ d ∷ ds

abbrev map_option : (List ℕ → List ℕ) → Option (List ℕ) → Option (List ℕ)
map_option f none = none
map_option f (some ds) = some (f ds)

-- `int(ch)` of each character; `none` is the ValueError.
abbrev pub read_digits : List (Option ℕ) → Option (List ℕ)
read_digits [] = some []
read_digits (none ∷ cs) = none
read_digits (some d ∷ cs) = map_option (λ ds. d ∷ ds) (read_digits cs)

abbrev pub bill_base : ℕ → ℕ → List ℕ
unfolding five_digits
bill_base payment partner = take 10 (five_digits payment ++ five_digits partner)

-- The biller's code, the identifiers of the payment and of the partner, and the check digit.
abbrev pub with_check : List ℕ → List ℕ
unfolding luhn_sum
with_check payload = payload ++ luhn_check_digit payload ∷ []

unfoldable pub generate_bill_number : List (Option ℕ) → ℕ → ℕ → Option (List ℕ)
unfolding five_digits with_check
generate_bill_number biller_code payment partner =
    map_option (λ biller. with_check (biller ++ bill_base payment partner))
      (read_digits (take 4 (zfill_four (or_default biller_code))))
