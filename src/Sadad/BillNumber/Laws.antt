-- ===== src/Sadad/BillNumber/Laws.antt =====
-- What the check digit detects, and what can be read back from a bill's number.
use propza_amlak.Prelude.{
  ℕ, zero, suc, ◌+◌, ◌-◌, ◌*◌, ◌/◌, ◌%◌, ◌<◌, ◌≡◌, ◌≢◌, refl, sym, ap, ◌∙◌, Bool, true, ◌&&◌,
  Option, none, some, is_some, List, [], ◌∷◌, ◌++◌, length, length-append, arith,
}
use propza_amlak.Sadad.BillNumber.{
  term, luhn_sum, luhn_check_digit, digits_before, five_digits, take, bill_base, with_check,
  generate_bill_number,
}

-- The terms of the digits that stand before `n` others.
luhn_prefix : ℕ → List ℕ → ℕ
luhn_prefix n [] = 0
luhn_prefix n (d ∷ ds) = term (suc (length ds + n)) d + luhn_prefix n ds

luhn_sum-append : (xs ys : List ℕ) → luhn_sum (xs ++ ys) ≡ luhn_prefix (length ys) xs + luhn_sum ys
unfolding luhn_sum luhn_prefix
luhn_sum-append [] ys = omega arith
luhn_sum-append (x ∷ xs) ys = rw (length-append xs ys) (omega (arith, luhn_sum-append xs ys))

term_below : (k d : ℕ) → d < 10 → term k d < 10
term_below k d h = ground arith

term_injective : (k a b : ℕ) → a < 10 → b < 10 → term k a ≡ term k b → a ≡ b
term_injective k a b p q e = ground arith

-- Two sums that differ by less than ten have different check digits.
check_differs :
    (p a b s : ℕ)
    → a < 10
    → b < 10
    → a ≢ b
    → (10 - (p + (a + s)) % 10) % 10 ≢ (10 - (p + (b + s)) % 10) % 10
check_differs p a b s x y n e = n (omega arith)

-- The check digit of digits is a digit, it completes the sum of the payload to a multiple of ten, and it tells
-- two payloads apart that differ in one digit, wherever that is.
pub check_digit-detects :
    (xs ys : List ℕ) (a b : ℕ)
    → a < 10
    → b < 10
    → a ≢ b
    → (luhn_check_digit (xs ++ a ∷ ys) < 10)
      × ((luhn_sum (xs ++ a ∷ ys) + luhn_check_digit (xs ++ a ∷ ys)) % 10 ≡ 0)
      × (luhn_check_digit (xs ++ a ∷ ys) ≢ luhn_check_digit (xs ++ b ∷ ys))
unfolding luhn_check_digit luhn_sum
check_digit-detects xs ys a b p q n = (omega arith, omega arith, differ)
  where
    differ : luhn_check_digit (xs ++ a ∷ ys) ≢ luhn_check_digit (xs ++ b ∷ ys)
    differ e =
        check_differs (luhn_prefix (suc (length ys)) xs) (term (suc (length ys)) a)
          (term (suc (length ys)) b) (luhn_sum ys) (term_below _ a p) (term_below _ b q)
          (λ t. n (term_injective _ a b p q t))
          (sym (ap (λ s. (10 - s % 10) % 10) (luhn_sum-append xs (a ∷ ys)))
            ∙ e
            ∙ ap (λ s. (10 - s % 10) % 10) (luhn_sum-append xs (b ∷ ys)))

-- The number that digits write.
abbrev pub value : List ℕ → ℕ → ℕ
value [] acc = acc
value (d ∷ ds) acc = value ds (acc * 10 + d)

abbrev drop : ℕ → List ℕ → List ℕ
drop zero ds = ds
drop (suc n) [] = []
drop (suc n) (d ∷ ds) = drop n ds

-- The identifiers, read from the places 5 to 9 and 10 to 14.
abbrev pub payment_in : List ℕ → ℕ
payment_in ds = value (take 5 (drop 4 ds)) 0

abbrev pub partner_in : List ℕ → ℕ
partner_in ds = value (take 5 (drop 9 ds)) 0

exactly_five :
    (n : ℕ)
    → n < 100000
    → five_digits n ≡ n / 10000 % 10 ∷ n / 1000 % 10 ∷ n / 100 % 10 ∷ n / 10 % 10 ∷ n % 10 ∷ []
unfolding five_digits digits_before
exactly_five n h = rw (small n h) refl
  where
    small : (m : ℕ) → m < 100000 → m / 100000 ≡ 0
    small m l = omega arith

value_five :
    (n : ℕ)
    → n < 100000
    → value (n / 10000 % 10 ∷ n / 1000 % 10 ∷ n / 100 % 10 ∷ n / 10 % 10 ∷ n % 10 ∷ []) 0 ≡ n
value_five n h = omega arith

-- What is read back from four digits, ten of the identifiers, and a check digit.
read_back :
    (a b c d payment partner : ℕ) (check : List ℕ)
    → payment < 100000
    → partner < 100000
    → let number = (a ∷ b ∷ c ∷ d ∷ []) ++ bill_base payment partner ++ check in
      (payment_in number ≡ payment) × (partner_in number ≡ partner)
unfolding bill_base
read_back a b c d payment partner check p q =
    rw (exactly_five payment p, exactly_five partner q) (value_five payment p, value_five partner q)

-- Every character of a code is a digit.
abbrev pub is_numeric : List (Option ℕ) → Bool
is_numeric [] = true
is_numeric (c ∷ cs) = is_some c && is_numeric cs

abbrev Named : Option (List ℕ) → ℕ → ℕ → Type 0
Named o payment partner =
    (number : List ℕ) × (o ≡ some number)
    × (payment_in number ≡ payment)
    × (partner_in number ≡ partner)

four_digits :
    (a b c d payment partner : ℕ)
    → payment < 100000
    → partner < 100000
    → Named (some (with_check ((a ∷ b ∷ c ∷ d ∷ []) ++ bill_base payment partner))) payment partner
unfolding with_check
four_digits a b c d payment partner p q =
    let (m, n) = read_back a b c d payment partner _ p q in
    (with_check ((a ∷ b ∷ c ∷ d ∷ []) ++ bill_base payment partner), refl, m, n)

-- Where the biller's code is one of digits, of whatever length, or is empty, and the identifiers of the
-- payment and of the partner are below 100000, a number is made, and both identifiers are read back
-- from it.
pub bill_number-read_back :
    (biller_code : List (Option ℕ)) (payment partner : ℕ)
    → is_numeric biller_code ≡ true
    → payment < 100000
    → partner < 100000
    → (number : List ℕ) × (generate_bill_number biller_code payment partner ≡ some number)
      × (payment_in number ≡ payment)
      × (partner_in number ≡ partner)
unfolding generate_bill_number
bill_number-read_back [] m n h p q = four_digits 9 9 9 9 m n p q
bill_number-read_back (some a ∷ []) m n h p q = four_digits 0 0 0 a m n p q
bill_number-read_back (some a ∷ some b ∷ []) m n h p q = four_digits 0 0 a b m n p q
bill_number-read_back (some a ∷ some b ∷ some c ∷ []) m n h p q = four_digits 0 a b c m n p q
bill_number-read_back (some a ∷ some b ∷ some c ∷ some d ∷ ds) m n h p q =
    four_digits a b c d m n p q
bill_number-read_back (none ∷ cs) m n h p q = absurd (ground arith)
bill_number-read_back (some a ∷ none ∷ cs) m n h p q = absurd (ground arith)
bill_number-read_back (some a ∷ some b ∷ none ∷ cs) m n h p q = absurd (ground arith)
bill_number-read_back (some a ∷ some b ∷ some c ∷ none ∷ cs) m n h p q = absurd (ground arith)
