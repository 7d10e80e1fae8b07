-- ===== src/Ejar/Payload/Mobile.antt =====
-- `_normalize_mobile` of services/payload_builder.py. `\D` matches what is no decimal digit of
-- Unicode: the digits stand in blocks of ten, whose first code points are listed.
use Prim.Native.Char.{Char, code}
use propza_amlak.Prelude.{
  ℕ, suc, ◌+◌, ◌≡◌, refl, ap, ◌∙◌, Bool, true, false, List, [], ◌∷◌, ◌&&◌, ◌||◌, String, arith, leb,
  ltb, ◌==◌, if◌then◌else◌, is_set,
}

abbrev pub digit_blocks : List ℕ
digit_blocks =
    48 ∷ 1632 ∷ 1776 ∷ 1984 ∷ 2406 ∷ 2534 ∷ 2662 ∷ 2790 ∷ 2918 ∷ 3046 ∷ 3174 ∷ 3302 ∷ 3430 ∷ 3558
    ∷ 3664 ∷ 3792 ∷ 3872 ∷ 4160 ∷ 4240 ∷ 6112 ∷ 6160 ∷ 6470 ∷ 6608 ∷ 6784 ∷ 6800 ∷ 6992 ∷ 7088
    ∷ 7232 ∷ 7248 ∷ 42528 ∷ 43216 ∷ 43264 ∷ 43472 ∷ 43504 ∷ 43600 ∷ 44016 ∷ 65296 ∷ 66720 ∷ 68912
    ∷ 69734 ∷ 69872 ∷ 69942 ∷ 70096 ∷ 70384 ∷ 70736 ∷ 70864 ∷ 71248 ∷ 71360 ∷ 71472 ∷ 71904 ∷ 72016
    ∷ 72784 ∷ 73040 ∷ 73120 ∷ 92768 ∷ 92864 ∷ 93008 ∷ 120782 ∷ 120792 ∷ 120802 ∷ 120812 ∷ 120822
    ∷ 123200 ∷ 123632 ∷ 125264 ∷ 130032 ∷ []

unfoldable pub in_block : ℕ → List ℕ → Bool
in_block n [] = false
in_block n (b ∷ bs) = (leb b n && ltb n (b + 10)) || in_block n bs

unfoldable pub is_digit : Char → Bool
unfolding in_block
is_digit c = in_block (code c) digit_blocks

-- `re.sub(r'\D', '', s)`
unfoldable pub digits_of : String → String
digits_of String.[] = String.[]
digits_of (String.◌∷◌ c s) =
    let rest = digits_of s in if is_digit c then String.◌∷◌ c rest else rest

-- `len(s)`
unfoldable pub count_chars : String → ℕ
count_chars String.[] = 0
count_chars (String.◌∷◌ c s) = suc (count_chars s)

unfoldable pub starts_with_code : List ℕ → String → Bool
starts_with_code [] s = true
starts_with_code (n ∷ ns) String.[] = false
starts_with_code (n ∷ ns) (String.◌∷◌ c s) = code c == n && starts_with_code ns s

-- `s[1:]`
unfoldable pub tail : String → String
tail String.[] = String.[]
tail (String.◌∷◌ c s) = s

-- `'+966' + s`
abbrev pub plus_966 : String → String
plus_966 s = String.◌∷◌ "+" (String.◌∷◌ "9" (String.◌∷◌ "6" (String.◌∷◌ "6" s)))

-- The tests on the digits of a number that is not empty.
format : String → String → String
unfolding count_chars starts_with_code tail
format mobile digits =
    if starts_with_code (b'9' ∷ b'6' ∷ b'6' ∷ []) digits
    then String.◌∷◌ "+" digits
    else if starts_with_code (b'0' ∷ []) digits && count_chars digits == 10
    then plus_966 (tail digits)
    else if count_chars digits == 9
    then plus_966 digits
    else mobile

unfoldable pub normalize_mobile : String → String
unfolding digits_of is_digit format
normalize_mobile mobile = if is_set mobile then format mobile (digits_of mobile) else String.[]

format_bare :
    (m d : String)
    → count_chars d ≡ 9
    → starts_with_code (b'9' ∷ b'6' ∷ b'6' ∷ []) d ≡ false
    → format m d ≡ plus_966 d
unfolding format
format_bare m d n h = rw h (ground arith)

format_zero : (m d : String) → count_chars d ≡ 9 → format m (String.◌∷◌ "0" d) ≡ plus_966 d
unfolding format
format_zero m d n = ground arith

format_country :
    (m d : String) → format m (String.◌∷◌ "9" (String.◌∷◌ "6" (String.◌∷◌ "6" d))) ≡ plus_966 d
unfolding format
format_country m d = refl

set_of_digits : (m d : String) (n : ℕ) → digits_of m ≡ d → count_chars d ≡ suc n → is_set m ≡ true
unfolding digits_of count_chars
set_of_digits String.[] d n e h = absurd (omega (arith, ap count_chars e))
set_of_digits (String.◌∷◌ c m) d n e h = refl

normalize_set : (m d : String) → is_set m ≡ true → digits_of m ≡ d → normalize_mobile m ≡ format m d
unfolding normalize_mobile
normalize_set m d s e = rw s (ap (format m) e)

-- A number of nine digits that does not begin with 966 is sent as +966 and its digits, whether it
-- was written bare, with a leading 0 or with the country code, with any separators.
normalize_mobile_spellings :
    (m d : String)
    → count_chars d ≡ 9
    → starts_with_code (b'9' ∷ b'6' ∷ b'6' ∷ []) d ≡ false
    → (digits_of m ≡ d → normalize_mobile m ≡ plus_966 d)
      × (digits_of m ≡ String.◌∷◌ "0" d → normalize_mobile m ≡ plus_966 d)
      × (digits_of m ≡ String.◌∷◌ "9" (String.◌∷◌ "6" (String.◌∷◌ "6" d))
          → normalize_mobile m ≡ plus_966 d)
normalize_mobile_spellings m d n h = (
  λ e. normalize_set m _ (set_of_digits m _ 8 e n) e ∙ format_bare m d n h,
  λ e. normalize_set m _ (set_of_digits m _ 9 e (longer 9 n)) e ∙ format_zero m d n,
  λ e. normalize_set m _ (set_of_digits m _ 11 e (longest 9 n)) e ∙ format_country m d,
)
  where
    longer : (k : ℕ) → count_chars d ≡ k → count_chars (String.◌∷◌ "0" d) ≡ suc k
    longer k p = unfold count_chars in ap suc p

    longest :
        (k : ℕ)
        → count_chars d ≡ k
        → count_chars (String.◌∷◌ "9" (String.◌∷◌ "6" (String.◌∷◌ "6" d))) ≡ suc (suc (suc k))
    longest k p = unfold count_chars in ap (λ x. suc (suc (suc x))) p
