-- ===== src/Notifications/Phone/Normal.antt =====
-- What a normalised number looks like.
use mathlib.Core.Path.{subst}
use propza_amlak.Prelude.{
  ◌≤◌, ◌≡◌, refl, sym, ap, ◌∙◌, Bool, true, false, Bool-cases, inl, inr, ◌&&◌, some, [], ◌∷◌,
  String, is_set, arith, ◌==◌,
}
use propza_amlak.Ejar.Payload.Mobile.{
  in_block, is_digit, digits_of, count_chars, starts_with_code, tail,
}
use propza_amlak.Notifications.Phone.{
  prefix_966, has_966, without_zeros, from_local, with_country, of_length, normalize_phone,
}

abbrev pub all_digits : String → Bool
all_digits String.[] = true
all_digits (String.◌∷◌ c s) = is_digit c && all_digits s

digits_of-all_digits : (s : String) → all_digits (digits_of s) ≡ true
unfolding digits_of
digits_of-all_digits String.[] = refl
digits_of-all_digits (String.◌∷◌ c s) = elim (Bool-cases (is_digit c)) [
  | inl h ↦ rw h (rw h (digits_of-all_digits s))
  | inr h ↦ rw h (digits_of-all_digits s)
]

all_digits-digits_of : (s : String) → all_digits s ≡ true → digits_of s ≡ s
unfolding digits_of
all_digits-digits_of String.[] h = refl
all_digits-digits_of (String.◌∷◌ c s) h = elim (Bool-cases (is_digit c)) [
  | inl d ↦ rw d (ap (λ t. String.◌∷◌ c t) (all_digits-digits_of s (ground arith)))
  | inr d ↦ absurd (ground arith)
]

tail-all_digits : (s : String) → all_digits s ≡ true → all_digits (tail s) ≡ true
unfolding tail
tail-all_digits String.[] h = refl
tail-all_digits (String.◌∷◌ c s) h = ground arith

prefix-all_digits : (s : String) → all_digits s ≡ true → all_digits (prefix_966 s) ≡ true
unfolding is_digit in_block
prefix-all_digits s h = h

-- The steps keep digits.
without_zeros-all_digits : (s : String) → all_digits s ≡ true → all_digits (without_zeros s) ≡ true
unfolding without_zeros
without_zeros-all_digits s h =
    ground (arith, tail-all_digits s h, tail-all_digits (tail s) (tail-all_digits s h))

from_local-all_digits : (s : String) → all_digits s ≡ true → all_digits (from_local s) ≡ true
unfolding from_local
from_local-all_digits s h =
    elim (Bool-cases (starts_with_code (b'0' ∷ []) s && count_chars s == 10)) [
      | inl b ↦ rw b (prefix-all_digits (tail s) (tail-all_digits s h))
      | inr b ↦ rw b h
    ]

with_country-all_digits : (s : String) → all_digits s ≡ true → all_digits (with_country s) ≡ true
unfolding with_country
with_country-all_digits s h = elim (Bool-cases (has_966 s)) [
  | inl b ↦ rw b h
  | inr b ↦ rw b (prefix-all_digits s h)
]

prefix-has_966 : (s : String) → has_966 (prefix_966 s) ≡ true
unfolding starts_with_code
prefix-has_966 s = refl

with_country-has_966 : (s : String) → has_966 (with_country s) ≡ true
unfolding with_country
with_country-has_966 s = elim (Bool-cases (has_966 s)) [
  | inl b ↦ rw b b
  | inr b ↦ rw b (prefix-has_966 s)
]

-- What has the form of a normalised number.
pub record IsNormal (d : String) : Type 0 where
  pub of_digits : all_digits d ≡ true
  pub of_country : has_966 d ≡ true
  pub long : 11 ≤ count_chars d
  pub short : count_chars d ≤ 13

not_zero : (s : String) → has_966 s ≡ true → starts_with_code (b'0' ∷ []) s ≡ false
unfolding starts_with_code
not_zero String.[] h = refl
not_zero (String.◌∷◌ c s) h = ground arith

not_double_zero : (s : String) → has_966 s ≡ true → starts_with_code (b'0' ∷ b'0' ∷ []) s ≡ false
unfolding starts_with_code
not_double_zero String.[] h = refl
not_double_zero (String.◌∷◌ c s) h = ground arith

has_966-set : (s : String) → has_966 s ≡ true → is_set s ≡ true
unfolding starts_with_code
has_966-set String.[] h = absurd (ground arith)
has_966-set (String.◌∷◌ c s) h = refl

of_length-count :
    (s : String) {d : String}
    → of_length s ≡ some d
    → (s ≡ d) × (11 ≤ count_chars s) × (count_chars s ≤ 13)
of_length-count s h = ground arith

count-of_length : (s : String) → 11 ≤ count_chars s → count_chars s ≤ 13 → of_length s ≡ some s
count-of_length s h k = ground arith

-- The steps leave a normalised number as it is.
settled :
    (d : String) → IsNormal d → of_length (with_country (from_local (without_zeros d))) ≡ some d
unfolding without_zeros from_local with_country
settled d h =
    rw (not_double_zero d h.of_country)
      (rw (not_zero d h.of_country) (rw (h.of_country) (count-of_length d h.long h.short)))

normalize_digits :
    (p d : String) → is_set p ≡ true → digits_of p ≡ d → IsNormal d → normalize_phone p ≡ some d
unfolding normalize_phone
normalize_digits p d s e h =
    rw s (ap (λ x. of_length (with_country (from_local (without_zeros x)))) e ∙ settled d h)

formed :
    (s d : String)
    → all_digits s ≡ true
    → of_length (with_country (from_local (without_zeros s))) ≡ some d
    → IsNormal d
formed s d a h =
    let t = with_country (from_local (without_zeros s)) in
    let b =
      with_country-all_digits (from_local (without_zeros s))
        (from_local-all_digits (without_zeros s) (without_zeros-all_digits s a)) in
    let (e, l, k) = of_length-count t h in
    subst IsNormal e (record {
      of_digits = b;
      of_country = with_country-has_966 (from_local (without_zeros s));
      long = l;
      short = k;
    })

normalize_given :
    (p : String) {d : String}
    → normalize_phone p ≡ some d
    → of_length (with_country (from_local (without_zeros (digits_of p)))) ≡ some d
unfolding normalize_phone
normalize_given String.[] h = absurd (ground arith)
normalize_given (String.◌∷◌ c s) h = h

plus-digits_of : (d : String) → digits_of (String.◌∷◌ "+" d) ≡ digits_of d
unfolding digits_of is_digit in_block
plus-digits_of d = refl

zeros-digits_of :
    (d : String)
    → digits_of (String.◌∷◌ "0" (String.◌∷◌ "0" d)) ≡ String.◌∷◌ "0" (String.◌∷◌ "0" (digits_of d))
unfolding digits_of is_digit in_block
zeros-digits_of d = refl

zeros-without :
    (d : String)
    → has_966 d ≡ true
    → without_zeros (String.◌∷◌ "0" (String.◌∷◌ "0" d)) ≡ without_zeros d
unfolding without_zeros starts_with_code tail
zeros-without d h = sym (rw (not_double_zero d h) refl)

normalize_zeros :
    (d : String) → IsNormal d → normalize_phone (String.◌∷◌ "0" (String.◌∷◌ "0" d)) ≡ some d
unfolding normalize_phone
normalize_zeros d n =
    ap (λ x. of_length (with_country (from_local (without_zeros x))))
      (zeros-digits_of d
        ∙ ap (λ x. String.◌∷◌ "0" (String.◌∷◌ "0" x)) (all_digits-digits_of d n.of_digits))
    ∙ ap (λ x. of_length (with_country (from_local x))) (zeros-without d n.of_country)
    ∙ settled d n

-- A number that is normalised consists of 11 to 13 digits, the first of which are 966; normalising it
-- again gives it again, and so do its spellings with a plus or with 00 before it.
pub normalize_phone-IsNormal :
    (p : String) {d : String}
    → normalize_phone p ≡ some d
    → IsNormal d
      × (normalize_phone d ≡ some d)
      × (normalize_phone (String.◌∷◌ "+" d) ≡ some d)
      × (normalize_phone (String.◌∷◌ "0" (String.◌∷◌ "0" d)) ≡ some d)
normalize_phone-IsNormal p {d} h =
    let n = formed (digits_of p) d (digits_of-all_digits p) (normalize_given p h) in
    (
      n,
      normalize_digits d d (has_966-set d n.of_country) (all_digits-digits_of d n.of_digits) n,
      normalize_digits (String.◌∷◌ "+" d) d refl
          (plus-digits_of d ∙ all_digits-digits_of d n.of_digits) n,
      normalize_zeros d n,
    )
