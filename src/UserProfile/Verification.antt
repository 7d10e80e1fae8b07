-- ===== src/UserProfile/Verification.antt =====
-- models/sa_user_verification.py, with the check of a partner's national identity of
-- addons/l10n_sa_ejar/models/res_partner.py. `\d` is that of Ejar/Payload/Mobile; `\s` matches the white space of
-- Unicode; `isdigit` of a text is a parameter. A scan is its content, the empty text if there is none.
pub mod Acceptance
use Prim.Native.Char.{Char, code}
use propza_amlak.Prelude.{
  ℕ, ◌+◌, Bool, true, false, ◌&&◌, ◌||◌, not, Option, none, some, List, [], ◌∷◌, ◌++◌, String,
  is_set, leb, ltb, ◌==◌, if◌then◌else◌, Result, ok, err,
}
use propza_amlak.Ejar.Payload.Mobile.{is_digit, count_chars, starts_with_code, tail}

pub data IdType : Type 0 where
  national_id iqama gcc passport commercial : IdType

pub data VerificationState : Type 0 where
  draft submitted verified rejected : VerificationState

-- The reasons of a rejection.
pub data Flaw : Type 0 where
  bad_national_id bad_iqama bad_gcc bad_passport bad_commercial expired scan_missing : Flaw

pub record Verification : Type 0 where
  pub id_type : IdType
  pub id_number : String
  pub id_expiry : Option ℕ
  pub id_scan : String
  pub state : VerificationState
  pub rejection_reason : List Flaw
  pub verified_date : Option ℕ
  pub submission_date : Option ℕ

-- The identity fields of the partner.
pub record Identity : Type 0 where
  pub sa_id_type : Option IdType
  pub sa_national_id : String
  pub sa_id_expiry : Option ℕ
  pub sa_id_verified : Bool

-- The last two are what the write to the partner raises.
pub data VerificationError : Type 0 where
  not_submittable id_type_refused national_id_refused : VerificationError

-- The characters between two code points.
abbrev within : ℕ → ℕ → Char → Bool
within a b c = leb a (code c) && leb (code c) b

abbrev pub is_space : Char → Bool
is_space c =
    within 9 13 c
    || within 28 32 c
    || code c == 133
    || code c == 160
    || code c == 5760
    || within 8192 8202 c
    || within 8232 8233 c
    || code c == 8239
    || code c == 8287
    || code c == 12288

-- `re.sub(r'[\s\-]', '', s)`
unfoldable pub cleaned : String → String
cleaned String.[] = String.[]
cleaned (String.◌∷◌ c s) =
    let rest = cleaned s in if is_space c || code c == b'-' then rest else String.◌∷◌ c rest

unfoldable pub only_digits : String → Bool
only_digits String.[] = true
only_digits (String.◌∷◌ c s) = is_digit c && only_digits s

-- `^1\d{9}$` and the like, by the code of the first character.
abbrev pub ten_from : ℕ → String → Bool
ten_from n s = starts_with_code (n ∷ []) s && only_digits (tail s) && count_chars s == 10

-- `^\d{10}$`
abbrev pub ten_digits : String → Bool
ten_digits s = only_digits s && count_chars s == 10

abbrev pub unless_valid : Bool → Flaw → List Flaw
unless_valid true f = []
unless_valid false f = f ∷ []

abbrev pub number_flaws : (String → Bool) → IdType → String → List Flaw
number_flaws isdigit national_id s = unless_valid (ten_from b'1' s) bad_national_id
number_flaws isdigit iqama s = unless_valid (ten_from b'2' s) bad_iqama
number_flaws isdigit gcc s = unless_valid (isdigit s && leb 8 (count_chars s)) bad_gcc
number_flaws isdigit passport s = unless_valid (leb 6 (count_chars s)) bad_passport
number_flaws isdigit commercial s = unless_valid (ten_digits s) bad_commercial

abbrev pub is_past : ℕ → Option ℕ → Bool
is_past today none = false
is_past today (some e) = ltb e today

unfoldable pub flaws : (String → Bool) → ℕ → Verification → List Flaw
unfolding cleaned
flaws isdigit today v =
    number_flaws isdigit v.id_type (cleaned v.id_number)
    ++ unless_valid (not (is_past today v.id_expiry)) expired
    ++ unless_valid (is_set v.id_scan) scan_missing

unfoldable pub strip_front : String → String
strip_front String.[] = String.[]
strip_front (String.◌∷◌ c s) =
    let rest = strip_front s in if is_space c then rest else String.◌∷◌ c s

unfoldable pub strip_end : String → String
strip_end String.[] = String.[]
strip_end (String.◌∷◌ c s) =
    let rest = strip_end s in
    if is_space c && not (is_set rest) then String.[] else String.◌∷◌ c rest

-- `s.strip()`
abbrev pub strip : String → String
unfolding strip_front strip_end
strip s = strip_end (strip_front s)

-- Odoo refuses a value that the selection of the partner's `sa_id_type` does not have: it has
-- 'company' in place of 'commercial'.
abbrev pub is_selectable : IdType → Bool
is_selectable commercial = false
is_selectable _ = true

abbrev is_national_number : (String → Bool) → String → Bool
is_national_number isdigit s =
    isdigit s
    && count_chars s == 10
    && (starts_with_code (b'1' ∷ []) s || starts_with_code (b'2' ∷ []) s)

-- `_check_national_id` of the partner
abbrev pub check_national_id : (String → Bool) → IdType → String → Bool
unfolding strip
check_national_id isdigit national_id s = not (is_set s) || is_national_number isdigit (strip s)
check_national_id isdigit _ s = true

-- The write to the partner, after the one to the document; an exception undoes both.
abbrev pub write_partner :
    (String → Bool) → ℕ → Verification → Result VerificationError (Verification × Identity)
unfolding check_national_id
write_partner isdigit now v =
    if not (is_selectable v.id_type)
    then err id_type_refused
    else if not (check_national_id isdigit v.id_type v.id_number)
    then err national_id_refused
    else ok (
      record v { state = verified; rejection_reason = []; verified_date = some now },
      record {
        sa_id_type = some v.id_type;
        sa_national_id = v.id_number;
        sa_id_expiry = v.id_expiry;
        sa_id_verified = true;
      },
    )

abbrev pub decide :
    (String → Bool)
    → ℕ
    → Verification
    → Identity
    → List Flaw
    → Result VerificationError (Verification × Identity)
unfolding write_partner
decide isdigit now v p [] = write_partner isdigit now v
decide isdigit now v p (f ∷ fs) =
    ok (record v { state = rejected; rejection_reason = f ∷ fs; verified_date = none }, p)

unfoldable pub auto_verify :
    (String → Bool)
    → ℕ
    → ℕ
    → Verification
    → Identity
    → Result VerificationError (Verification × Identity)
unfolding flaws decide
auto_verify isdigit today now v p = decide isdigit now v p (flaws isdigit today v)

abbrev pub is_submittable : VerificationState → Bool
is_submittable draft = true
is_submittable rejected = true
is_submittable _ = false

unfoldable pub action_submit :
    (String → Bool)
    → ℕ
    → ℕ
    → Verification
    → Identity
    → Result VerificationError (Verification × Identity)
unfolding auto_verify
action_submit isdigit today now v p =
    if not (is_submittable v.state)
    then err not_submittable
    else auto_verify isdigit today now (record v { submission_date = some now }) p

unfoldable pub action_reset : Verification → Verification
action_reset v = record v { state = draft; rejection_reason = []; verified_date = none }
