-- ===== src/Tests/UserProfile.antt =====
-- A national identity card.
use propza_amlak.Prelude.{◌≡◌, ok, refl, true, false, some, none, []}
use propza_amlak.Ejar.Payload.Mobile.{in_block, is_digit, count_chars, starts_with_code, tail}
use propza_amlak.UserProfile.Verification.{
  national_id, draft, verified, Verification, Identity, cleaned, only_digits, flaws, strip_front,
  strip_end, auto_verify, action_submit,
}
use propza_amlak.UserProfile.Verification.Acceptance.{Ends, action_submit-Ends}

abbrev card : Verification
card = record {
  id_type = national_id;
  id_number = "1034567890";
  id_expiry = some 500;
  id_scan = "jpg";
  state = draft;
  rejection_reason = [];
  verified_date = none;
  submission_date = none;
}

abbrev unknown : Identity
unknown = record {
  sa_id_type = none;
  sa_national_id = "";
  sa_id_expiry = none;
  sa_id_verified = false;
}

action_submit-Ends_example :
    Ends (λ s. true) 400 card unknown (action_submit (λ s. true) 400 9 card unknown)
action_submit-Ends_example = action_submit-Ends (λ s. true) 400 9 card unknown refl

-- The card and the identity after the submission.
abbrev accepted : Verification
accepted = record card { state = verified; verified_date = some 9; submission_date = some 9 }

abbrev known : Identity
known = record {
  sa_id_type = some national_id;
  sa_national_id = "1034567890";
  sa_id_expiry = some 500;
  sa_id_verified = true;
}

accepted_run : action_submit (λ s. true) 400 9 card unknown ≡ ok (accepted, known)
unfolding action_submit auto_verify flaws cleaned only_digits is_digit in_block count_chars
    starts_with_code tail strip_front strip_end
accepted_run = refl
