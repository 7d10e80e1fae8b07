-- ===== src/Tests/Notifications.antt =====
-- A number of Saudi Arabia.
use propza_amlak.Prelude.{◌≡◌, refl, some}
use propza_amlak.Ejar.Payload.Mobile.{
  in_block, is_digit, digits_of, count_chars, starts_with_code, tail,
}
use propza_amlak.Notifications.Phone.{without_zeros, from_local, with_country, normalize_phone}
use propza_amlak.Notifications.Phone.Normal.{IsNormal, normalize_phone-IsNormal}

normalize_phone-IsNormal_example :
    IsNormal "966501234567"
    × (normalize_phone "966501234567" ≡ some "966501234567")
    × (normalize_phone "+966501234567" ≡ some "966501234567")
    × (normalize_phone "00966501234567" ≡ some "966501234567")
unfolding normalize_phone without_zeros from_local with_country digits_of is_digit in_block
    count_chars starts_with_code tail
normalize_phone-IsNormal_example = normalize_phone-IsNormal "050 123-4567" refl
