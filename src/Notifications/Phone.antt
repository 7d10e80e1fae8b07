-- ===== src/Notifications/Phone.antt =====
-- `_normalize_phone` and `_partner_phone` of models/messaging_gateway.py, and the choice of a provider
-- there. `\D`, `len` and the like are those of Ejar/Payload/Mobile. The value of a parameter comes
-- stripped and in lower case; what a provider answers is a parameter.
pub mod Normal
use text.Mathlib.Text.{◌==◌ as str_eq}
use propza_amlak.Prelude.{
  ℕ, ◌==◌, Bool, true, false, ◌&&◌, ◌||◌, Option, none, some, List, [], ◌∷◌, String, is_set,
  or_text, leb, if◌then◌else◌,
}
use propza_amlak.Ejar.Payload.Mobile.{digits_of, count_chars, starts_with_code, tail}

-- `'966' + s`
abbrev pub prefix_966 : String → String
prefix_966 s = String.◌∷◌ "9" (String.◌∷◌ "6" (String.◌∷◌ "6" s))

abbrev pub has_966 : String → Bool
has_966 s = starts_with_code (b'9' ∷ b'6' ∷ b'6' ∷ []) s

unfoldable pub without_zeros : String → String
without_zeros s = if starts_with_code (b'0' ∷ b'0' ∷ []) s then tail (tail s) else s

unfoldable pub from_local : String → String
from_local s =
    if starts_with_code (b'0' ∷ []) s && count_chars s == 10 then prefix_966 (tail s) else s

unfoldable pub with_country : String → String
with_country s = if has_966 s then s else prefix_966 s

abbrev pub of_length : String → Option String
of_length s = if leb 11 (count_chars s) && leb (count_chars s) 13 then some s else none

unfoldable pub normalize_phone : String → Option String
unfolding without_zeros from_local with_country
normalize_phone p =
    if is_set p then of_length (with_country (from_local (without_zeros (digits_of p)))) else none

-- `_partner_phone` of a partner's two numbers.
abbrev pub partner_phone : String → String → String
partner_phone mobile phone = or_text mobile phone

pub data Provider : Type 0 where
  unifonic ultramsg disabled : Provider

-- The parameters of the configuration, and what the services answer to a number and a message.
pub record Gateway : Type 0 where
  pub messaging_provider : String
  pub unifonic_enabled : Bool
  pub whatsapp_enabled : Bool
  pub sms_enabled : Bool
  pub unifonic_send_whatsapp : String → String → Bool
  pub unifonic_send_sms : String → String → Bool
  pub ultramsg_send_whatsapp : String → String → Bool

unfoldable pub get_provider : Gateway → Provider
get_provider g =
    if str_eq g.messaging_provider "unifonic"
    then unifonic
    else if str_eq g.messaging_provider "ultramsg"
    then ultramsg
    else if str_eq g.messaging_provider "disabled"
    then disabled
    else if g.unifonic_enabled
    then unifonic
    else disabled

-- `_send_whatsapp_sms`; the disabled gateway sends nothing.
unfoldable pub send_whatsapp_sms : Gateway → String → String → Bool
unfolding get_provider
send_whatsapp_sms g phone message = elim (get_provider g) [
  | unifonic ↦
      (g.whatsapp_enabled && g.unifonic_send_whatsapp phone message)
      || (g.sms_enabled && g.unifonic_send_sms phone message)
  | ultramsg ↦ g.ultramsg_send_whatsapp phone message
  | disabled ↦ false
]
