-- ===== src/Ejar/Payload.antt =====
-- services/payload_builder.py: the attributes that are sent for a contract, its parties and its
-- finances.
pub mod Mobile
use Prim.Native.String.{◌++◌}
use propza_amlak.Prelude.{
  ℕ, ◌-◌, Bool, true, false, Option, none, some, List, [], ◌∷◌, ◌||◌, String, ltb, if◌then◌else◌,
  is_set, is_some, or_text, Result, ok, err,
}
use propza_amlak.Ejar.Errors.Classes.{payload_error}
use propza_amlak.Ejar.Errors.Status.{EjarError, make_error}
use propza_amlak.Ejar.Contract.Types.{
  Role, lessor, tenant, lessor_representative, tenant_representative, EntityType, individual,
  organization, Party, Profile, Contract,
}
use propza_amlak.Ejar.Payload.Mobile.{normalize_mobile}

-- A value of an attribute. An amount is in the smallest unit, so that rounding it to two decimals
-- keeps it; `years n` is the quotient of n days by 365, rounded to four decimals.
pub data Value : Type 0 where
  text : String → Value
  amount day years : ℕ → Value
  flag : Bool → Value
  null : Value

abbrev pub Attributes : Type 0
Attributes = List (String × Value)

-- `_require`; `present` is the truth of the value (0 passes too, so no number is refused).
abbrev require : Bool → String → Result EjarError Attributes → Result EjarError Attributes
require true name rest = rest
require false name rest = err (make_error payload_error ("Required field is empty: " ++ name))

abbrev optional_day : Option ℕ → Value
optional_day none = null
optional_day (some d) = day d

abbrev optional_text : String → Value
optional_text s = if is_set s then text s else null

abbrev pub role_text : Role → String
role_text lessor = "lessor"
role_text tenant = "tenant"
role_text lessor_representative = "lessor_representative"
role_text tenant_representative = "tenant_representative"

abbrev pub is_representative : Role → Bool
is_representative lessor_representative = true
is_representative tenant_representative = true
is_representative _ = false

abbrev entity_type_text : EntityType → String
entity_type_text individual = "individual_entities"
entity_type_text organization = "organization_entities"

-- `duration_years` before its rounding, by the days from start to end.
abbrev duration : Option ℕ → Option ℕ → ℕ
duration none e = 0
duration (some s) none = 0
duration (some s) (some e) = e - s

unfoldable pub build_contract_attributes : Contract → Result EjarError Attributes
build_contract_attributes c = require (is_some c.start_date) "start_date" (
    require (is_some c.end_date) "end_date" (
      ok (
        ("contract_type", text (or_text c.contract_type "residential"))
        ∷ ("sub_type", text (or_text c.contract_sub_type "main"))
        ∷ ("use_type", text (or_text c.use_type "residential_families"))
        ∷ ("contract_start_date", optional_day c.start_date)
        ∷ ("contract_end_date", optional_day c.end_date)
        ∷ ("number_of_years", years (duration c.start_date c.end_date))
        ∷ ("sublease_allowed", flag c.sublease_allowed)
        ∷ ("custom_terms_accepted", flag (is_set c.custom_terms))
        ∷ [])))

-- `_get_party(contract, role='lessor')`, and its IBAN if there is one.
abbrev lessor_iban : List Party → String
lessor_iban [] = String.[]
lessor_iban (p ∷ ps) = elim p.role [ lessor ↦ p.iban | _ ↦ lessor_iban ps ]

unfoldable pub build_financial_attributes : Contract → Result EjarError Attributes
build_financial_attributes c = require (is_set c.payment_schedule) "payment_schedule" (
    ok (
      ("annual_rent", amount c.rent_amount)
      ∷ ("billing_type", text c.payment_schedule)
      ∷ ("payment_option", text (or_text c.payment_option "bank_transfer"))
      ∷ ("iban_number", text (lessor_iban c.party_ids))
      ∷ ("iban_belong_to", text "lessor")
      ∷ ("ejar_fees_paid_by", text (or_text c.ejar_fees_paid_by "brokerage_office"))
      ∷ []))

-- `none`: no fee is configured.
unfoldable pub build_rental_fee_attributes : Contract → Profile → Option Attributes
build_rental_fee_attributes c profile =
    if ltb 0 c.brokerage_fee
    then some (
        ("brokerage_fee", amount c.brokerage_fee)
        ∷ ("brokerage_fee_paid_by", text (or_text c.brokerage_fee_paid_by "lessor"))
        ∷ ("brokerage_license_number", text profile.license_number)
        ∷ [])
    else none

unfoldable pub build_individual_entity_attributes : Party → Result EjarError Attributes
build_individual_entity_attributes p = require (is_set p.id_number) "id_number" (
    require (is_set p.mobile) "mobile" (
      require (is_set p.full_name_ar) "full_name_ar" (
        ok (
          ("id_number", text p.id_number)
          ∷ ("id_type", text (or_text p.id_type "national_id"))
          ∷ ("id_expiry_date", optional_day p.id_expiry)
          ∷ ("full_name", text p.full_name_ar)
          ∷ ("mobile_number", text (normalize_mobile p.mobile))
          ∷ ("email", optional_text p.email)
          ∷ ("nationality", text (or_text p.nationality "SA"))
          ∷ []))))

unfoldable pub build_organization_entity_attributes : Party → Result EjarError Attributes
build_organization_entity_attributes p =
    require (is_set p.cr_number || is_set p.unified_number) "cr_number / unified_number" (
      ok (
        ("cr_number", text p.cr_number)
        ∷ ("unified_number", text p.unified_number)
        ∷ ("organization_name", text p.full_name_ar)
        ∷ ("mobile_number", text (normalize_mobile p.mobile))
        ∷ []))

unfoldable pub build_party_attributes : Party → String → Result EjarError Attributes
build_party_attributes p entity_id = require (is_set entity_id) "ejar_entity_id" (
    ok (
      ("role", text (role_text p.role))
      ∷ ("protect_identity", flag false)
      ∷ ("is_representative", flag (is_representative p.role))
      ∷ ("_entity_id", text entity_id)
      ∷ ("_entity_type", text (entity_type_text p.entity_type))
      ∷ []))
