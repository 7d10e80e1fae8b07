-- ===== src/Ejar/Contract/Validate.antt =====
-- The three `validate_for_submission` methods: of the brokerage profile, of a party and of a unit.
use propza_amlak.Prelude.{List, [], ◌++◌, ◌||◌, not, ltb, is_set}
use propza_amlak.Ejar.Contract.Types.{
  Role, lessor, lessor_representative, tenant_representative, EntityType, individual, organization,
  Party, ContractUnit, Profile, Missing, no_id_number, no_mobile, no_full_name, no_registration,
  no_iban, no_proxy_doc, no_deed_number, no_national_address, no_area, no_cr_number,
  no_unified_number, no_license, license_is_expired, no_representative, no_representative_id,
  no_office_name,
}
use propza_amlak.Ejar.Contract.Actions.{required}

unfoldable pub profile_errors : Profile → List Missing
profile_errors p = required (is_set p.cr_number) no_cr_number (
    required (is_set p.unified_number) no_unified_number (
      required (is_set p.license_number) no_license (
        required (not p.license_expired) license_is_expired (
          required p.has_representative no_representative (
            required (is_set p.representative_national_id) no_representative_id
              (required (is_set p.office_name_ar) no_office_name []))))))

abbrev individual_errors : EntityType → Party → List Missing
individual_errors individual p =
    required (is_set p.id_number) no_id_number
      (required (is_set p.mobile) no_mobile (required (is_set p.full_name_ar) no_full_name []))
individual_errors organization p = []

abbrev organization_errors : EntityType → Party → List Missing
organization_errors organization p =
    required (is_set p.cr_number || is_set p.unified_number) no_registration []
organization_errors individual p = []

abbrev lessor_errors : Role → Party → List Missing
lessor_errors lessor p = required (is_set p.iban) no_iban []
lessor_errors _ p = []

abbrev proxy_errors : Role → Party → List Missing
proxy_errors lessor_representative p = required (is_set p.proxy_doc) no_proxy_doc []
proxy_errors tenant_representative p = required (is_set p.proxy_doc) no_proxy_doc []
proxy_errors _ p = []

unfoldable pub party_errors : Party → List Missing
party_errors p =
    individual_errors p.entity_type p
    ++ organization_errors p.entity_type p
    ++ lessor_errors p.role p
    ++ proxy_errors p.role p

unfoldable pub unit_errors : ContractUnit → List Missing
unit_errors u = required (is_set u.deed_number) no_deed_number (
    required (is_set u.national_address_code) no_national_address
      (required (ltb 0 u.area) no_area []))
