-- ===== src/Ejar/Errors/Classes.antt =====
-- The classes of services/exceptions.py, with single inheritance.
use propza_amlak.Prelude.{
  ℕ, zero, suc, ◌≡◌, refl, Bool, true, false, Option, none, some, List, [], ◌∷◌, ◌||◌, ◌==◌,
}

pub data ErrorClass : Type 0 where
  api_error network_error timeout_error auth_error forbidden_error rate_limit_error : ErrorClass
  validation_error not_found_error conflict_error server_error : ErrorClass
  identity_validation_error token_error token_expired_error circuit_open_error : ErrorClass
  configuration_error payload_error : ErrorClass
  webhook_error webhook_signature_invalid webhook_signature_missing : ErrorClass
  webhook_timestamp_missing webhook_replay_attack webhook_invalid_json : ErrorClass
  webhook_config_missing webhook_contract_not_found webhook_unknown_event_type : ErrorClass
  webhook_idempotency_key_missing : ErrorClass

-- The base class; `EjarAPIError` itself has no base among these.
abbrev pub base : ErrorClass → Option ErrorClass
base api_error = none
base timeout_error = some network_error
base token_expired_error = some token_error
base webhook_signature_invalid = some webhook_error
base webhook_signature_missing = some webhook_error
base webhook_timestamp_missing = some webhook_error
base webhook_replay_attack = some webhook_error
base webhook_invalid_json = some webhook_error
base webhook_config_missing = some webhook_error
base webhook_contract_not_found = some webhook_error
base webhook_unknown_event_type = some webhook_error
base webhook_idempotency_key_missing = some webhook_error
base _ = some api_error

-- `should_retry = …` in the body of the class, if it has that line.
abbrev pub own_should_retry : ErrorClass → Option Bool
own_should_retry api_error = some false
own_should_retry network_error = some true
own_should_retry auth_error = some false
own_should_retry forbidden_error = some false
own_should_retry rate_limit_error = some true
own_should_retry validation_error = some false
own_should_retry not_found_error = some false
own_should_retry conflict_error = some false
own_should_retry server_error = some true
own_should_retry identity_validation_error = some false
own_should_retry token_error = some false
own_should_retry circuit_open_error = some true
own_should_retry configuration_error = some false
own_should_retry payload_error = some false
own_should_retry webhook_error = some false
own_should_retry webhook_replay_attack = some false
own_should_retry webhook_unknown_event_type = some false
own_should_retry _ = none

-- `is_permanent = …` in the body of the class, if it has that line.
abbrev pub own_is_permanent : ErrorClass → Option Bool
own_is_permanent api_error = some false
own_is_permanent network_error = some false
own_is_permanent auth_error = some false
own_is_permanent forbidden_error = some true
own_is_permanent rate_limit_error = some false
own_is_permanent validation_error = some true
own_is_permanent not_found_error = some true
own_is_permanent conflict_error = some false
own_is_permanent server_error = some false
own_is_permanent identity_validation_error = some true
own_is_permanent token_error = some true
own_is_permanent circuit_open_error = some false
own_is_permanent configuration_error = some true
own_is_permanent payload_error = some true
own_is_permanent webhook_error = some false
own_is_permanent webhook_signature_invalid = some true
own_is_permanent webhook_signature_missing = some true
own_is_permanent webhook_timestamp_missing = some true
own_is_permanent webhook_replay_attack = some false
own_is_permanent webhook_invalid_json = some true
own_is_permanent webhook_config_missing = some true
own_is_permanent webhook_contract_not_found = some true
own_is_permanent webhook_unknown_event_type = some false
own_is_permanent webhook_idempotency_key_missing = some true
own_is_permanent _ = none

-- The class and its bases, nearest first; the hierarchy is three classes deep.
abbrev ancestors : ℕ → ErrorClass → List ErrorClass
ancestors zero c = []
ancestors (suc n) c = elim (base c) [ none ↦ c ∷ [] | some b ↦ c ∷ ancestors n b ]

abbrev pub mro : ErrorClass → List ErrorClass
mro c = ancestors 3 c

-- Reading a class attribute: the nearest class that sets it decides.
abbrev attribute : (ErrorClass → Option Bool) → List ErrorClass → Bool
attribute own [] = false
attribute own (c ∷ cs) = elim (own c) [ none ↦ attribute own cs | some v ↦ v ]

unfoldable pub should_retry : ErrorClass → Bool
should_retry c = attribute own_should_retry (mro c)

unfoldable pub is_permanent : ErrorClass → Bool
is_permanent c = attribute own_is_permanent (mro c)

-- A number for each class, to compare classes by.
abbrev tag : ErrorClass → ℕ
tag api_error = 0
tag network_error = 1
tag timeout_error = 2
tag auth_error = 3
tag forbidden_error = 4
tag rate_limit_error = 5
tag validation_error = 6
tag not_found_error = 7
tag conflict_error = 8
tag server_error = 9
tag identity_validation_error = 10
tag token_error = 11
tag token_expired_error = 12
tag circuit_open_error = 13
tag configuration_error = 14
tag payload_error = 15
tag webhook_error = 16
tag webhook_signature_invalid = 17
tag webhook_signature_missing = 18
tag webhook_timestamp_missing = 19
tag webhook_replay_attack = 20
tag webhook_invalid_json = 21
tag webhook_config_missing = 22
tag webhook_contract_not_found = 23
tag webhook_unknown_event_type = 24
tag webhook_idempotency_key_missing = 25

abbrev among : ErrorClass → List ErrorClass → Bool
among c [] = false
among c (d ∷ ds) = tag c == tag d || among c ds

-- `isinstance(exc, cls)`, on the class of `exc`
unfoldable pub is_instance : ErrorClass → ErrorClass → Bool
is_instance c cls = among cls (mro c)

-- `isinstance(exc, (cls, …))`
unfoldable pub is_instance_of_any : ErrorClass → List ErrorClass → Bool
unfolding is_instance
is_instance_of_any c [] = false
is_instance_of_any c (d ∷ ds) = is_instance c d || is_instance_of_any c ds

-- Every class is an `EjarAPIError`, so three levels reach the root from each class.
pub is_instance-api_error : (c : ErrorClass) → is_instance c api_error ≡ true
unfolding is_instance
is_instance-api_error api_error = refl
is_instance-api_error _ = refl

-- No class is both to be retried and permanent.
pub should_retry-not_permanent : (c : ErrorClass) → should_retry c ≡ true → is_permanent c ≡ false
unfolding should_retry is_permanent
should_retry-not_permanent api_error h = refl
should_retry-not_permanent network_error h = refl
should_retry-not_permanent timeout_error h = refl
should_retry-not_permanent rate_limit_error h = refl
should_retry-not_permanent server_error h = refl
should_retry-not_permanent circuit_open_error h = refl
should_retry-not_permanent _ h = cc
