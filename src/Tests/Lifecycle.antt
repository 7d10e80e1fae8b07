-- ===== src/Tests/Lifecycle.antt =====
-- A submission of the contract of the fixtures.
use propza_amlak.Prelude.{◌≡◌, refl, err, []}
use propza_amlak.Ejar.Contract.Types.{ready, Contract, no_area, user, incomplete}
use propza_amlak.Ejar.Lifecycle.Pipeline.{execute_full_submission}
use propza_amlak.Ejar.Lifecycle.Progress.{Progress}
use propza_amlak.Ejar.Lifecycle.Resume.{execute_full_submission-Progress}
use propza_amlak.Ejar.Lifecycle.Outcome.{Ends, execute_full_submission-Ends}
use propza_amlak.Ejar.Lifecycle.Gate.{execute_full_submission-refusal}
use propza_amlak.Prelude.{◌∷◌}
use propza_amlak.Ejar.Contract.Validate.{profile_errors, party_errors, unit_errors}
use propza_amlak.Tests.Fixtures.{contract, unit, world, env}

execute_full_submission-Progress_example :
    Progress (world (contract ready)) (execute_full_submission env (world (contract ready))).1
execute_full_submission-Progress_example =
    execute_full_submission-Progress env (world (contract ready))

execute_full_submission-Ends_example :
    Ends env (execute_full_submission env (world (contract ready)))
execute_full_submission-Ends_example = execute_full_submission-Ends env (world (contract ready))

-- The contract with a unit that has no area.
abbrev without_area : Contract
without_area = record (contract ready) { unit_ids = record unit { area = 0 } ∷ [] }

execute_full_submission-refusal_example :
    ((execute_full_submission env (world without_area)).0 ≡ err (user (incomplete (no_area ∷ []))))
    × ((execute_full_submission env (world without_area)).1.calls ≡ [])
unfolding profile_errors party_errors unit_errors
execute_full_submission-refusal_example =
    execute_full_submission-refusal env (world without_area) (incomplete (no_area ∷ [])) refl
