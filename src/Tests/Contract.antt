-- ===== src/Tests/Contract.antt =====
-- Actions on concrete contracts, and the spellings of a number.
use propza_amlak.Prelude.{◌≡◌, ◌⊎◌, refl, true}
use propza_amlak.Ejar.Contract.Types.{draft, building, ready, Contract, data_complete}
use propza_amlak.Ejar.Contract.Actions.{post, set_status, allowed, action_start_building}
use propza_amlak.Ejar.Contract.Transitions.{start_building, cancel, perform, perform-allowed}
use propza_amlak.Ejar.Contract.Types.{submitting, building_started}
use propza_amlak.Tests.Fixtures.{contract}

abbrev started : Contract
started = post building_started (set_status building (contract draft))

perform-allowed_example :
    (building ≡ draft)
    ⊎ (allowed draft building ≡ true)
    ⊎ ((start_building ≡ cancel) × (draft ≡ submitting))
unfolding perform action_start_building
perform-allowed_example = perform-allowed start_building (contract draft) {d = started} refl

abbrev completed : Contract
completed = post data_complete (set_status ready (contract building))
