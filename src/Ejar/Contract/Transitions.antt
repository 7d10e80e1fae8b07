-- ===== src/Ejar/Contract/Transitions.antt =====
-- The user's actions against the table of allowed transitions.
use propza_amlak.Prelude.{◌≡◌, ◌⊎◌, true, ok, err, arith, is_set, is_some, Result}
use propza_amlak.Ejar.Contract.Types.{submitting, terminal_state, not_rejected, UserError, Contract}
use propza_amlak.Ejar.Contract.Actions.{
  has_lessor, has_tenant, has_unit, is_terminal, action_start_building, action_mark_ready,
  action_submit_to_ejar, action_reset_to_draft, action_cancel, allowed,
}

pub data Action : Type 0 where
  start_building mark_ready submit_to_ejar reset cancel : Action

-- A click on the button of an action.
unfoldable pub perform : Action → Contract → Result UserError Contract
unfolding action_start_building action_mark_ready action_submit_to_ejar action_reset_to_draft
    action_cancel
perform start_building c = action_start_building c
perform mark_ready c = action_mark_ready c
perform submit_to_ejar c = action_submit_to_ejar c
perform reset c = action_reset_to_draft c
perform cancel c = action_cancel c

-- What an action that succeeds does to the status: it keeps it or follows the table of
-- `_check_state_transition`, but for the cancellation of a contract that is being submitted.
pub perform-allowed :
    (a : Action) (c : Contract) {d : Contract}
    → perform a c ≡ ok d
    → (d.ejar_status ≡ c.ejar_status)
      ⊎ (allowed c.ejar_status d.ejar_status ≡ true)
      ⊎ ((a ≡ cancel) × (c.ejar_status ≡ submitting))
unfolding perform allowed
perform-allowed a c h = ground arith

-- No action succeeds on a contract that has expired or is cancelled.
pub perform-terminal :
    (a : Action) (c : Contract)
    → is_terminal c.ejar_status ≡ true
    → (perform a c ≡ err terminal_state) ⊎ (perform a c ≡ err not_rejected)
unfolding perform
perform-terminal a c h = ground arith

-- A contract that has been marked ready has a lessor, a tenant, a unit, the signed document and a
-- brokerage profile, and nothing of it but the status and the chatter has changed.
mark_ready_complete :
    (c : Contract) {d : Contract}
    → perform mark_ready c ≡ ok d
    → (has_lessor d ≡ true)
      × (has_tenant d ≡ true)
      × (has_unit d ≡ true)
      × (is_set d.signed_doc ≡ true)
      × (is_some d.brokerage_profile_id ≡ true)
      × (d ≡ record c { ejar_status = d.ejar_status; messages = d.messages })
unfolding perform
mark_ready_complete c h = ground arith
