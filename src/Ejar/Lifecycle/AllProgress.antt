-- ===== src/Ejar/Lifecycle/AllProgress.antt =====
-- services/lifecycle_service.py: the steps that create something, for `Progress`.
use propza_amlak.Prelude.{ℕ, ◌≡◌, ◌∙◌, ap, refl, false, not, ◌||◌, some, String, is_set}
use propza_amlak.Ejar.Contract.Types.{Party, ContractUnit, Contract, synced}
use propza_amlak.Ejar.Payload.{Attributes}
use propza_amlak.Ejar.Lifecycle.World.{create_contract, attach_unit, add_party, World, Env, nth}
use propza_amlak.Ejar.Lifecycle.Steps.{
  resolve_party_entity, resolve_party_entities, step_create_contract, step_attach_unit,
  step_add_party,
}
use propza_amlak.Ejar.Lifecycle.Extends.{
  PartyExtends, UnitExtends, Extends, Extends-refl, AllSet-nth,
}
use propza_amlak.Ejar.Lifecycle.Progress.{
  At, bind_rule, gets_rule, build_rule, pure_rule, raise_rule, if_rule, log_rule, update_rule,
  for_each_rule,
}
use propza_amlak.Ejar.Lifecycle.StepProgress.{
  MayCall, attempt_rule, on_reply_rule, call_or_existing_rule, write_party_rule, write_unit_rule,
  for_party_rule, for_unit_rule, step_create_entity_rule, lacks,
}

resolve_party_entity_rule : (env : Env) (w : World) (i : ℕ) → At w (resolve_party_entity env i)
unfolding resolve_party_entity
resolve_party_entity_rule env w i = for_party_rule w i _ λ p e.
    if_rule w (is_set p.ejar_entity_id) _ _ (λ done. log_rule w _ _ _)
      (step_create_entity_rule env w i p e)

pub resolve_party_entities_rule : (env : Env) (w : World) → At w (resolve_party_entities env)
unfolding resolve_party_entities
resolve_party_entities_rule env w =
    gets_rule w _ _ (for_each_rule _ _ (λ v i. resolve_party_entity_rule env v i) w)

pub step_create_contract_rule : (env : Env) (w : World) → At w (step_create_contract env)
unfolding step_create_contract
step_create_contract_rule env w = gets_rule w _ _ (
    if_rule w (is_set w.contract.ejar_contract_id) _ _ (λ done. pure_rule w _)
      λ unset. build_rule w _ _ λ attrs _.
        call_or_existing_rule env w _ _ (may unset) λ resp v same.
          bind_rule v _ _
            (update_rule v _
              (better v.contract (ap (λ (c : Contract). is_set c.ejar_contract_id) same ∙ unset)))
            λ _ _. bind_rule _ _ _ (log_rule _ _ _ _) λ _ _. pure_rule _ _)
  where
    may :
        is_set w.contract.ejar_contract_id ≡ false
        → {attrs : Attributes} → MayCall w (create_contract attrs)
    may unset = record { entity = λ h. cc; contract = λ h. unset; unit = λ h. cc; party = λ h. cc }

    better :
        (c : Contract)
        → is_set c.ejar_contract_id ≡ false
        → {s t : String} → Extends c (record c { ejar_contract_id = s; ejar_contract_number = t })
    better c unset {s} {t} = record {
      registered = lacks c.ejar_contract_id s unset;
      parties = (Extends-refl c).parties;
      units = (Extends-refl c).units;
      same_document = refl;
    }

pub step_attach_unit_rule :
    (env : Env) (cid : String) (w : World) (i : ℕ) → At w (step_attach_unit env cid i)
unfolding step_attach_unit
step_attach_unit_rule env cid w i = for_unit_rule w i _ λ u e.
    if_rule w (is_set u.ejar_contract_unit_id) _ _ (λ done. pure_rule w tt)
      λ unset.
        if_rule w (not (is_set u.ejar_property_id) || not (is_set u.ejar_unit_id)) _ _
          (λ bad. raise_rule (Unit {0}) w _)
          λ good. attempt_rule env w _ _ (may u e unset) λ r v same.
            on_reply_rule v r _ _
              (λ resp.
                bind_rule v _ _ (write_unit_rule v i _ u (there u v same e) (better u unset))
                  λ _ _. log_rule _ _ _ _)
              (λ x. write_unit_rule v i _ u (there u v same e) (better u unset))
  where
    there :
        (u : ContractUnit) (v : World)
        → v.contract ≡ w.contract
        → nth w.contract.unit_ids i ≡ some u
        → nth v.contract.unit_ids i ≡ some u
    there u v same e = ap (λ (c : Contract). nth c.unit_ids i) same ∙ e

    may :
        (u : ContractUnit)
        → nth w.contract.unit_ids i ≡ some u
        → is_set u.ejar_contract_unit_id ≡ false
        → MayCall w (attach_unit cid u.ejar_property_id u.ejar_unit_id)
    may u e unset = record {
      entity = λ h. cc;
      contract = λ h. cc;
      unit = λ h all. cc (AllSet-nth _ i w.contract.unit_ids u e all);
      party = λ h. cc;
    }

    better :
        (u : ContractUnit)
        → is_set u.ejar_contract_unit_id ≡ false
        → {t : String} → UnitExtends u (record u { ejar_contract_unit_id = t; sync_state = synced })
    better u unset {t} = record {
      property = refl;
      unit = refl;
      attached = lacks u.ejar_contract_unit_id t unset;
    }

pub step_add_party_rule :
    (env : Env) (cid : String) (w : World) (i : ℕ) → At w (step_add_party env cid i)
unfolding step_add_party
step_add_party_rule env cid w i = for_party_rule w i _ λ p e.
    if_rule w (is_set p.ejar_party_id) _ _ (λ done. pure_rule w tt)
      λ unset.
        if_rule w (not (is_set p.ejar_entity_id)) _ _ (λ bad. raise_rule (Unit {0}) w _)
          λ good. build_rule w _ _ λ attrs _. attempt_rule env w _ _ (may p e unset) λ r v same.
            on_reply_rule v r _ _
              (λ resp.
                bind_rule v _ _ (write_party_rule v i _ p (there p v same e) (better p unset))
                  λ _ _. log_rule _ _ _ _)
              (λ x. write_party_rule v i _ p (there p v same e) (better p unset))
  where
    there :
        (p : Party) (v : World)
        → v.contract ≡ w.contract
        → nth w.contract.party_ids i ≡ some p
        → nth v.contract.party_ids i ≡ some p
    there p v same e = ap (λ (c : Contract). nth c.party_ids i) same ∙ e

    may :
        (p : Party)
        → nth w.contract.party_ids i ≡ some p
        → is_set p.ejar_party_id ≡ false
        → {attrs : Attributes} → MayCall w (add_party cid attrs)
    may p e unset = record {
      entity = λ h. cc;
      contract = λ h. cc;
      unit = λ h. cc;
      party = λ h all. cc (AllSet-nth _ i w.contract.party_ids p e all);
    }

    better :
        (p : Party)
        → is_set p.ejar_party_id ≡ false
        → {t : String} → PartyExtends p (record p { ejar_party_id = t; sync_state = synced })
    better p unset {t} = record {
      same_role = refl;
      entity = λ h. refl;
      party = lacks p.ejar_party_id t unset;
      proxy = λ h. refl;
    }
