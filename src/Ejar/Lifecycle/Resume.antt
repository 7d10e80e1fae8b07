-- ===== src/Ejar/Lifecycle/Resume.antt =====
-- services/lifecycle_service.py: the rest of the steps and the pipeline, for `Progress`.
use mathlib.Core.Path.{subst}
use propza_amlak.Prelude.{
  ℕ, ◌≡◌, ◌∙◌, ap, sym, refl, false, not, ◌||◌, Option, none, some, List, [], ◌∷◌, String, is_set,
  arith,
}
use propza_amlak.Ejar.Errors.Status.{EjarError}
use propza_amlak.Ejar.Contract.Types.{Party, Profile, Missing, Exc, Contract}
use propza_amlak.Ejar.Payload.{is_representative, Attributes}
use propza_amlak.Ejar.Lifecycle.World.{Call, World, Env, nth}
use propza_amlak.Ejar.Lifecycle.Steps.{
  ignore_conflict, send_fee, demand, adopt_profile, choose_profile, step_upload_proxy_doc,
  step_upload_signed_doc, step_add_financial_info, step_add_rental_fee, step_submit,
  resolve_profile,
}
use propza_amlak.Ejar.Lifecycle.Pipeline.{
  attach_units, add_parties, upload_proxy_docs, register, finalize, run_pipeline, mark_submitting,
  roll_back, execute_full_submission, raise_some,
}
use propza_amlak.Ejar.Lifecycle.Extends.{AllPairs, PartyExtends, UnitExtends, Extends, Extends-refl}
use propza_amlak.Ejar.Lifecycle.Progress.{
  is_entity_call, is_contract_call, is_unit_call, is_party_call, Progress, Progress-refl, At,
  bind_rule, gets_rule, build_rule, try_rule, pure_rule, raise_rule, if_rule, commit_rule, log_rule,
  update_rule, for_each_rule,
}
use propza_amlak.Ejar.Lifecycle.StepProgress.{
  harmless, attempt_rule, on_reply_rule, call_bind_rule, write_party_rule, for_party_rule, lacks,
}
use propza_amlak.Ejar.Lifecycle.AllProgress.{
  resolve_party_entities_rule, step_create_contract_rule, step_attach_unit_rule,
  step_add_party_rule,
}

step_upload_proxy_doc_rule :
    (env : Env) (cid : String) (w : World) (i : ℕ) → At w (step_upload_proxy_doc env cid i)
unfolding step_upload_proxy_doc
step_upload_proxy_doc_rule env cid w i = for_party_rule w i _ λ p e.
    if_rule w (not (is_representative p.role)) _ _ (λ h. pure_rule w tt)
      λ representative.
        if_rule w (is_set p.ejar_proxy_doc_id || not (is_set p.proxy_doc)) _ _ (λ h. pure_rule w tt)
          λ h.
            if_rule w (not (is_set p.ejar_party_id)) _ _ (λ h. pure_rule w tt)
              λ added. call_bind_rule env w _ _ (harmless w _ refl refl refl refl) λ resp v same.
                bind_rule v _ _
                  (write_party_rule v i _ p (ap (λ (c : Contract). nth c.party_ids i) same ∙ e)
                    (better p (unset p h)))
                  λ _ _. log_rule _ _ _ _
  where
    unset :
        (p : Party)
        → (is_set p.ejar_proxy_doc_id || not (is_set p.proxy_doc)) ≡ false
        → is_set p.ejar_proxy_doc_id ≡ false
    unset p h = ground arith

    better :
        (p : Party)
        → is_set p.ejar_proxy_doc_id ≡ false
        → {t : String} → PartyExtends p (record p { ejar_proxy_doc_id = t })
    better p n {t} = record {
      same_role = refl;
      entity = λ h. refl;
      party = λ h. refl;
      proxy = lacks p.ejar_proxy_doc_id t n;
    }

step_upload_signed_doc_rule :
    (env : Env) (cid : String) (w : World) → At w (step_upload_signed_doc env cid)
unfolding step_upload_signed_doc
step_upload_signed_doc_rule env cid w = gets_rule w _ _ (
    if_rule w (not (is_set w.contract.signed_doc)) _ _ (λ h. raise_rule (Unit {0}) w _)
      λ h.
        call_bind_rule env w _ _ (harmless w _ refl refl refl refl) λ resp v same. log_rule v _ _ _)

ignore_conflict_rule :
    (env : Env) (w : World) (c : Call)
    → is_entity_call c ≡ false
    → is_contract_call c ≡ false
    → is_unit_call c ≡ false
    → is_party_call c ≡ false
    → At w (ignore_conflict env c)
unfolding ignore_conflict
ignore_conflict_rule env w c e n u p =
    attempt_rule env w c _ (harmless w c e n u p)
      λ r v same. on_reply_rule v r _ _ (λ b. pure_rule v tt) (λ x. pure_rule v tt)

step_add_financial_info_rule :
    (env : Env) (cid : String) (w : World) → At w (step_add_financial_info env cid)
unfolding step_add_financial_info
step_add_financial_info_rule env cid w = gets_rule w _ _ (
    build_rule w _ _ λ attrs _.
      bind_rule w _ _ (ignore_conflict_rule env w _ refl refl refl refl) λ _ _. log_rule _ _ _ _)

send_fee_rule :
    (env : Env) (cid : String) (w : World) (o : Option Attributes) → At w (send_fee env cid o)
send_fee_rule env cid w none = pure_rule w tt
send_fee_rule env cid w (some a) =
    bind_rule w _ _ (ignore_conflict_rule env w _ refl refl refl refl) λ _ _. log_rule _ _ _ _

step_add_rental_fee_rule :
    (env : Env) (cid : String) (profile : Profile) (w : World)
    → At w (step_add_rental_fee env cid profile)
unfolding step_add_rental_fee
step_add_rental_fee_rule env cid profile w = gets_rule w _ _ (send_fee_rule env cid w _)

step_submit_rule : (env : Env) (cid : String) (w : World) → At w (step_submit env cid)
unfolding step_submit
step_submit_rule env cid w =
    call_bind_rule env w _ _ (harmless w _ refl refl refl refl) λ resp v same. log_rule v _ _ _

demand_rule : (ms : List Missing) (w : World) → At w (demand ms)
unfolding demand
demand_rule [] w = Progress-refl w
demand_rule (m ∷ ms) w = Progress-refl w

-- A write that leaves the references, the parties, the units and the document alone.
untouched :
    (c d : Contract)
    → d.ejar_contract_id ≡ c.ejar_contract_id
    → d.party_ids ≡ c.party_ids
    → d.unit_ids ≡ c.unit_ids
    → d.signed_doc ≡ c.signed_doc
    → Extends c d
untouched c d n p u s = record {
  registered = λ h. n;
  parties = subst (AllPairs PartyExtends c.party_ids) (sym p) (Extends-refl c).parties;
  units = subst (AllPairs UnitExtends c.unit_ids) (sym u) (Extends-refl c).units;
  same_document = s;
}

adopt_profile_rule : (w : World) (o : Option Profile) → At w (adopt_profile o)
adopt_profile_rule w (some p) =
    bind_rule w _ _ (update_rule w _ (untouched _ _ refl refl refl refl)) λ _ _. pure_rule _ p
adopt_profile_rule w none = raise_rule Profile w _

choose_profile_rule : (env : Env) (w : World) (o : Option Profile) → At w (choose_profile env o)
choose_profile_rule env w (some p) = pure_rule w p
choose_profile_rule env w none = gets_rule w _ _ (adopt_profile_rule w _)

resolve_profile_rule : (env : Env) (w : World) → At w (resolve_profile env)
unfolding resolve_profile
resolve_profile_rule env w = gets_rule w _ _ (
    bind_rule w _ _ (choose_profile_rule env w _) λ profile _.
      bind_rule _ _ _ (demand_rule _ _) λ _ _.
        bind_rule _ _ _ (for_each_rule _ _ (λ v p. demand_rule _ v) _) λ _ _.
          bind_rule _ _ _ (for_each_rule _ _ (λ v u. demand_rule _ v) _) λ _ _. pure_rule _ _)

attach_units_rule : (env : Env) (cid : String) (w : World) → At w (attach_units env cid)
unfolding attach_units
attach_units_rule env cid w = gets_rule w _ _ (for_each_rule _ _ (step_attach_unit_rule env cid) w)

add_parties_rule : (env : Env) (cid : String) (w : World) → At w (add_parties env cid)
unfolding add_parties
add_parties_rule env cid w = gets_rule w _ _ (for_each_rule _ _ (step_add_party_rule env cid) w)

upload_proxy_docs_rule : (env : Env) (cid : String) (w : World) → At w (upload_proxy_docs env cid)
unfolding upload_proxy_docs
upload_proxy_docs_rule env cid w =
    gets_rule w _ _ (for_each_rule _ _ (step_upload_proxy_doc_rule env cid) w)

register_rule : (env : Env) (w : World) → At w (register env)
unfolding register
register_rule env w = bind_rule w _ _ (resolve_party_entities_rule env w) λ _ _.
    bind_rule _ _ _ (commit_rule _) λ _ _.
      bind_rule _ _ _ (step_create_contract_rule env _) λ cid _.
        bind_rule _ _ _ (commit_rule _) λ _ _. bind_rule _ _ _ (attach_units_rule env cid _) λ _ _.
          bind_rule _ _ _ (commit_rule _) λ _ _. bind_rule _ _ _ (add_parties_rule env cid _) λ _ _.
            bind_rule _ _ _ (commit_rule _) λ _ _.
              bind_rule _ _ _ (upload_proxy_docs_rule env cid _)
                λ _ _. bind_rule _ _ _ (commit_rule _) λ _ _. pure_rule _ cid

finalize_rule : (env : Env) (w : World) → At w (finalize env)
unfolding finalize
finalize_rule env w =
    bind_rule w _ _ (update_rule w _ (untouched _ _ refl refl refl refl)) λ _ _. commit_rule _

raise_some_rule : (o : Option EjarError) (w : World) → At w (raise_some o)
raise_some_rule none w = pure_rule w tt
raise_some_rule (some e) w = raise_rule (Unit {0}) w _

run_pipeline_rule : (env : Env) (w : World) → At w (run_pipeline env)
unfolding run_pipeline
run_pipeline_rule env w = bind_rule w _ _ (resolve_profile_rule env w) λ profile _.
    bind_rule _ _ _ (raise_some_rule env.connect _) λ _ _.
      bind_rule _ _ _ (register_rule env _) λ cid _.
        bind_rule _ _ _ (step_upload_signed_doc_rule env cid _) λ _ _.
          bind_rule _ _ _ (commit_rule _) λ _ _.
            bind_rule _ _ _ (step_add_financial_info_rule env cid _) λ _ _.
              bind_rule _ _ _ (commit_rule _) λ _ _.
                bind_rule _ _ _ (step_add_rental_fee_rule env cid profile _) λ _ _.
                  bind_rule _ _ _ (commit_rule _) λ _ _.
                    bind_rule _ _ _ (step_submit_rule env cid _)
                      λ _ _. bind_rule _ _ _ (finalize_rule env _) λ _ _. pure_rule _ cid

mark_submitting_rule : (w : World) → At w mark_submitting
unfolding mark_submitting
mark_submitting_rule w =
    bind_rule w _ _ (update_rule w _ (untouched _ _ refl refl refl refl)) λ _ _. commit_rule _

roll_back_rule : (e : Exc) (w : World) → At w (roll_back e)
unfolding roll_back
roll_back_rule e w = bind_rule w _ _ (update_rule w _ (untouched _ _ refl refl refl refl)) λ _ _.
    bind_rule _ _ _ (commit_rule _) λ _ _. bind_rule _ _ _ (log_rule _ _ _ _) λ _ _.
      bind_rule _ _ _ (update_rule _ _ (untouched _ _ refl refl refl refl))
        λ _ _. raise_rule String _ e

-- A submission, whether it returns or raises at whatever call: every reference to the platform
-- that was set is kept as it was; and if all parties had entities no entity is created, if the
-- contract was registered no contract is created, if all units were attached none is attached, if
-- all parties were added none is added.
pub execute_full_submission-Progress :
    (env : Env) (w : World) → Progress w (execute_full_submission env w).1
unfolding execute_full_submission
execute_full_submission-Progress env w =
    bind_rule w _ _ (mark_submitting_rule w)
      λ _ _. try_rule _ _ _ (run_pipeline_rule env _) (λ e. roll_back_rule e _)
