-- ===== src/Ejar/Lifecycle/StepProgress.antt =====
-- services/lifecycle_service.py: calls and writes, for `Progress`.
use propza_amlak.Prelude.{
  ℕ, ◌≡◌, ◌∙◌, ap, refl, Bool, true, false, some, List, ◌∷◌, String, is_set, Option-cases,
  Bool-cases, inl, inr, Result, ok, err,
}
use propza_amlak.Ejar.Errors.Classes.{is_instance, conflict_error}
use propza_amlak.Ejar.Errors.Status.{EjarError, Body}
use propza_amlak.Ejar.Contract.Types.{Party, ContractUnit, ejar, Contract, synced}
use propza_amlak.Ejar.Payload.{Attributes}
use propza_amlak.Ejar.Lifecycle.World.{
  Call, create_entity, World, Env, M, pure, raise, gets, continue, ◌>>=◌, as_exc, call, attempt,
  nth,
}
use propza_amlak.Ejar.Lifecycle.Steps.{
  call_or_existing, write_party, write_unit, for_party, for_unit, on_reply, use_existing,
  existing_body, resource_id, step_create_entity,
}
use propza_amlak.Ejar.Lifecycle.Extends.{
  PartyExtends, PartyExtends-refl, UnitExtends, UnitExtends-refl, AllPairs-refl, AllPairs-update_at,
  Extends-refl, AllSet-nth, Kept,
}
use propza_amlak.Ejar.Lifecycle.Progress.{
  is_entity_call, is_contract_call, is_unit_call, is_party_call, count, HasEntities, HasParties,
  HasUnits, Progress, Progress-trans, Progress-quiet, Progress-refl, At, bind_rule, raise_rule,
  build_rule, if_rule, log_rule,
}

-- A call may be made if none of the kinds that are complete is its own.
pub record MayCall (w : World) (c : Call) : Type 0 where
  pub entity : is_entity_call c ≡ true → ¬ HasEntities w.contract
  pub contract : is_contract_call c ≡ true → is_set w.contract.ejar_contract_id ≡ false
  pub unit : is_unit_call c ≡ true → ¬ HasUnits w.contract
  pub party : is_party_call c ≡ true → ¬ HasParties w.contract

count-cons :
    (p : Call → Bool) (c : Call) (cs : List Call) → p c ≡ false → count p (c ∷ cs) ≡ count p cs
count-cons p c cs h = rw h

count_unless :
    {P : Type 0} (p : Call → Bool) (c : Call) (cs : List Call)
    → (p c ≡ true → ¬ P)
    → P
    → count p (c ∷ cs) ≡ count p cs
count_unless p c cs k h = elim (Bool-cases (p c)) [
  | inl made ↦ absurd (k made h)
  | inr other ↦ count-cons p c cs other
]

pub call_rule : (env : Env) (w : World) (c : Call) → MayCall w c → At w (call env c)
unfolding call
call_rule env w c may = record {
  kept = Extends-refl w.contract;
  entities = count_unless is_entity_call c w.calls may.entity;
  registered = count_unless is_contract_call c w.calls (λ e h. cc (may.contract e));
  units = count_unless is_unit_call c w.calls may.unit;
  parties = count_unless is_party_call c w.calls may.party;
}

-- The same of an attempt and what goes on from it.
pub attempt_rule :
    {A : Type 0} (env : Env) (w : World) (c : Call) (f : Result EjarError Body → M A)
    → MayCall w c
    → ((r : Result EjarError Body) (v : World) → v.contract ≡ w.contract → At v (f r))
    → At w (attempt env c >>= f)
unfolding ◌>>=◌ attempt call
attempt_rule env w c f may k =
    Progress-trans (call_rule env w c may)
      (k (env.reply w.calls c) (record w { calls = c ∷ w.calls }) refl)

pub on_reply_rule :
    {A : Type 0} (w : World) (r : Result EjarError Body) (f : Body → M A) (h : EjarError → M A)
    → ((b : Body) → At w (f b))
    → ((e : EjarError) → At w (h e))
    → At w (on_reply r f h)
unfolding on_reply
on_reply_rule w (ok b) f h p q = p b
on_reply_rule {A} w (err e) f h p q =
    if_rule w (is_instance e.kind conflict_error) (h e) (raise (ejar e)) (λ _. q e)
      (λ _. raise_rule A w (ejar e))

existing_bind :
    {A : Type 0} (w : World) (r : Result EjarError Body) (f : Body → M A)
    → ((b : Body) → At w (f b))
    → At w (on_reply r pure use_existing >>= f)
unfolding ◌>>=◌ on_reply pure raise
existing_bind w (ok b) f p = p b
existing_bind w (err e) f p = elim (Bool-cases (is_instance e.kind conflict_error)) [
  | inl conflict ↦ elim (Bool-cases (is_set (resource_id e.existing))) [
    | inl named ↦ rw conflict (rw named (p (existing_body e)))
    | inr unnamed ↦ rw conflict (rw unnamed (Progress-refl w))
  ]
  | inr other ↦ rw other (Progress-refl w)
]

pub call_or_existing_rule :
    {A : Type 0} (env : Env) (w : World) (c : Call) (f : Body → M A)
    → MayCall w c
    → ((b : Body) (v : World) → v.contract ≡ w.contract → At v (f b))
    → At w (call_or_existing env c >>= f)
unfolding ◌>>=◌ call_or_existing attempt call
call_or_existing_rule env w c f may k =
    let v : World = record w { calls = c ∷ w.calls } in
    Progress-trans (call_rule env w c may)
      (existing_bind v (env.reply w.calls c) f (λ b. k b v refl))

-- Writes to a place whose party or unit may be written so.
pub write_party_rule :
    (w : World) (i : ℕ) (f : Party → Party) (p : Party)
    → nth w.contract.party_ids i ≡ some p
    → PartyExtends p (f p)
    → At w (write_party i f)
unfolding write_party
write_party_rule w i f p e x =
    Progress-quiet
      (record {
        registered = λ h. refl;
        parties = AllPairs-update_at PartyExtends PartyExtends-refl i f w.contract.party_ids p e x;
        units = AllPairs-refl UnitExtends UnitExtends-refl w.contract.unit_ids;
        same_document = refl;
      })
      refl

pub write_unit_rule :
    (w : World) (i : ℕ) (f : ContractUnit → ContractUnit) (u : ContractUnit)
    → nth w.contract.unit_ids i ≡ some u
    → UnitExtends u (f u)
    → At w (write_unit i f)
unfolding write_unit
write_unit_rule w i f u e x =
    Progress-quiet
      (record {
        registered = λ h. refl;
        parties = AllPairs-refl PartyExtends PartyExtends-refl w.contract.party_ids;
        units = AllPairs-update_at UnitExtends UnitExtends-refl i f w.contract.unit_ids u e x;
        same_document = refl;
      })
      refl

pub for_party_rule :
    (w : World) (i : ℕ) (f : Party → M (Unit {0}))
    → ((p : Party) → nth w.contract.party_ids i ≡ some p → At w (f p))
    → At w (for_party i f)
unfolding ◌>>=◌ gets pure
for_party_rule w i f k = elim (Option-cases (nth w.contract.party_ids i)) [
  | inl beyond ↦ rw beyond (Progress-refl w)
  | inr (p, here) ↦ rw here (k p here)
]

pub for_unit_rule :
    (w : World) (i : ℕ) (f : ContractUnit → M (Unit {0}))
    → ((u : ContractUnit) → nth w.contract.unit_ids i ≡ some u → At w (f u))
    → At w (for_unit i f)
unfolding ◌>>=◌ gets pure
for_unit_rule w i f k = elim (Option-cases (nth w.contract.unit_ids i)) [
  | inl beyond ↦ rw beyond (Progress-refl w)
  | inr (u, here) ↦ rw here (k u here)
]

pub lacks : (s t : String) → is_set s ≡ false → Kept s t
lacks s t h p = cc

pub step_create_entity_rule :
    (env : Env) (w : World) (i : ℕ) (p : Party)
    → nth w.contract.party_ids i ≡ some p
    → is_set p.ejar_entity_id ≡ false
    → At w (step_create_entity env i p)
unfolding step_create_entity
step_create_entity_rule env w i p e unset = build_rule w _ _ λ attrs _.
    call_or_existing_rule env w _ _ may λ resp v same.
      bind_rule v _ _
        (write_party_rule v i _ p (ap (λ (c : Contract). nth c.party_ids i) same ∙ e) better)
        λ _ _. log_rule _ _ _ _
  where
    may : {attrs : Attributes} → MayCall w (create_entity p.entity_type attrs)
    may = record {
      entity = λ h all. cc (AllSet-nth _ i w.contract.party_ids p e all);
      contract = λ h. cc;
      unit = λ h. cc;
      party = λ h. cc;
    }

    better : {t : String} → PartyExtends p (record p { ejar_entity_id = t; sync_state = synced })
    better {t} = record {
      same_role = refl;
      entity = lacks p.ejar_entity_id t unset;
      party = λ h. refl;
      proxy = λ h. refl;
    }

-- A call outside any `try`.
call_continue :
    {A : Type 0} (w v : World) (r : Result EjarError Body) (f : Body → M A)
    → Progress w v
    → ((b : Body) → At v (f b))
    → Progress w (continue (as_exc r) f v).1
call_continue w v (ok b) f p k = Progress-trans p (k b)
call_continue w v (err e) f p k = p

pub call_bind_rule :
    {A : Type 0} (env : Env) (w : World) (c : Call) (f : Body → M A)
    → MayCall w c
    → ((b : Body) (v : World) → v.contract ≡ w.contract → At v (f b))
    → At w (call env c >>= f)
unfolding ◌>>=◌ call
call_bind_rule env w c f may k =
    let v : World = record w { calls = c ∷ w.calls } in
    call_continue w v (env.reply w.calls c) f (call_rule env w c may) (λ b. k b v refl)

-- A call that creates none of the four kinds.
pub harmless :
    (w : World) (c : Call)
    → is_entity_call c ≡ false
    → is_contract_call c ≡ false
    → is_unit_call c ≡ false
    → is_party_call c ≡ false
    → MayCall w c
harmless w c e n u p = record {
  entity = λ h. cc;
  contract = λ h. cc;
  unit = λ h. cc;
  party = λ h. cc;
}
