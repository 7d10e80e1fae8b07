-- ===== src/Ejar/Lifecycle/Gate.antt =====
-- services/lifecycle_service.py: a description of what `_resolve_profile` refuses, and what a
-- submission does then.
use mathlib.Core.Path.{subst}
use mathlib.Core.Option.{some-injective}
use propza_amlak.Prelude.{
  ℕ, ◌≡◌, refl, ap, sym, ◌∙◌, Option, none, some, List, [], ◌∷◌, String, Result, ok, err,
}
use propza_amlak.Ejar.Contract.Types.{
  Profile, Missing, UserError, no_brokerage_profile, incomplete, Exc, user, Contract,
}
use propza_amlak.Ejar.Contract.Validate.{profile_errors, party_errors, unit_errors}
use propza_amlak.Ejar.Lifecycle.World.{
  World, Env, M, pure, raise, gets, ◌>>=◌, continue, for_each, update, commit, try_catch, handle,
  sync_log,
}
use propza_amlak.Ejar.Lifecycle.Steps.{demand, adopt_profile, choose_profile, resolve_profile}
use propza_amlak.Ejar.Lifecycle.Pipeline.{
  run_pipeline, mark_submitting, roll_back, execute_full_submission,
}

abbrev pub or_else : Option UserError → Option UserError → Option UserError
or_else none y = y
or_else (some x) y = some x

-- The error for a list of missing things, if anything is missing.
abbrev pub complaint : List Missing → Option UserError
complaint [] = none
complaint (m ∷ ms) = some (incomplete (m ∷ ms))

-- The error for the first of the things of which something is missing.
abbrev pub first_complaint : {A : Type 0} → (A → List Missing) → List A → Option UserError
first_complaint f [] = none
first_complaint f (x ∷ xs) = or_else (complaint (f x)) (first_complaint f xs)

-- The contract's profile, or else the company's.
abbrev pub chosen : Env → Option Profile → ℕ → Option Profile
chosen env (some p) company = some p
chosen env none company = env.profile_of_company company

abbrev pub refusal_with : Contract → Option Profile → Option UserError
refusal_with c none = some no_brokerage_profile
refusal_with c (some p) =
    or_else (complaint (profile_errors p))
      (or_else (first_complaint party_errors c.party_ids) (first_complaint unit_errors c.unit_ids))

-- Why a contract is refused, if it is: it has no profile and neither has its company, or something
-- is missing of the profile, of a party or of a unit, whichever is the first.
abbrev pub refusal : Env → Contract → Option UserError
refusal env c = refusal_with c (chosen env c.brokerage_profile_id c.company_id)

abbrev gate : {A : Type 0} → A → Option UserError → Result Exc A
gate a none = ok a
gate a (some x) = err (user x)

demand-gate : (ms : List Missing) (w : World) → demand ms w ≡ (gate tt (complaint ms), w)
unfolding demand pure raise
demand-gate [] w = refl
demand-gate (m ∷ ms) w = refl

module _ {A B : Type 0} where
  continue-gate :
      (a : A) (f : A → M B) (b : B) (o p : Option UserError) (w : World)
      → f a w ≡ (gate b p, w)
      → continue (gate a o) f w ≡ (gate b (or_else o p), w)
  continue-gate a f b none p w e = e
  continue-gate a f b (some x) p w e = refl

  -- Two checks, one after the other.
  bind-gate :
      (m : M A) (a : A) (f : A → M B) (b : B) (o p : Option UserError) (w : World)
      → m w ≡ (gate a o, w)
      → f a w ≡ (gate b p, w)
      → (m >>= f) w ≡ (gate b (or_else o p), w)
  unfolding ◌>>=◌
  bind-gate m a f b o p w e h =
      ap (λ (r : Result Exc A × World). continue r.0 f r.1) e ∙ continue-gate a f b o p w h

for_each-gate :
    {A : Type 0} (f : A → List Missing) (xs : List A) (w : World)
    → for_each xs (λ x. demand (f x)) w ≡ (gate tt (first_complaint f xs), w)
unfolding for_each pure
for_each-gate f [] w = refl
for_each-gate f (x ∷ xs) w =
    bind-gate (demand (f x)) tt _ tt _ _ w (demand-gate (f x) w) (for_each-gate f xs w)

or_else-none : (o : Option UserError) → or_else o none ≡ o
or_else-none none = refl
or_else-none (some x) = refl

-- The state after a refusal, or the calls of one that is not refused yet.
abbrev Refused : {A : Type 0} → World → UserError → Result Exc A × World → Type 0
Refused w x (r, v) = (r ≡ err (user x)) × (v.calls ≡ w.calls)

abbrev checks : Contract → Profile → M Profile
checks c p = demand (profile_errors p) >>= λ _.
    for_each c.party_ids (λ q. demand (party_errors q)) >>= λ _.
    for_each c.unit_ids (λ u. demand (unit_errors u)) >>= λ _. pure p

units-gate :
    (c : Contract) (p : Profile) (w : World)
    → (for_each c.unit_ids (λ u. demand (unit_errors u)) >>= λ _. pure p) w
      ≡ (gate p (first_complaint unit_errors c.unit_ids), w)
unfolding pure
units-gate c p w =
    bind-gate (for_each c.unit_ids (λ u. demand (unit_errors u))) tt (λ _. pure p) p
      (first_complaint unit_errors c.unit_ids) none w (for_each-gate unit_errors c.unit_ids w) refl
    ∙ ap (λ o. (gate p o, w)) (or_else-none (first_complaint unit_errors c.unit_ids))

checks-gate :
    (c : Contract) (p : Profile) (w : World) → checks c p w ≡ (gate p (refusal_with c (some p)), w)
checks-gate c p w =
    bind-gate (demand (profile_errors p)) tt _ p _ _ w (demand-gate (profile_errors p) w) (
      bind-gate (for_each c.party_ids (λ q. demand (party_errors q))) tt _ p _ _ w
        (for_each-gate party_errors c.party_ids w) (units-gate c p w))

module _ (w : World) (x : UserError) where
  checks-Refused :
      (c : Contract) (p : Profile) (v : World)
      → v.calls ≡ w.calls
      → refusal_with c (some p) ≡ some x
      → Refused w x (checks c p v)
  checks-Refused c p v q h =
      subst (Refused w x) (sym (checks-gate c p v ∙ ap (λ o. (gate p o, v)) h)) (refl, q)

  continue-Refused :
      {A B : Type 0} (f : A → M B) (r : Result Exc A) (v : World)
      → Refused w x (r, v)
      → Refused w x (continue r f v)
  continue-Refused f r v (h, q) = subst (λ r'. Refused w x (continue r' f v)) (sym h) (refl, q)

  bind-Refused :
      {A B : Type 0} (m : M A) (f : A → M B) (v : World)
      → Refused w x (m v)
      → Refused w x ((m >>= f) v)
  unfolding ◌>>=◌
  bind-Refused m f v h = continue-Refused f (m v).0 (m v).1 h

  adopt-Refused :
      (v : World) (o : Option Profile)
      → v.calls ≡ w.calls
      → refusal_with v.contract o ≡ some x
      → Refused w x ((adopt_profile o >>= checks v.contract) v)
  unfolding ◌>>=◌ update pure raise
  adopt-Refused v (some p) q h = checks-Refused v.contract p _ q h
  adopt-Refused v none q h = (ap (λ y. err (user y)) (some-injective _ _ h), q)

  choose-Refused :
      (env : Env) (v : World) (o : Option Profile)
      → v.calls ≡ w.calls
      → refusal_with v.contract (chosen env o v.contract.company_id) ≡ some x
      → Refused w x ((choose_profile env o >>= checks v.contract) v)
  unfolding ◌>>=◌ pure gets
  choose-Refused env v (some p) q h = checks-Refused v.contract p v q h
  choose-Refused env v none q h = adopt-Refused v (env.profile_of_company v.contract.company_id) q h

  handle-Refused :
      (v : World) (r : Result Exc String) → Refused w x (r, v) → Refused w x (handle r roll_back v)
  unfolding roll_back ◌>>=◌ update commit sync_log raise
  handle-Refused v r (h, q) = subst (λ r'. Refused w x (handle r' roll_back v)) (sym h) (refl, q)

  resolve-Refused :
      (env : Env) (v : World)
      → v.calls ≡ w.calls
      → refusal env v.contract ≡ some x
      → Refused w x (resolve_profile env v)
  unfolding resolve_profile ◌>>=◌ gets
  resolve-Refused env v q h = choose-Refused env v v.contract.brokerage_profile_id q h

  run_pipeline-Refused :
      (env : Env) (v : World)
      → v.calls ≡ w.calls
      → refusal env v.contract ≡ some x
      → Refused w x (run_pipeline env v)
  unfolding run_pipeline
  run_pipeline-Refused env v q h =
      bind-Refused (resolve_profile env) _ v (resolve-Refused env v q h)

-- A contract that the validation refuses (it has no profile and neither has its company, or
-- something is missing of the profile, of a party or of a unit) is not submitted: the submission
-- raises the error for the first of these in that order, and makes no call of the platform.
pub execute_full_submission-refusal :
    (env : Env) (w : World) (x : UserError)
    → refusal env w.contract ≡ some x
    → ((execute_full_submission env w).0 ≡ err (user x))
      × ((execute_full_submission env w).1.calls ≡ w.calls)
unfolding execute_full_submission mark_submitting ◌>>=◌ try_catch update commit
execute_full_submission-refusal env w x h =
    handle-Refused w x _ _ (run_pipeline-Refused w x env _ refl h)
