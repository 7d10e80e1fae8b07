-- ===== src/Ejar/Lifecycle/Progress.antt =====
-- The relation `Progress` between the worlds before and after a part of a submission: it speaks of
-- references kept and of calls that create. A rule for each way to build an action.
use propza_amlak.Prelude.{
  ℕ, suc, ◌≡◌, ◌∙◌, ap, refl, Bool, true, false, Option, List, [], ◌∷◌, String, is_set, Result, ok,
  err, if◌then◌else◌,
}
use propza_amlak.Ejar.Errors.Status.{EjarError}
use propza_amlak.Ejar.Contract.Types.{Party, ContractUnit, Exc, Contract}
use propza_amlak.Ejar.Lifecycle.World.{
  Call, create_entity, create_contract, attach_unit, add_party, LogStatus, World, M, pure, raise,
  gets, continue, ◌>>=◌, try_catch, handle, for_each, commit, update, sync_log, build,
}
use propza_amlak.Ejar.Lifecycle.Extends.{
  PartyExtends, UnitExtends, Extends, Extends-refl, Extends-trans, AllSet, AllSet-extends,
}

abbrev pub is_entity_call : Call → Bool
is_entity_call (create_entity t a) = true
is_entity_call _ = false

abbrev pub is_contract_call : Call → Bool
is_contract_call (create_contract a) = true
is_contract_call _ = false

abbrev pub is_unit_call : Call → Bool
is_unit_call (attach_unit c p u) = true
is_unit_call _ = false

abbrev pub is_party_call : Call → Bool
is_party_call (add_party c a) = true
is_party_call _ = false

-- How many of the calls pass a test.
abbrev pub count : (Call → Bool) → List Call → ℕ
count p [] = 0
count p (c ∷ cs) = let rest = count p cs in if p c then suc rest else rest

abbrev pub HasEntities : Contract → Type 0
HasEntities c = AllSet (λ (p : Party). p.ejar_entity_id) c.party_ids

abbrev pub HasParties : Contract → Type 0
HasParties c = AllSet (λ (p : Party). p.ejar_party_id) c.party_ids

abbrev pub HasUnits : Contract → Type 0
HasUnits c = AllSet (λ (u : ContractUnit). u.ejar_contract_unit_id) c.unit_ids

-- From `w` to `w'`: references are kept, and a kind of resource that is complete in `w` is not
-- created any more.
pub record Progress (w w' : World) : Type 0 where
  pub kept : Extends w.contract w'.contract
  pub entities :
      HasEntities w.contract → count is_entity_call w'.calls ≡ count is_entity_call w.calls
  pub registered :
      is_set w.contract.ejar_contract_id ≡ true
      → count is_contract_call w'.calls ≡ count is_contract_call w.calls
  pub units : HasUnits w.contract → count is_unit_call w'.calls ≡ count is_unit_call w.calls
  pub parties : HasParties w.contract → count is_party_call w'.calls ≡ count is_party_call w.calls

pub HasEntities-Extends : {c d : Contract} → Extends c d → HasEntities c → HasEntities d
HasEntities-Extends e = AllSet-extends PartyExtends _ (λ x y r. r.entity) _ _ e.parties

pub HasParties-Extends : {c d : Contract} → Extends c d → HasParties c → HasParties d
HasParties-Extends e = AllSet-extends PartyExtends _ (λ x y r. r.party) _ _ e.parties

pub HasUnits-Extends : {c d : Contract} → Extends c d → HasUnits c → HasUnits d
HasUnits-Extends e = AllSet-extends UnitExtends _ (λ x y r. r.attached) _ _ e.units

pub Progress-trans : {a b c : World} → Progress a b → Progress b c → Progress a c
Progress-trans p q = record {
  kept = Extends-trans _ _ _ p.kept q.kept;
  entities = λ h. q.entities (HasEntities-Extends p.kept h) ∙ p.entities h;
  registered = λ h. q.registered (ap is_set (p.kept.registered h) ∙ h) ∙ p.registered h;
  units = λ h. q.units (HasUnits-Extends p.kept h) ∙ p.units h;
  parties = λ h. q.parties (HasParties-Extends p.kept h) ∙ p.parties h;
}

-- A change that makes no call.
pub Progress-quiet :
    {w w' : World} → Extends w.contract w'.contract → w'.calls ≡ w.calls → Progress w w'
Progress-quiet e q = record {
  kept = e;
  entities = λ h. ap (count is_entity_call) q;
  registered = λ h. ap (count is_contract_call) q;
  units = λ h. ap (count is_unit_call) q;
  parties = λ h. ap (count is_party_call) q;
}

pub Progress-refl : (w : World) → Progress w w
Progress-refl w = Progress-quiet (Extends-refl w.contract) refl

-- The rules, one for each way to build an action; `At w m` is that `m` respects `Progress` at `w`.
abbrev pub At : {A : Type 0} → World → M A → Type 0
At w m = Progress w (m w).1

module _ {A B : Type 0} where
  continue_rule :
      (f : A → M B) (w w' : World) (r : Result Exc A)
      → Progress w w'
      → ((a : A) → r ≡ ok a → At w' (f a))
      → Progress w (continue r f w').1
  continue_rule f w w' (ok a) p k = Progress-trans p (k a refl)
  continue_rule f w w' (err e) p k = p

  pub bind_rule :
      (w : World) (m : M A) (f : A → M B)
      → At w m
      → ((a : A) → (m w).0 ≡ ok a → At (m w).1 (f a))
      → At w (m >>= f)
  unfolding ◌>>=◌
  bind_rule w m f p k = continue_rule f w (m w).1 (m w).0 p k

  -- Reading the state.
  pub gets_rule : (w : World) (g : World → A) (f : A → M B) → At w (f (g w)) → At w (gets g >>= f)
  unfolding ◌>>=◌ gets
  gets_rule w g f p = p

  -- What the builder gives, or its exception.
  pub build_rule :
      (w : World) (r : Result EjarError A) (f : A → M B)
      → ((a : A) → r ≡ ok a → At w (f a))
      → At w (build r >>= f)
  unfolding ◌>>=◌ build
  build_rule w (ok a) f p = p a refl
  build_rule w (err e) f p = Progress-refl w

module _ {A : Type 0} where
  handle_rule :
      (h : Exc → M A) (w w' : World) (r : Result Exc A)
      → Progress w w'
      → ((e : Exc) → At w' (h e))
      → Progress w (handle r h w').1
  handle_rule h w w' (ok a) p k = p
  handle_rule h w w' (err e) p k = Progress-trans p (k e)

  pub try_rule :
      (w : World) (m : M A) (h : Exc → M A)
      → At w m
      → ((e : Exc) → At (m w).1 (h e))
      → At w (try_catch m h)
  unfolding try_catch
  try_rule w m h p k = handle_rule h w (m w).1 (m w).0 p k

  pub pure_rule : (w : World) (a : A) → At w (pure a)
  unfolding pure
  pure_rule w a = Progress-refl w

  pub if_rule :
      (w : World) (b : Bool) (m n : M A)
      → (b ≡ true → At w m)
      → (b ≡ false → At w n)
      → At w (if b then m else n)
  if_rule w true m n p q = p refl
  if_rule w false m n p q = q refl

pub raise_rule : (A : Type 0) (w : World) (e : Exc) → At w (raise {A = A} e)
unfolding raise
raise_rule A w e = Progress-refl w

pub commit_rule : (w : World) → At w commit
unfolding commit
commit_rule w = Progress-quiet (Extends-refl w.contract) refl

pub log_rule : (w : World) (a : String) (s : LogStatus) (c : Option Exc) → At w (sync_log a s c)
unfolding sync_log
log_rule w a s c = Progress-quiet (Extends-refl w.contract) refl

pub update_rule :
    (w : World) (f : Contract → Contract) → Extends w.contract (f w.contract) → At w (update f)
unfolding update
update_rule w f e = Progress-quiet e refl

pub for_each_rule {ℓ} :
    {A : Type ℓ} (xs : List A) (f : A → M (Unit {0}))
    → ((w : World) (x : A) → At w (f x))
    → (w : World) → At w (for_each xs f)
unfolding for_each
for_each_rule [] f k w = pure_rule w tt
for_each_rule (x ∷ xs) f k w =
    bind_rule w (f x) (λ _. for_each xs f) (k w x) (λ a e. for_each_rule xs f k (f x w).1)
