-- ===== src/Ejar/Lifecycle/Extends.antt =====
-- A contract goes on from another: no reference that the platform has given is lost or replaced.
use mathlib.Core.Option.{some-injective}
use mathlib.Core.Path.{subst}
use propza_amlak.Prelude.{
  ℕ, zero, suc, ◌≡◌, ◌∙◌, refl, true, some, List, [], ◌∷◌, String, is_set, sym, ap,
}
use propza_amlak.Ejar.Contract.Types.{Party, ContractUnit, Contract}
use propza_amlak.Ejar.Lifecycle.World.{nth, update_at}

-- A reference that is set stays as it is.
abbrev pub Kept : String → String → Type 0
Kept s t = is_set s ≡ true → t ≡ s

pub record PartyExtends (p q : Party) : Type 0 where
  pub same_role : q.role ≡ p.role
  pub entity : Kept p.ejar_entity_id q.ejar_entity_id
  pub party : Kept p.ejar_party_id q.ejar_party_id
  pub proxy : Kept p.ejar_proxy_doc_id q.ejar_proxy_doc_id

pub record UnitExtends (u v : ContractUnit) : Type 0 where
  pub property : v.ejar_property_id ≡ u.ejar_property_id
  pub unit : v.ejar_unit_id ≡ u.ejar_unit_id
  pub attached : Kept u.ejar_contract_unit_id v.ejar_contract_unit_id

-- Entry by entry.
abbrev pub AllPairs : {A : Type 0} → (A → A → Type 0) → List A → List A → Type 0
AllPairs R [] [] = Unit
AllPairs R [] (y ∷ ys) = ⊥
AllPairs R (x ∷ xs) [] = ⊥
AllPairs R (x ∷ xs) (y ∷ ys) = R x y × AllPairs R xs ys

module _ {A : Type 0} (R : A → A → Type 0) (R_refl : (a : A) → R a a) where
  pub AllPairs-refl : (xs : List A) → AllPairs R xs xs
  AllPairs-refl [] = tt
  AllPairs-refl (x ∷ xs) = (R_refl x, AllPairs-refl xs)

  pub AllPairs-update_at :
      (i : ℕ) (f : A → A) (xs : List A) (x : A)
      → nth xs i ≡ some x
      → R x (f x)
      → AllPairs R xs (update_at i f xs)
  AllPairs-update_at i f [] x e r = tt
  AllPairs-update_at zero f (y ∷ ys) x e r =
      (subst (λ z. R z (f z)) (some-injective _ _ (sym e)) r, AllPairs-refl ys)
  AllPairs-update_at (suc i) f (y ∷ ys) x e r = (R_refl y, AllPairs-update_at i f ys x e r)

AllPairs-trans :
    {A : Type 0} (R : A → A → Type 0)
    → ((a b c : A) → R a b → R b c → R a c)
    → (xs ys zs : List A) → AllPairs R xs ys
    → AllPairs R ys zs
    → AllPairs R xs zs
AllPairs-trans R t [] [] [] p q = tt
AllPairs-trans R t [] [] (z ∷ zs) p q = q
AllPairs-trans R t [] (y ∷ ys) zs p q = absurd p
AllPairs-trans R t (x ∷ xs) [] zs p q = absurd p
AllPairs-trans R t (x ∷ xs) (y ∷ ys) [] p q = q
AllPairs-trans R t (x ∷ xs) (y ∷ ys) (z ∷ zs) p q =
    (t x y z p.0 q.0, AllPairs-trans R t xs ys zs p.1 q.1)

Kept_trans : (s t u : String) → Kept s t → Kept t u → Kept s u
Kept_trans s t u p q h = q (ap is_set (p h) ∙ h) ∙ p h

pub PartyExtends-refl : (p : Party) → PartyExtends p p
PartyExtends-refl p = record {
  same_role = refl;
  entity = λ h. refl;
  party = λ h. refl;
  proxy = λ h. refl;
}

PartyExtends-trans : (p q r : Party) → PartyExtends p q → PartyExtends q r → PartyExtends p r
PartyExtends-trans p q r a b = record {
  same_role = b.same_role ∙ a.same_role;
  entity = Kept_trans _ _ _ a.entity b.entity;
  party = Kept_trans _ _ _ a.party b.party;
  proxy = Kept_trans _ _ _ a.proxy b.proxy;
}

pub UnitExtends-refl : (u : ContractUnit) → UnitExtends u u
UnitExtends-refl u = record { property = refl; unit = refl; attached = λ h. refl }

UnitExtends-trans : (u v w : ContractUnit) → UnitExtends u v → UnitExtends v w → UnitExtends u w
UnitExtends-trans u v w a b = record {
  property = b.property ∙ a.property;
  unit = b.unit ∙ a.unit;
  attached = Kept_trans _ _ _ a.attached b.attached;
}

pub record Extends (c d : Contract) : Type 0 where
  pub registered : Kept c.ejar_contract_id d.ejar_contract_id
  pub parties : AllPairs PartyExtends c.party_ids d.party_ids
  pub units : AllPairs UnitExtends c.unit_ids d.unit_ids
  pub same_document : d.signed_doc ≡ c.signed_doc

pub Extends-refl : (c : Contract) → Extends c c
Extends-refl c = record {
  registered = λ h. refl;
  parties = AllPairs-refl PartyExtends PartyExtends-refl c.party_ids;
  units = AllPairs-refl UnitExtends UnitExtends-refl c.unit_ids;
  same_document = refl;
}

pub Extends-trans : (c d e : Contract) → Extends c d → Extends d e → Extends c e
Extends-trans c d e p q = record {
  registered = Kept_trans _ _ _ p.registered q.registered;
  parties = AllPairs-trans PartyExtends PartyExtends-trans _ _ _ p.parties q.parties;
  units = AllPairs-trans UnitExtends UnitExtends-trans _ _ _ p.units q.units;
  same_document = q.same_document ∙ p.same_document;
}

-- Every entry has a reference.
abbrev pub AllSet : {A : Type 0} → (A → String) → List A → Type 0
AllSet f [] = Unit
AllSet f (x ∷ xs) = (is_set (f x) ≡ true) × AllSet f xs

pub AllSet-extends :
    {A : Type 0} (R : A → A → Type 0) (f : A → String)
    → ((x y : A) → R x y → Kept (f x) (f y))
    → (xs ys : List A) → AllPairs R xs ys
    → AllSet f xs
    → AllSet f ys
AllSet-extends R f k [] [] p h = tt
AllSet-extends R f k [] (y ∷ ys) p h = absurd p
AllSet-extends R f k (x ∷ xs) [] p h = absurd p
AllSet-extends R f k (x ∷ xs) (y ∷ ys) p h =
    (ap is_set (k x y p.0 h.0) ∙ h.0, AllSet-extends R f k xs ys p.1 h.1)

pub AllSet-nth :
    {A : Type 0} (f : A → String) (i : ℕ) (xs : List A) (x : A)
    → nth xs i ≡ some x
    → AllSet f xs
    → is_set (f x) ≡ true
AllSet-nth f i [] x e h = cc
AllSet-nth f zero (y ∷ ys) x e h = ap (λ z. is_set (f z)) (some-injective _ _ (sym e)) ∙ h.0
AllSet-nth f (suc i) (y ∷ ys) x e h = AllSet-nth f i ys x e h.1
