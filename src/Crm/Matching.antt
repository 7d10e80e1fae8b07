-- ===== src/Crm/Matching.antt =====
-- addons/sa_crm/models/sa_crm_lead.py, `_build_matching_domain`, and
-- addons/sa_crm_ai_match/models/sa_crm_lead_match.py. A type and a region are numbers, an area counts
-- hundredths of a square metre and an amount halalas; the score is that of exact fractions.
pub mod Ranking
use propza_amlak.Prelude.{
  ℕ, zero, suc, ◌+◌, ◌-◌, ◌*◌, ◌/◌, Bool, true, false, ◌&&◌, ◌||◌, not, Option, none, some, List,
  [], ◌∷◌, leb, ltb, ◌==◌, if◌then◌else◌,
}
use propza_amlak.Rental.Types.{PropertyState, draft_property}

-- The keys of the two selections, of which the first is the lead's.
pub data FurnishedPref : Type 0 where
  any furnished semi unfurnished : FurnishedPref

pub data Furnishing : Type 0 where
  unfurnished_home semi_furnished fully : Furnishing

pub data LeadType : Type 0 where
  rent buy other_type : LeadType

pub record Property : Type 0 where
  pub state : PropertyState
  pub is_reserved : Bool
  pub property_type : ℕ
  pub sa_region_id : Option ℕ
  pub sa_rooms : ℕ
  pub sa_bathrooms : ℕ
  pub sa_area_sqm : ℕ
  pub rent_amount : ℕ
  pub price_amount : ℕ
  pub sa_parking : ℕ
  pub sa_pool : Bool
  pub sa_garden : Bool
  pub sa_elevator : Bool
  pub sa_furnished : Furnishing

-- The preferences of a lead; 0 stands for none.
pub record Preferences : Type 0 where
  pub lead_type : LeadType
  pub property_type : Option ℕ
  pub preferred_region_id : Option ℕ
  pub rooms_min : ℕ
  pub rooms_max : ℕ
  pub bathrooms_min : ℕ
  pub area_min_sqm : ℕ
  pub area_max_sqm : ℕ
  pub budget_max : ℕ
  pub parking_required : Bool
  pub pool_required : Bool
  pub garden_required : Bool
  pub elevator_required : Bool
  pub furnished_pref : Option FurnishedPref

abbrev is_draft : PropertyState → Bool
is_draft draft_property = true
is_draft _ = false

abbrev is_number : Option ℕ → ℕ → Bool
is_number none n = false
is_number (some m) n = m == n

-- A wish that is not there is met.
abbrev or_none : Option ℕ → Bool → Bool
or_none none b = true
or_none (some n) b = b

abbrev at_least : ℕ → ℕ → Bool
at_least wish n = wish == 0 || leb wish n

abbrev at_most : ℕ → ℕ → Bool
at_most wish n = wish == 0 || leb n wish

abbrev wanted : Bool → Bool → Bool
wanted wish has = not wish || has

abbrev same_number : Option ℕ → Option ℕ → Bool
same_number none o = false
same_number (some n) o = is_number o n

abbrev same_key : FurnishedPref → Furnishing → Bool
same_key semi semi_furnished = true
same_key unfurnished unfurnished_home = true
same_key _ _ = false

abbrev furnished_as : Option FurnishedPref → Furnishing → Bool
furnished_as none f = true
furnished_as (some any) f = true
furnished_as (some k) f = same_key k f

abbrev in_budget : Preferences → Property → Bool
in_budget l p = elim l.lead_type [
  | rent ↦ at_most l.budget_max p.rent_amount
  | buy ↦ at_most l.budget_max p.price_amount
  | other_type ↦ true
]

abbrev pub fits : Preferences → Property → Bool
fits l p =
    is_draft p.state
    && not p.is_reserved
    && or_none l.property_type (is_number l.property_type p.property_type)
    && or_none l.preferred_region_id (same_number l.preferred_region_id p.sa_region_id)
    && at_least l.rooms_min p.sa_rooms
    && at_most l.rooms_max p.sa_rooms
    && at_least l.bathrooms_min p.sa_bathrooms
    && at_least l.area_min_sqm p.sa_area_sqm
    && at_most l.area_max_sqm p.sa_area_sqm
    && in_budget l p
    && wanted l.parking_required (ltb 0 p.sa_parking)
    && wanted l.pool_required p.sa_pool
    && wanted l.garden_required p.sa_garden
    && wanted l.elevator_required p.sa_elevator

-- `_build_matching_domain`: whether a property is in the domain.
unfoldable pub matches : Preferences → Property → Bool
matches l p = fits l p && furnished_as l.furnished_pref p.sa_furnished

-- `search`
pub matching : Preferences → List Property → List Property
unfolding matches
matching l [] = []
matching l (p ∷ ps) = let rest = matching l ps in if matches l p then p ∷ rest else rest

abbrev distance : ℕ → ℕ → ℕ
distance a b = (a - b) + (b - a)

abbrev points : ℕ → Bool → ℕ
points n b = if b then n else 0

-- `10 - |n - wish|`, not below 0, where both are set.
abbrev near : ℕ → ℕ → ℕ
near wish n = points (10 - distance n wish) (not (wish == 0) && not (n == 0))

-- `max(1.0, wish)`
abbrev scale : ℕ → ℕ
scale wish = if ltb wish 100 then 100 else wish

-- `10 - |n - wish| / scale * 10`, not below 0, times the scale.
abbrev closeness : ℕ → ℕ → ℕ
closeness wish n = 10 * scale wish - 10 * distance n wish

abbrev area_closeness : Preferences → Property → ℕ
area_closeness l p =
    points (closeness l.area_min_sqm p.sa_area_sqm)
      (not (l.area_min_sqm == 0) && not (p.sa_area_sqm == 0))

abbrev budget_closeness : Preferences → Property → ℕ
budget_closeness l p = if l.budget_max == 0 then 0 else elim l.lead_type [
  | rent ↦ closeness l.budget_max p.rent_amount
  | buy ↦ closeness l.budget_max p.price_amount
  | other_type ↦ 0
]

abbrev is_wish : Option FurnishedPref → Bool
is_wish none = false
is_wish (some any) = false
is_wish (some k) = true

-- The terms of the score that are whole.
abbrev whole_points : Preferences → Property → ℕ
whole_points l p =
    points 20 (is_number l.property_type p.property_type)
    + points 20 (same_number l.preferred_region_id p.sa_region_id)
    + near l.rooms_min p.sa_rooms
    + near l.bathrooms_min p.sa_bathrooms
    + points 5
        (not (l.area_max_sqm == 0) && not (p.sa_area_sqm == 0) && leb p.sa_area_sqm l.area_max_sqm)
    + points 5 (is_wish l.furnished_pref && furnished_as l.furnished_pref p.sa_furnished)
    + points 5 (l.parking_required && p.sa_parking == 1)
    + points 5 (l.pool_required && p.sa_pool)
    + points 5 (l.garden_required && p.sa_garden)
    + points 5 (l.elevator_required && p.sa_elevator)

-- `math.ceil` of a quotient.
abbrev ceil : ℕ → ℕ → ℕ
ceil n d = (n + (d - 1)) / d

-- `_score_property`
unfoldable pub score_property : Preferences → Property → ℕ
score_property l p =
    whole_points l p
    + ceil (area_closeness l p * scale l.budget_max + budget_closeness l p * scale l.area_min_sqm)
        (scale l.area_min_sqm * scale l.budget_max)

-- `sorted(…, reverse=True)`, which keeps the order of equals.
pub insert : Preferences → Property → List Property → List Property
unfolding score_property
insert l p [] = p ∷ []
insert l p (q ∷ qs) =
    let rest = insert l p qs in
    if leb (score_property l q) (score_property l p) then p ∷ q ∷ qs else q ∷ rest

pub sorted : Preferences → List Property → List Property
unfolding insert
sorted l [] = []
sorted l (p ∷ ps) = insert l p (sorted l ps)

-- `scored[:n]`
abbrev pub take : ℕ → List Property → List Property
take zero ps = []
take (suc n) [] = []
take (suc n) (p ∷ ps) = p ∷ take n ps

-- The properties that `action_recommend_properties` stores.
unfoldable pub action_recommend_properties : Preferences → List Property → List Property
unfolding matching sorted
action_recommend_properties l ps = take 8 (sorted l (matching l ps))
