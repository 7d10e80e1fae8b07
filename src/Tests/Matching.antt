-- ===== src/Tests/Matching.antt =====
-- A lead for a flat to rent, and two properties.
use mathlib.Core.List.{Permᴰ}
use propza_amlak.Prelude.{◌≤◌, ◌≡◌, ◌≢◌, true, false, some, List, [], ◌∷◌, ◌++◌, length, All}
use propza_amlak.Rental.Types.{draft_property}
use propza_amlak.Crm.Matching.{
  rent, any, fully, Property, Preferences, matching, action_recommend_properties,
}
use propza_amlak.Crm.Matching.Ranking.{IsBound, recommend_best}

abbrev flat : Property
flat = record {
  state = draft_property;
  is_reserved = false;
  property_type = 2;
  sa_region_id = some 1;
  sa_rooms = 3;
  sa_bathrooms = 2;
  sa_area_sqm = 12000;
  rent_amount = 500000;
  price_amount = 0;
  sa_parking = 2;
  sa_pool = false;
  sa_garden = false;
  sa_elevator = true;
  sa_furnished = fully;
}

abbrev flats : List Property
flats = flat ∷ record flat { sa_rooms = 4 } ∷ []

abbrev wishes : Preferences
wishes = record {
  lead_type = rent;
  property_type = some 2;
  preferred_region_id = some 1;
  rooms_min = 3;
  rooms_max = 0;
  bathrooms_min = 1;
  area_min_sqm = 10000;
  area_max_sqm = 0;
  budget_max = 600000;
  parking_required = true;
  pool_required = false;
  garden_required = false;
  elevator_required = false;
  furnished_pref = some any;
}

recommend_best_example :
    (others : List Property) × Permᴰ
      (matching wishes flats)
      (action_recommend_properties wishes flats ++ others)
    × (length (action_recommend_properties wishes flats) ≤ 8)
    × (others ≢ [] → length (action_recommend_properties wishes flats) ≡ 8)
    × All (IsBound wishes others) (action_recommend_properties wishes flats)
recommend_best_example = recommend_best wishes flats
