-- ===== src/Ejar/Webhook/Events.antt =====
-- What an event does to its contract.
use text.Mathlib.Text.{◌==◌ as str_eq}
use propza_amlak.Prelude.{
  ◌≡◌, refl, ◌∙◌, ap, Bool, false, ◌||◌, List, [], ◌∷◌, map, String, if◌then◌else◌, Bool-cases, inl,
  inr,
}
use propza_amlak.Ejar.Contract.Types.{Status, approved, rejected, synced, Party, Contract}
use propza_amlak.Ejar.Webhook.{sync_party, sync_parties}

-- The status that an event gives a contract.
abbrev pub event_status : String → Status → Status
event_status e s =
    if str_eq e "contract.approved"
    then approved
    else if str_eq e "contract.rejected"
    then rejected
    else s

-- Does an identifier occur in a list?
abbrev pub is_listed : String → List String → Bool
is_listed x [] = false
is_listed x (id ∷ ids) = str_eq x id || is_listed x ids

-- A party that an acknowledgement names is synced; another is left alone.
abbrev pub acknowledged : List String → Party → Party
acknowledged ids p = if is_listed p.ejar_party_id ids then record p { sync_state = synced } else p

acknowledged_step :
    (id : String) (ids : List String) (p : Party)
    → acknowledged ids (sync_party id p) ≡ acknowledged (id ∷ ids) p
acknowledged_step id ids p = elim (Bool-cases (str_eq p.ejar_party_id id)) [
  | inl h ↦ elim (Bool-cases (is_listed p.ejar_party_id ids)) [
    | inl k ↦ simp (h, k) refl
    | inr k ↦ simp (h, k) refl
  ]
  | inr h ↦ elim (Bool-cases (is_listed p.ejar_party_id ids)) [
    | inl k ↦ simp (h, k) refl
    | inr k ↦ simp (h, k) refl
  ]
]

map_step :
    (id : String) (ids : List String) (ps : List Party)
    → map (acknowledged ids) (map (sync_party id) ps) ≡ map (acknowledged (id ∷ ids)) ps
map_step id ids [] = refl
map_step id ids (p ∷ ps) =
    ap (λ q. q ∷ map (acknowledged ids) (map (sync_party id) ps)) (acknowledged_step id ids p)
    ∙ ap (λ qs. acknowledged (id ∷ ids) p ∷ qs) (map_step id ids ps)

map_none : (ps : List Party) → ps ≡ map (acknowledged []) ps
map_none [] = refl
map_none (p ∷ ps) = ap (λ qs. p ∷ qs) (map_none ps)

-- The writes of an acknowledgement, one search of the parties for each identifier that it names,
-- amount to one pass over the parties: each party whose identifier is named is synced, every other
-- party is as it was, and the order is kept.
sync_parties-acknowledged :
    (ids : List String) (ps : List Party) → sync_parties ids ps ≡ map (acknowledged ids) ps
unfolding sync_parties
sync_parties-acknowledged [] ps = map_none ps
sync_parties-acknowledged (id ∷ ids) ps =
    sync_parties-acknowledged ids (map (sync_party id) ps) ∙ map_step id ids ps
