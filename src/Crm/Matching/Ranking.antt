-- ===== src/Crm/Matching/Ranking.antt =====
-- That the properties which are recommended are the best.
use mathlib.Core.List.Permᴰ
use mathlib.Core.List.{Permᴰ}
use mathlib.Core.Path.{subst}
use propza_amlak.Prelude.{
  ℕ, zero, suc, ◌≤◌, ◌≡◌, ◌≢◌, refl, sym, ap, Bool, true, false, Bool-cases, inl, inr, ◌&&◌, some,
  List, [], ◌∷◌, ◌++◌, length, All, arith, leb,
}
use propza_amlak.Crm.Matching.{
  furnished, Property, Preferences, fits, matches, matching, score_property, insert, sorted, take,
  action_recommend_properties,
}

insert-Permᴰ :
    (l : Preferences) (p : Property) (qs : List Property) → Permᴰ (p ∷ qs) (insert l p qs)
unfolding insert
insert-Permᴰ l p [] = Permᴰ.refl (p ∷ [])
insert-Permᴰ l p (q ∷ qs) = elim (Bool-cases (leb (score_property l q) (score_property l p))) [
  | inl h ↦ rw h (Permᴰ.refl (p ∷ q ∷ qs))
  | inr h ↦ rw h (Permᴰ.trans (Permᴰ.swap refl refl) (Permᴰ.cons refl (insert-Permᴰ l p qs)))
]

sorted-Permᴰ : (l : Preferences) (ps : List Property) → Permᴰ ps (sorted l ps)
unfolding sorted
sorted-Permᴰ l [] = Permᴰ.nil
sorted-Permᴰ l (p ∷ ps) =
    Permᴰ.trans (Permᴰ.cons refl (sorted-Permᴰ l ps)) (insert-Permᴰ l p (sorted l ps))

-- None of the properties has a higher score.
abbrev pub IsBound : Preferences → List Property → Property → Type 0
IsBound l ps p = All (λ q. score_property l q ≤ score_property l p) ps

abbrev IsRanked : Preferences → List Property → Type 0
IsRanked l [] = Unit {0}
IsRanked l (p ∷ ps) = IsBound l ps p × IsRanked l ps

IsBound-trans :
    (l : Preferences) (p q : Property) (ps : List Property)
    → score_property l q ≤ score_property l p
    → IsBound l ps q
    → IsBound l ps p
IsBound-trans l p q [] h b = tt
IsBound-trans l p q (x ∷ xs) h (b, bs) = (omega arith, IsBound-trans l p q xs h bs)

insert-IsBound :
    (l : Preferences) (q p : Property) (ps : List Property)
    → score_property l p ≤ score_property l q
    → IsBound l ps q
    → IsBound l (insert l p ps) q
unfolding insert
insert-IsBound l q p [] h b = (h, tt)
insert-IsBound l q p (x ∷ xs) h (b, bs) =
    elim (Bool-cases (leb (score_property l x) (score_property l p))) [
      | inl e ↦ rw e (h, (b, bs))
      | inr e ↦ rw e (b, insert-IsBound l q p xs h bs)
    ]

insert-IsRanked :
    (l : Preferences) (p : Property) (ps : List Property)
    → IsRanked l ps
    → IsRanked l (insert l p ps)
unfolding insert
insert-IsRanked l p [] r = (tt, tt)
insert-IsRanked l p (x ∷ xs) (b, r) =
    elim (Bool-cases (leb (score_property l x) (score_property l p))) [
      | inl e ↦ rw e ((ground arith, IsBound-trans l p x xs (ground arith) b), (b, r))
      | inr e ↦ rw e (insert-IsBound l x p xs (ground arith) b, insert-IsRanked l p xs r)
    ]

sorted-IsRanked : (l : Preferences) (ps : List Property) → IsRanked l (sorted l ps)
unfolding sorted
sorted-IsRanked l [] = tt
sorted-IsRanked l (p ∷ ps) = insert-IsRanked l p (sorted l ps) (sorted-IsRanked l ps)

abbrev drop : ℕ → List Property → List Property
drop zero ps = ps
drop (suc n) [] = []
drop (suc n) (p ∷ ps) = drop n ps

take-drop : (n : ℕ) (ps : List Property) → take n ps ++ drop n ps ≡ ps
take-drop zero ps = refl
take-drop (suc n) [] = refl
take-drop (suc n) (p ∷ ps) = ap (λ l. p ∷ l) (take-drop n ps)

drop-IsBound :
    (l : Preferences) (n : ℕ) (p : Property) (ps : List Property)
    → IsBound l ps p
    → IsBound l (drop n ps) p
drop-IsBound l zero p ps b = b
drop-IsBound l (suc n) p [] b = tt
drop-IsBound l (suc n) p (x ∷ xs) (b, bs) = drop-IsBound l n p xs bs

take-best :
    (l : Preferences) (n : ℕ) (ps : List Property)
    → IsRanked l ps
    → All (IsBound l (drop n ps)) (take n ps)
take-best l zero ps r = tt
take-best l (suc n) [] r = tt
take-best l (suc n) (p ∷ ps) (b, r) = (drop-IsBound l n p ps b, take-best l n ps r)

length-take :
    (n : ℕ) (ps : List Property)
    → (length (take n ps) ≤ n) × (drop n ps ≢ [] → length (take n ps) ≡ n)
length-take zero ps = (omega arith, λ h. refl)
length-take (suc n) [] = (omega arith, λ h. absurd (h refl))
length-take (suc n) (p ∷ ps) = let (u, e) = length-take n ps in (omega arith, λ h. ap suc (e h))

-- Recommending parts the properties that match a lead into those recommended and the others: eight
-- at most, and eight unless nothing is left over, of which each has a score as high as that of every
-- other one.
pub recommend_best :
    (l : Preferences) (ps : List Property)
    → (others : List Property) × Permᴰ (matching l ps) (action_recommend_properties l ps ++ others)
      × (length (action_recommend_properties l ps) ≤ 8)
      × (others ≢ [] → length (action_recommend_properties l ps) ≡ 8)
      × All (IsBound l others) (action_recommend_properties l ps)
unfolding action_recommend_properties
recommend_best l ps =
    let ranked = sorted l (matching l ps) in
    (
      drop 8 ranked,
      subst (λ x. Permᴰ (matching l ps) x) (sym (take-drop 8 ranked))
          (sorted-Permᴰ l (matching l ps)),
      (length-take 8 ranked).0,
      (length-take 8 ranked).1,
      take-best l 8 ranked (sorted-IsRanked l (matching l ps)),
    )

no_match :
    (l : Preferences) (p : Property) → l.furnished_pref ≡ some furnished → matches l p ≡ false
unfolding matches
no_match l p h = rw h (none_of (fits l p))
  where
    none_of : (b : Bool) → b && false ≡ false
    none_of true = refl
    none_of false = refl

none_match :
    (l : Preferences) (ps : List Property) → l.furnished_pref ≡ some furnished → matching l ps ≡ []
unfolding matching
none_match l [] h = refl
none_match l (p ∷ ps) h = rw (no_match l p h) (none_match l ps h)

-- A lead that wants a furnished property is recommended none, whatever there is: no property has
-- that key.
furnished-none :
    (l : Preferences) (ps : List Property)
    → l.furnished_pref ≡ some furnished
    → action_recommend_properties l ps ≡ []
unfolding action_recommend_properties
furnished-none l ps h = ap (λ qs. take 8 (sorted l qs)) (none_match l ps h)
