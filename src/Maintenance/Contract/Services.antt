-- ===== src/Maintenance/Contract/Services.antt =====
-- What the nightly job makes, and that it makes it once.
use propza_amlak.Prelude.{
  ℕ, suc, ◌<◌, ◌≡◌, refl, ap, Bool, true, false, Bool-cases, inl, inr, List, [], ◌∷◌, ◌++◌, map,
  All, arith, if◌then◌else◌,
}
use propza_amlak.Rental.Schedule.{Calendar}
use propza_amlak.Rental.Schedule.Dates.{MovesOn}
use propza_amlak.Maintenance.{Request}
use propza_amlak.Maintenance.Contract.{
  Contract, Frequency, offset, request_for, create_requests, served, generate_request, is_due,
  serve, serve_from, cron_generate_due_services,
}

-- A request for each property of each contract that is due.
abbrev pub all_due : Calendar → ℕ → ℕ → List Contract → List Request
all_due cal today id [] = []
all_due cal today id (c ∷ cs) =
    let rest = all_due cal today (suc id) cs in
    if is_due cal today c then map (request_for id today c) c.property_ids ++ rest else rest

create_all :
    (creates : Request → Bool) (id today : ℕ) (c : Contract) (ps : List ℕ)
    → ((r : Request) → creates r ≡ true)
    → create_requests creates id today c ps ≡ (map (request_for id today c) ps, true)
unfolding create_requests
create_all creates id today c [] h = refl
create_all creates id today c (p ∷ ps) h = rw (h (request_for id today c p)) (
    ap (λ (m : List Request × Bool). (request_for id today c p ∷ m.0, m.1))
      (create_all creates id today c ps h))

offset-pos : (f : Frequency) → 0 < offset f
offset-pos f = ground arith

served_not_due :
    (cal : Calendar) (today : ℕ) (c : Contract)
    → MovesOn cal
    → is_due cal today (served today c true) ≡ false
served_not_due cal today c m = ground (arith, m today (offset c.frequency) (offset-pos c.frequency))

generated :
    (creates : Request → Bool) (id today : ℕ) (c : Contract)
    → ((r : Request) → creates r ≡ true)
    → generate_request creates id today c
      ≡ (map (request_for id today c) c.property_ids, served today c true)
unfolding generate_request
generated creates id today c h = rw (create_all creates id today c c.property_ids h) refl

serve_due :
    (cal : Calendar) (creates : Request → Bool) (today id : ℕ) (c : Contract)
    → ((r : Request) → creates r ≡ true)
    → is_due cal today c ≡ true
    → serve cal creates today id c
      ≡ (map (request_for id today c) c.property_ids, served today c true)
unfolding serve
serve_due cal creates today id c h d = rw d (generated creates id today c h)

serve_quiet :
    (cal : Calendar) (creates : Request → Bool) (today id : ℕ) (c : Contract)
    → is_due cal today c ≡ false
    → serve cal creates today id c ≡ ([], c)
unfolding serve
serve_quiet cal creates today id c d = rw d refl

IsServed : Calendar → ℕ → List Contract → Type 0
IsServed cal today cs = All (λ c. is_due cal today c ≡ false) cs

-- The loop makes what is due, and leaves nothing due.
loop-IsServed :
    (cal : Calendar) (creates : Request → Bool) (today id : ℕ) (cs : List Contract)
    → MovesOn cal
    → ((r : Request) → creates r ≡ true)
    → ((serve_from cal creates today id cs).0 ≡ all_due cal today id cs)
      × IsServed cal today (serve_from cal creates today id cs).1
unfolding serve_from IsServed
loop-IsServed cal creates today id [] m h = (refl, tt)
loop-IsServed cal creates today id (c ∷ cs) m h = elim (Bool-cases (is_due cal today c)) [
  | inl d ↦
      let (e, a) = loop-IsServed cal creates today (suc id) cs m h in
      rw (serve_due cal creates today id c h d, d)
        (
          ap (λ l. map (request_for id today c) c.property_ids ++ l) e,
          (served_not_due cal today c m, a),
        )
  | inr d ↦
      let (e, a) = loop-IsServed cal creates today (suc id) cs m h in
      rw (serve_quiet cal creates today id c d, d) (e, (refl, a))
]

-- Where nothing is due, the loop does nothing.
quiet_loop :
    (cal : Calendar) (creates : Request → Bool) (today id : ℕ) (cs : List Contract)
    → IsServed cal today cs
    → serve_from cal creates today id cs ≡ ([], cs)
unfolding serve_from IsServed
quiet_loop cal creates today id [] q = refl
quiet_loop cal creates today id (c ∷ cs) (h, q) = rw (serve_quiet cal creates today id c h) (
    ap (λ (p : List Request × List Contract). (p.0, c ∷ p.1))
      (quiet_loop cal creates today (suc id) cs q))

-- Where a later month is a later day and no creation fails, the nightly job makes one approved
-- request for each property of each active contract whose service is due and that is not over, and
-- no other; and run again on the same day it makes none and changes no contract.
pub services_once :
    (cal : Calendar) (creates : Request → Bool) (today : ℕ) (cs : List Contract)
    → MovesOn cal
    → ((r : Request) → creates r ≡ true)
    → let made = cron_generate_due_services cal creates today cs in
      (made.0 ≡ all_due cal today 0 cs)
      × (cron_generate_due_services cal creates today made.1 ≡ ([], made.1))
unfolding cron_generate_due_services
services_once cal creates today cs m h =
    let (e, a) = loop-IsServed cal creates today 0 cs m h in
    (e, quiet_loop cal creates today 0 (serve_from cal creates today 0 cs).1 a)
