-- ===== src/Crm/Rotation/Assigned.antt =====
-- Which leads the rotation gives to which agents.
use propza_amlak.Prelude.{
  ℕ, suc, ◌≤◌, ◌≡◌, ◌≢◌, refl, sym, ap, ◌∙◌, Bool, true, false, Bool-cases, inl, inr, ◌||◌, some,
  List, [], ◌∷◌, ltb, arith, ◌==◌, if◌then◌else◌,
}
use propza_amlak.Crm.Types.{Lead}
use propza_amlak.Crm.Rotation.{
  pick, get_least_loaded_agent, is_unassigned, assign_to, assign_from,
  cron_auto_assign_unassigned_leads,
}

abbrev pub is_member : ℕ → List ℕ → Bool
is_member a [] = false
is_member a (b ∷ bs) = a == b || is_member a bs

-- One of the agents, of whom none has a smaller count.
pub record IsLeast (count : ℕ → ℕ) (agents : List ℕ) (a : ℕ) : Type 0 where
  pub member : is_member a agents ≡ true
  pub least : (b : ℕ) → is_member b agents ≡ true → count a ≤ count b

-- What becomes of a lead: as it was, where it has an agent, is not open or is archived; and else
-- only its agent is set.
pub data Becomes (count : ℕ → ℕ) (agents : List ℕ) (l : Lead) : Lead → Type 0 where
  left : is_unassigned l ≡ false → Becomes count agents l l
  given :
      (a : ℕ)
      → is_unassigned l ≡ true
      → IsLeast count agents a
      → Becomes count agents l (record l { user_id = some a })

abbrev pub AllBecome : (ℕ → ℕ → ℕ) → ℕ → List ℕ → List Lead → List Lead → Type 0
AllBecome counts i agents [] [] = Unit
AllBecome counts i agents (l ∷ ls) (m ∷ ms) =
    Becomes (counts i) agents l m × AllBecome counts (suc i) agents ls ms
AllBecome counts i agents _ _ = ⊥

member_later :
    (n a b : ℕ) (agents : List ℕ)
    → is_member n (a ∷ agents) ≡ true
    → is_member n (b ∷ a ∷ agents) ≡ true
member_later n a b agents h = ground arith

member_between :
    (n a b : ℕ) (agents : List ℕ)
    → is_member n (b ∷ agents) ≡ true
    → is_member n (b ∷ a ∷ agents) ≡ true
member_between n a b agents h = ground arith

pick-member :
    (count : ℕ → ℕ) (best : ℕ) (agents : List ℕ) (n : ℕ)
    → pick count best agents ≡ n
    → is_member n (best ∷ agents) ≡ true
pick-member count best [] n e = ground arith
pick-member count best (a ∷ agents) n e = elim (Bool-cases (ltb (count a) (count best))) [
  | inl h ↦ member_later n a best agents (
      pick-member count a agents n
        (ap (λ b. pick count (if b then a else best) agents) (sym h) ∙ e))
  | inr h ↦ member_between n a best agents (
      pick-member count best agents n
        (ap (λ b. pick count (if b then a else best) agents) (sym h) ∙ e))
]

pick-least :
    (count : ℕ → ℕ) (best : ℕ) (agents : List ℕ)
    → (count (pick count best agents) ≤ count best)
      × ((b : ℕ) → is_member b agents ≡ true → count (pick count best agents) ≤ count b)
pick-least count best [] = (omega arith, λ b h. ground arith)
pick-least count best (a ∷ agents) = elim (Bool-cases (ltb (count a) (count best))) [
  | inl h ↦
      let (l, m) = pick-least count a agents in rw h (ground arith, λ b e. ground (arith, m b))
  | inr h ↦
      let (l, m) = pick-least count best agents in rw h (ground arith, λ b e. ground (arith, m b))
]

pick-IsLeast :
    (count : ℕ → ℕ) (a : ℕ) (agents : List ℕ) → IsLeast count (a ∷ agents) (pick count a agents)
pick-IsLeast count a agents =
    let (l, m) = pick-least count a agents in
    record { member = pick-member count a agents _ refl; least = λ b h. ground (arith, m b) }

assign_to-Becomes :
    (count : ℕ → ℕ) (agents : List ℕ) (a : ℕ) (l : Lead)
    → IsLeast count agents a
    → Becomes count agents l (assign_to (some a) l)
assign_to-Becomes count agents a l x = elim (Bool-cases (is_unassigned l)) [
  | inl h ↦ rw h (given a h x)
  | inr h ↦ rw h (left h)
]

from-AllBecome :
    (counts : ℕ → ℕ → ℕ) (i a : ℕ) (agents : List ℕ) (ls : List Lead)
    → AllBecome counts i (a ∷ agents) ls (assign_from counts i (a ∷ agents) ls)
unfolding assign_from get_least_loaded_agent
from-AllBecome counts i a agents [] = tt
from-AllBecome counts i a agents (l ∷ ls) = (
  assign_to-Becomes (counts i) (a ∷ agents) _ l (pick-IsLeast (counts i) a agents),
  from-AllBecome counts (suc i) a agents ls,
)

-- Where there is an eligible agent, whatever the query counts each time: every open lead that is not
-- archived and has no agent gets one of the agents with the least count that the query gives for
-- that lead, with all its other fields as they were; every other lead stays as it is, and none is
-- lost or added.
pub auto_assign-AllBecome :
    (counts : ℕ → ℕ → ℕ) (agents : List ℕ) (ls : List Lead)
    → agents ≢ []
    → AllBecome counts 0 agents ls (cron_auto_assign_unassigned_leads counts agents ls)
unfolding cron_auto_assign_unassigned_leads
auto_assign-AllBecome counts [] ls n = absurd (n refl)
auto_assign-AllBecome counts (a ∷ agents) ls n = from-AllBecome counts 0 a agents ls
