-- ===== src/Rental/Alerts.antt =====
-- models/sa_rental_alert.py: the alerts of tenancies that end soon. A tenancy's identifier is its place.
-- The cron then marks late payments overdue (Payment).
pub mod Once
use propza_amlak.Prelude.{
  ℕ, suc, ◌+◌, ◌==◌, Bool, true, false, ◌&&◌, ◌||◌, Option, none, some, List, [], ◌∷◌, ◌++◌,
  if◌then◌else◌,
}
use propza_amlak.Ejar.Lifecycle.World.{update_at}
use propza_amlak.Rental.Types.{TenancyState, running, Tenancy}

pub data AlertType : Type 0 where
  expiry_30 expiry_14 overdue_payment ejar_expire : AlertType

pub data AlertState : Type 0 where
  active resolved : AlertState

pub record Alert : Type 0 where
  pub tenancy_id : ℕ
  pub alert_type : AlertType
  pub state : AlertState
  pub resolved_date : Option ℕ

-- `action_resolve` on the alert at a place.
unfoldable pub action_resolve : ℕ → ℕ → List Alert → List Alert
action_resolve today k xs =
    update_at k (λ a. record a { state = resolved; resolved_date = some today }) xs

abbrev pub same_type : AlertType → AlertType → Bool
same_type expiry_30 expiry_30 = true
same_type expiry_14 expiry_14 = true
same_type overdue_payment overdue_payment = true
same_type ejar_expire ejar_expire = true
same_type _ _ = false

abbrev pub is_active : AlertState → Bool
is_active active = true
is_active resolved = false

-- The search for an active alert of a tenancy and a type.
abbrev pub is_of : ℕ → AlertType → Alert → Bool
is_of i ty a = is_active a.state && a.tenancy_id == i && same_type a.alert_type ty

unfoldable pub existing : ℕ → AlertType → List Alert → Bool
existing i ty [] = false
existing i ty (a ∷ xs) = let rest = existing i ty xs in is_of i ty a || rest

abbrev pub new_alert : ℕ → AlertType → Alert
new_alert i ty = record { tenancy_id = i; alert_type = ty; state = active; resolved_date = none }

unfoldable pub alert : ℕ → AlertType → List Alert → List Alert
unfolding existing
alert i ty xs = if existing i ty xs then xs else xs ++ new_alert i ty ∷ []

abbrev pub is_running : TenancyState → Bool
is_running running = true
is_running _ = false

abbrev pub by_end : ℕ → ℕ → Option ℕ → List Alert → List Alert
by_end today i none xs = xs
by_end today i (some e) xs =
    if e == today + 30
    then alert i expiry_30 xs
    else if e == today + 14
    then alert i expiry_14 xs
    else xs

abbrev pub check : ℕ → ℕ → Tenancy → List Alert → List Alert
check today i t xs = if is_running t.state then by_end today i t.end_date xs else xs

unfoldable pub check_from : ℕ → ℕ → List Tenancy → List Alert → List Alert
check_from today i [] xs = xs
check_from today i (t ∷ ts) xs = check_from today (suc i) ts (check today i t xs)

-- The loop of `cron_check_expiry_alerts`.
unfoldable pub cron_check_expiry_alerts : ℕ → List Tenancy → List Alert → List Alert
unfolding check_from
cron_check_expiry_alerts today ts xs = check_from today 0 ts xs
