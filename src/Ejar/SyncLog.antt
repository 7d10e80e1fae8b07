-- ===== src/Ejar/SyncLog.antt =====
-- models/ejar_sync_log.py, and the clean-up of it in models/ejar_contract_jobs.py. Whether Odoo
-- refuses a value that a selection does not have is a parameter.
use text.Mathlib.Text.{◌==◌ as str_eq}
use propza_amlak.Prelude.{
  ℕ, ◌-◌, Bool, true, ◌&&◌, ◌||◌, not, Option, none, some, List, [], ◌∷◌, ◌++◌, String, ltb,
  if◌then◌else◌,
}

pub record Entry : Type 0 where
  pub action : String
  pub contract_id : ℕ
  pub company_id : ℕ
  pub correlation_id : String
  pub idempotency_key : String
  pub status : String
  pub error_message : String
  pub create_date : ℕ

-- The keys of the selection.
abbrev pub is_status : String → Bool
is_status s = str_eq s "success" || str_eq s "error" || str_eq s "retry" || str_eq s "skipped"

-- `log_call`: the entry that is created, or none where the selection is enforced and refuses it.
unfoldable pub log_call : Bool → Entry → List Entry → Option (List Entry)
log_call enforced e log =
    if enforced && not (is_status e.status) then none else some (log ++ e ∷ [])

-- `set(vals.keys()) <= {'active'}`
unfoldable pub are_safe : List String → Bool
are_safe [] = true
are_safe (k ∷ ks) = str_eq k "active" && are_safe ks

-- `write` of some keys, which amounts to a change of the entry.
unfoldable pub write : List String → (Entry → Entry) → Entry → Entry
unfolding are_safe
write keys f e = if are_safe keys then f e else e

abbrev pub retention : ℕ
retention = 7776000

-- `_cron_purge_old_sync_logs`, of what is older than ninety days.
unfoldable pub purge_old_sync_logs : ℕ → List Entry → List Entry
purge_old_sync_logs now [] = []
purge_old_sync_logs now (e ∷ log) =
    let rest = purge_old_sync_logs now log in
    if ltb e.create_date (now - retention) then rest else e ∷ rest
