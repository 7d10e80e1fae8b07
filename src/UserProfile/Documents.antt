-- ===== src/UserProfile/Documents.antt =====
-- models/sa_user_document.py: the state of a document, from its last day.
use propza_amlak.Prelude.{ℕ, ◌+◌, Option, none, some, leb, ltb, if◌then◌else◌}

pub data DocumentState : Type 0 where
  active expiring_soon expired archived : DocumentState

pub record Document : Type 0 where
  pub expiry_date : Option ℕ
  pub state : DocumentState

-- `(expiry_date - today).days <= 30`
abbrev state_on : ℕ → Option ℕ → DocumentState
state_on today none = active
state_on today (some e) =
    if ltb e today then expired else if leb e (today + 30) then expiring_soon else active

abbrev recomputed : ℕ → DocumentState → Document → Document
recomputed today archived d = d
recomputed today s d = record d { state = state_on today d.expiry_date }

-- `_compute_state`, which leaves an archived document.
unfoldable pub compute_state : ℕ → Document → Document
compute_state today d = recomputed today d.state d

unfoldable pub action_archive : Document → Document
action_archive d = record d { state = archived }

unfoldable pub action_restore : ℕ → Document → Document
unfolding compute_state
action_restore today d = compute_state today (record d { state = active })
