-- ===== src/Ejar/Lifecycle/World.antt =====
-- The state that a submission runs in, as a monad of state and exceptions: what the transaction
-- holds, what is committed, and the calls made so far. What is written before an exception stays
-- written.
use propza_amlak.Prelude.{
  ℕ, zero, suc, Option, none, some, List, [], ◌∷◌, ◌++◌, String, Result, ok, err,
}
use propza_amlak.Ejar.Errors.Status.{EjarError, Body}
use propza_amlak.Ejar.Contract.Types.{EntityType, Profile, Exc, ejar, Contract}
use propza_amlak.Ejar.Payload.{Attributes}

-- A call of the API, with what is sent.
pub data Call : Type 0 where
  create_entity : EntityType → Attributes → Call
  create_contract : Attributes → Call
  attach_unit : String → String → String → Call
  add_party : String → Attributes → Call
  upload_proxy_document : String → String → String → String → String → Call
  upload_signed_document : String → String → String → Call
  add_financial_information add_rental_fee : String → Attributes → Call
  submit_contract get_contract : String → Call

pub data LogStatus : Type 0 where
  success error skipped : LogStatus

-- An entry of `ejar.sync.log`: its action, its status and the exception that it reports.
pub record Log : Type 0 where
  pub action : String
  pub status : LogStatus
  pub cause : Option Exc

pub record World : Type 0 where
  pub contract : Contract
  pub logs : List Log
  pub saved_contract : Contract
  pub saved_logs : List Log
  pub calls : List Call

-- What the service does not decide: the answer of the API to a call after the calls before it
-- (the client raises its exceptions), the exception that the constructor of the client raises, the
-- profile that Odoo finds for a company, and the time.
pub record Env : Type 0 where
  pub reply : List Call → Call → Result EjarError Body
  pub connect : Option EjarError
  pub profile_of_company : ℕ → Option Profile
  pub now : ℕ

abbrev pub M : Type 0 → Type 0
M A = World → Result Exc A × World

module _ {A : Type 0} where
  unfoldable pub pure : A → M A
  pure a w = (ok a, w)

  unfoldable pub raise : Exc → M A
  raise e w = (err e, w)

  unfoldable pub gets : (World → A) → M A
  gets f w = (ok (f w), w)

unfoldable pub modify : (World → World) → M (Unit {0})
modify f w = (ok tt, f w)

module _ {A B : Type 0} where
  abbrev pub continue : Result Exc A → (A → M B) → M B
  continue (ok a) f w = f a w
  continue (err e) f w = (err e, w)

  infixl 5 ◌>>=◌ ◌>>◌
  unfoldable pub ◌>>=◌ : M A → (A → M B) → M B
  ◌>>=◌ m f w = let (r, w') = m w in continue r f w'

  abbrev pub ◌>>◌ : M A → M B → M B
  m >> n = m >>= λ _. n

module _ {A : Type 0} where
  -- `try: m; except Exception as e: h(e)`
  abbrev pub handle : Result Exc A → (Exc → M A) → M A
  handle (ok a) h w = (ok a, w)
  handle (err e) h w = h e w

  unfoldable pub try_catch : M A → (Exc → M A) → M A
  try_catch m h w = let (r, w') = m w in handle r h w'

-- `for x in xs: f(x)`
unfoldable pub for_each {ℓ} : {A : Type ℓ} → List A → (A → M (Unit {0})) → M (Unit {0})
for_each [] f = pure tt
for_each (x ∷ xs) f = f x >> for_each xs f

-- `self._env.cr.commit()`
unfoldable pub commit : M (Unit {0})
commit w = (ok tt, record w { saved_contract = w.contract; saved_logs = w.logs })

-- A write to the contract.
unfoldable pub update : (Contract → Contract) → M (Unit {0})
update f w = (ok tt, record w { contract = f w.contract })

-- `_sync_log`
unfoldable pub sync_log : String → LogStatus → Option Exc → M (Unit {0})
sync_log action status cause w = (
  ok tt,
  record w { logs = w.logs ++ record { action = action; status = status; cause = cause } ∷ [] },
)

abbrev pub as_exc : {A : Type 0} → Result EjarError A → Result Exc A
as_exc (ok a) = ok a
as_exc (err e) = err (ejar e)

-- A call of the client.
unfoldable pub call : Env → Call → M Body
call env c w = (as_exc (env.reply w.calls c), record w { calls = c ∷ w.calls })

-- A call in a `try` of its own: the exception is the value.
unfoldable pub attempt : Env → Call → M (Result EjarError Body)
attempt env c w = (ok (env.reply w.calls c), record w { calls = c ∷ w.calls })

-- The builder's result.
unfoldable pub build : {A : Type 0} → Result EjarError A → M A
build r w = (as_exc r, w)

-- `xs[i]`, and a write to it.
abbrev pub nth : {A : Type 0} → List A → ℕ → Option A
nth [] i = none
nth (x ∷ xs) zero = some x
nth (x ∷ xs) (suc i) = nth xs i

abbrev pub update_at : {A : Type 0} → ℕ → (A → A) → List A → List A
update_at i f [] = []
update_at zero f (x ∷ xs) = f x ∷ xs
update_at (suc i) f (x ∷ xs) = x ∷ update_at i f xs

-- The places of a list, in order.
abbrev pub places : {A : Type 0} → ℕ → List A → List ℕ
places i [] = []
places i (x ∷ xs) = i ∷ places (suc i) xs

-- The party or unit at a place, as it is now; the loops name no place beyond the list.
abbrev pub with_some : {A B : Type 0} → Option A → M B → (A → M B) → M B
with_some none d f = d
with_some (some a) d f = f a
