-- ===== src/Ejar/Auth.antt =====
-- services/auth_service.py: the credentials of a company, from three sources in order, behind a
-- cache with a lifetime. The readings of `time.monotonic()` and of `datetime.now()` are numbers of
-- seconds. What Odoo holds, the system parameters and the token model, is a `Config`.
pub mod Cache
pub mod Sources
use Prim.Native.String.{◌++◌}
use text.Mathlib.Text.{◌==◌ as str_eq}
use propza_amlak.Prelude.{
  ℕ, ◌+◌, Bool, true, false, Option, none, some, ◌||◌, not, String, leb, ltb, if◌then◌else◌, is_set,
  or_text, show, Result, ok, err, assign,
}
use propza_amlak.Ejar.Errors.Classes.{configuration_error, token_expired_error}
use propza_amlak.Ejar.Errors.Status.{EjarError, make_error}

pub record EjarCredentials : Type 0 where
  pub api_key : String
  pub api_secret : String
  pub company_id : ℕ
  pub environment : String

-- `environment in VALID_ENVIRONMENTS`
abbrev pub is_valid_environment : String → Bool
is_valid_environment e = str_eq e "uat" || str_eq e "production"

-- The constructor with its `__post_init__`.
pub make_credentials : String → String → ℕ → String → Result EjarError EjarCredentials
make_credentials key secret company env =
    if not (is_set key)
    then err (make_error configuration_error "api_key is empty")
    else if not (is_set secret)
    then err (make_error configuration_error "api_secret is empty")
    else if not (is_valid_environment env)
    then err (make_error configuration_error ("Unknown environment " ++ env))
    else ok (record { api_key = key; api_secret = secret; company_id = company; environment = env })

pub record CacheEntry : Type 0 where
  pub credentials : EjarCredentials
  pub expires_at : ℕ

abbrev pub CredentialCache : Type 0
CredentialCache = ℕ → Option CacheEntry

abbrev pub ttl_seconds : ℕ
ttl_seconds = 300

abbrev read_entry :
    ℕ → ℕ → CredentialCache → Option CacheEntry → Option EjarCredentials × CredentialCache
read_entry now company cache none = (none, cache)
read_entry now company cache (some e) =
    if leb e.expires_at now then (none, assign company none cache) else (some e.credentials, cache)

-- `_CredentialCache.get`, `set`, `invalidate` and `clear`
unfoldable pub cache_get : ℕ → ℕ → CredentialCache → Option EjarCredentials × CredentialCache
cache_get now company cache = read_entry now company cache (cache company)

unfoldable pub cache_set : ℕ → EjarCredentials → CredentialCache → CredentialCache
cache_set now c cache =
    assign c.company_id (some (record { credentials = c; expires_at = now + ttl_seconds })) cache

unfoldable pub cache_invalidate : ℕ → CredentialCache → CredentialCache
cache_invalidate company cache = assign company none cache

unfoldable pub cache_clear : CredentialCache → CredentialCache
cache_clear cache company = none

-- A record of `propza.ejar.api.token`; a field that is missing or empty is the empty text.
pub record Token : Type 0 where
  pub expires_at : Option ℕ
  pub api_key : String
  pub api_secret_key : String
  pub environment : String

-- What the search for the newest active token of a company gives.
pub data TokenRead : Type 0 where
  not_installed read_error not_found : TokenRead
  found : Token → TokenRead

pub record Config : Type 0 where
  pub token : ℕ → TokenRead
  pub param : String → Option String

abbrev pub get_param : Config → String → String → String
get_param cfg key default = elim (cfg.param key) [ none ↦ default | some v ↦ v ]

abbrev is_expired : ℕ → Option ℕ → Bool
is_expired wall none = false
is_expired wall (some t) = ltb t wall

abbrev pub as_some : Result EjarError EjarCredentials → Result EjarError (Option EjarCredentials)
as_some (ok c) = ok (some c)
as_some (err e) = err e

token_credentials : ℕ → ℕ → TokenRead → Result EjarError (Option EjarCredentials)
unfolding make_credentials
token_credentials wall company not_installed = ok none
token_credentials wall company read_error = ok none
token_credentials wall company not_found = ok none
token_credentials wall company (found t) =
    if is_expired wall t.expires_at
    then err
        (make_error token_expired_error ("Ejar token for company " ++ show company ++ " expired"))
    else if not (is_set t.api_key) || not (is_set t.api_secret_key)
    then ok none
    else as_some (make_credentials t.api_key t.api_secret_key company (or_text t.environment "uat"))

unfoldable pub from_token_model : ℕ → Config → ℕ → Result EjarError (Option EjarCredentials)
unfolding token_credentials
from_token_model wall cfg company = token_credentials wall company (cfg.token company)

-- The key of a parameter, with the company's number behind it if it is scoped.
abbrev pub param_key : Bool → String → ℕ → String
param_key true name company = name ++ ".company_" ++ show company
param_key false name company = name

-- `except Exception: return None`
abbrev swallow : Result EjarError EjarCredentials → Option EjarCredentials
swallow (ok c) = some c
swallow (err e) = none

unfoldable pub from_config_params : Config → ℕ → Bool → Option EjarCredentials
unfolding make_credentials
from_config_params cfg company scoped =
    let api_key = get_param cfg (param_key scoped "ejar.api.key" company) String.[] in
    let api_secret = get_param cfg (param_key scoped "ejar.api.secret" company) String.[] in
    let environment = get_param cfg (param_key scoped "ejar.api.environment" company) "uat" in
    if not (is_set api_key) || not (is_set api_secret)
    then none
    else swallow (
        make_credentials api_key api_secret company
          (if is_valid_environment environment then environment else "uat"))

abbrev or_else :
    Option EjarCredentials → Result EjarError EjarCredentials → Result EjarError EjarCredentials
or_else none r = r
or_else (some c) r = ok c

abbrev then_params :
    Result EjarError (Option EjarCredentials) → Config → ℕ → Result EjarError EjarCredentials
then_params (err e) cfg company = err e
then_params (ok (some c)) cfg company = ok c
then_params (ok none) cfg company = or_else (from_config_params cfg company true) (
    or_else (from_config_params cfg company false) (
      err (
        make_error configuration_error
          ("No Ejar API credentials configured for company " ++ show company))))

unfoldable pub resolve : ℕ → Config → ℕ → Result EjarError EjarCredentials
resolve wall cfg company = then_params (from_token_model wall cfg company) cfg company

abbrev store :
    ℕ
    → Result EjarError EjarCredentials
    → CredentialCache
    → Result EjarError EjarCredentials × CredentialCache
store now (ok c) cache = (ok c, cache_set now c cache)
store now (err e) cache = (err e, cache)

abbrev hit_or_resolve :
    ℕ
    → ℕ
    → Config
    → ℕ
    → Option EjarCredentials
    → CredentialCache
    → Result EjarError EjarCredentials × CredentialCache
hit_or_resolve wall now cfg company (some c) cache = (ok c, cache)
hit_or_resolve wall now cfg company none cache = store now (resolve wall cfg company) cache

unfoldable pub get_credentials :
    ℕ → ℕ → Config → ℕ → CredentialCache → Result EjarError EjarCredentials × CredentialCache
get_credentials wall now cfg company cache =
    let (found_credentials, cache') = cache_get now company cache in
    hit_or_resolve wall now cfg company found_credentials cache'

abbrev cached_environment : Config → ℕ → Option EjarCredentials → String
cached_environment cfg company (some c) = c.environment
cached_environment cfg company none =
    let env =
      get_param cfg (param_key true "ejar.api.environment" company)
        (get_param cfg "ejar.api.environment" "uat") in
    if is_valid_environment env then env else "uat"

unfoldable pub get_environment : ℕ → Config → ℕ → CredentialCache → String × CredentialCache
get_environment now cfg company cache =
    let (found_credentials, cache') = cache_get now company cache in
    (cached_environment cfg company found_credentials, cache')
