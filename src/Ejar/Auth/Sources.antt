-- ===== src/Ejar/Auth/Sources.antt =====
-- services/auth_service.py: what credentials must satisfy to be of use, over `_resolve`.
use propza_amlak.Prelude.{
  ℕ, ◌≡◌, refl, Bool, true, false, Option, none, some, arith, is_set, Result, ok, err, inl, inr,
  Option-cases,
}
use propza_amlak.Ejar.Errors.Status.{EjarError}
use propza_amlak.Ejar.Auth.{
  EjarCredentials, is_valid_environment, CacheEntry, CredentialCache, Config, from_token_model,
  from_config_params, resolve, cache_get, cache_set, get_credentials, token_credentials, TokenRead,
  not_installed, read_error, not_found, found,
}

-- Credentials that the API accepts in form: of the company asked for, with a key, a secret and one
-- of the two environments.
pub record IsUsable (company : ℕ) (c : EjarCredentials) : Type 0 where
  pub of_company : c.company_id ≡ company
  pub with_key : is_set c.api_key ≡ true
  pub with_secret : is_set c.api_secret ≡ true
  pub in_environment : is_valid_environment c.environment ≡ true

token_credentials-IsUsable :
    (wall company : ℕ) (t : TokenRead) {c : EjarCredentials}
    → token_credentials wall company t ≡ ok (some c)
    → IsUsable company c
unfolding token_credentials
token_credentials-IsUsable wall company not_installed h = ground arith
token_credentials-IsUsable wall company read_error h = ground arith
token_credentials-IsUsable wall company not_found h = ground arith
token_credentials-IsUsable wall company (found t) h = ground arith

from_config_params-IsUsable :
    (cfg : Config) (company : ℕ) (scoped : Bool) {c : EjarCredentials}
    → from_config_params cfg company scoped ≡ some c
    → IsUsable company c
unfolding from_config_params
from_config_params-IsUsable cfg company scoped h = ground arith

-- Credentials that a resolution gives are usable: of the company asked for, with a key, a secret
-- and one of the two environments.
pub resolve-IsUsable :
    (wall : ℕ) (cfg : Config) (company : ℕ) {c : EjarCredentials}
    → resolve wall cfg company ≡ ok c
    → IsUsable company c
unfolding resolve from_token_model
resolve-IsUsable wall cfg company {c} h = ground (
  arith,
  token_credentials-IsUsable wall company (cfg.token company) {c = c},
  from_config_params-IsUsable cfg company true {c = c},
  from_config_params-IsUsable cfg company false {c = c},
)

-- Every entry of the cache is usable for the company that it is stored under.
abbrev pub IsUsableCache : CredentialCache → Type 0
IsUsableCache cache =
    (company : ℕ) (e : CacheEntry) → cache company ≡ some e → IsUsable company e.credentials

assign-IsUsableCache :
    (now company : ℕ) (cache : CredentialCache) (c : EjarCredentials)
    → IsUsableCache cache
    → IsUsable company c
    → IsUsableCache (cache_set now c cache)
unfolding cache_set
assign-IsUsableCache now company cache c u v j e h = ground (arith, u j e, v.of_company)

drop-IsUsableCache :
    (now company : ℕ) (cache : CredentialCache)
    → IsUsableCache cache
    → IsUsableCache (cache_get now company cache).1
unfolding cache_get
drop-IsUsableCache now company cache u j e h = elim (Option-cases (cache company)) [
  | inl missing ↦ ground (arith, u j e)
  | inr (d, hit) ↦ ground (arith, u j e)
]

get-IsUsable :
    (now company : ℕ) (cache : CredentialCache) (c : EjarCredentials)
    → IsUsableCache cache
    → (cache_get now company cache).0 ≡ some c
    → IsUsable company c
unfolding cache_get
get-IsUsable now company cache c u h = elim (Option-cases (cache company)) [
  | inl missing ↦ ground arith
  | inr (d, hit) ↦ ground (arith, u company d hit)
]

-- From a cache of usable entries, what a call returns is usable for the company asked for, and the
-- cache that it leaves has usable entries only.
pub get_credentials-IsUsable :
    (wall now : ℕ) (cfg : Config) (company : ℕ) (cache : CredentialCache)
    → IsUsableCache cache
    → ((c : EjarCredentials)
        → (get_credentials wall now cfg company cache).0 ≡ ok c
        → IsUsable company c)
      × IsUsableCache (get_credentials wall now cfg company cache).1
unfolding get_credentials
get_credentials-IsUsable wall now cfg company cache u =
    split (cache_get now company cache).0 refl (resolve wall cfg company) refl
  where
    split :
        (o : Option EjarCredentials)
        → (cache_get now company cache).0 ≡ o
        → (r : Result EjarError EjarCredentials) → resolve wall cfg company ≡ r
        → ((c : EjarCredentials)
            → (get_credentials wall now cfg company cache).0 ≡ ok c
            → IsUsable company c)
          × IsUsableCache (get_credentials wall now cfg company cache).1
    split (some d) p r q = (
      λ c h. get-IsUsable now company cache c u (ground arith),
      rw p (drop-IsUsableCache now company cache u),
    )
    split none p (ok d) q = (
      λ c h. resolve-IsUsable wall cfg company (ground arith),
      rw (p, q)
          (assign-IsUsableCache now company (cache_get now company cache).1 d
            (drop-IsUsableCache now company cache u) (resolve-IsUsable wall cfg company q)),
    )
    split none p (err x) q =
        (λ c h. ground arith, rw (p, q) (drop-IsUsableCache now company cache u))
