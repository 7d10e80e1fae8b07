-- ===== src/Ejar/Auth/Cache.antt =====
-- services/auth_service.py: `get_credentials` over the cache, entry by entry.
use propza_amlak.Prelude.{
  ℕ, ◌+◌, ◌≤◌, ◌<◌, ◌≡◌, ◌≢◌, refl, none, some, arith, Result, ok, err, Option-cases, inl, inr,
}
use propza_amlak.Ejar.Errors.Status.{EjarError}
use propza_amlak.Ejar.Auth.{
  CacheEntry, EjarCredentials, CredentialCache, ttl_seconds, Config, cache_get, cache_set,
  cache_invalidate, resolve, get_credentials,
}
use propza_amlak.Ejar.Auth.Sources.{resolve-IsUsable}

-- What was stored is found for less than the lifetime, and from then on is not found and is
-- dropped.
pub get-set :
    (now later : ℕ) (c : EjarCredentials) (cache : CredentialCache)
    → (later < now + ttl_seconds
        → cache_get later c.company_id (cache_set now c cache) ≡ (some c, cache_set now c cache))
      × (now + ttl_seconds ≤ later
          → ((cache_get later c.company_id (cache_set now c cache)).0 ≡ none)
            × ((cache_get later c.company_id (cache_set now c cache)).1 c.company_id ≡ none))
unfolding cache_get cache_set
get-set now later c cache = (λ h. ground arith, λ h. (ground arith, ground arith))

-- A call for one company leaves the entry of every other company alone.
pub get_credentials-others :
    (wall now : ℕ) (cfg : Config) (company other : ℕ) (cache : CredentialCache)
    → other ≢ company
    → (get_credentials wall now cfg company cache).1 other ≡ cache other
unfolding get_credentials cache_get cache_set
get_credentials-others wall now cfg company other cache ne = elim (Option-cases (cache company)) [
  | inl missing ↦ outcome (resolve wall cfg company) refl missing
  | inr (e, hit) ↦ outcome_hit e (resolve wall cfg company) refl hit
]
  where
    outcome :
        (r : Result EjarError EjarCredentials)
        → resolve wall cfg company ≡ r
        → cache company ≡ none
        → (get_credentials wall now cfg company cache).1 other ≡ cache other
    outcome (ok c) q m = ground (arith, (resolve-IsUsable wall cfg company q).of_company)
    outcome (err x) q m = ground arith

    outcome_hit :
        (e : CacheEntry) (r : Result EjarError EjarCredentials)
        → resolve wall cfg company ≡ r
        → cache company ≡ some e
        → (get_credentials wall now cfg company cache).1 other ≡ cache other
    outcome_hit e (ok c) q m = ground (arith, (resolve-IsUsable wall cfg company q).of_company)
    outcome_hit e (err x) q m = ground arith

-- For less than the lifetime after a successful call the same credentials are given, whatever the
-- configuration has become.
pub get_credentials-stale :
    (wall now wall' later : ℕ) (cfg cfg' : Config) (company : ℕ) (cache : CredentialCache)
    {c : EjarCredentials}
    → cache company ≡ none
    → (get_credentials wall now cfg company cache).0 ≡ ok c
    → later < now + ttl_seconds
    → (get_credentials wall' later cfg' company (get_credentials wall now cfg company cache).1).0
      ≡ ok c
unfolding get_credentials cache_get cache_set
get_credentials-stale wall now wall' later cfg cfg' company cache {c} e h l =
    outcome (resolve wall cfg company) refl
  where
    outcome :
        (r : Result EjarError EjarCredentials)
        → resolve wall cfg company ≡ r
        → (get_credentials wall' later cfg' company
            (get_credentials wall now cfg company cache).1).0
          ≡ ok c
    outcome (ok d) q = ground (arith, (resolve-IsUsable wall cfg company q).of_company)
    outcome (err x) q = ground arith

-- After an invalidation the next call reads the configuration again.
pub get_credentials-invalidate :
    (wall now : ℕ) (cfg : Config) (company : ℕ) (cache : CredentialCache)
    → (get_credentials wall now cfg company (cache_invalidate company cache)).0
      ≡ resolve wall cfg company
unfolding get_credentials cache_get cache_invalidate
get_credentials-invalidate wall now cfg company cache = outcome (resolve wall cfg company) refl
  where
    outcome :
        (r : Result EjarError EjarCredentials)
        → resolve wall cfg company ≡ r
        → (get_credentials wall now cfg company (cache_invalidate company cache)).0
          ≡ resolve wall cfg company
    outcome (ok d) q = ground arith
    outcome (err x) q = ground arith
