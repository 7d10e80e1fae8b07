-- ===== src/Tests/Auth.antt =====
-- Credentials of company 1, from the parameters of the configuration.
use propza_amlak.Prelude.{◌≡◌, ok, none, arith}
use propza_amlak.Ejar.Auth.{EjarCredentials, Token, found, Config, CredentialCache, get_credentials}
use propza_amlak.Ejar.Auth.Sources.{IsUsable, IsUsableCache, get_credentials-IsUsable}

abbrev token : Token
token = record { expires_at = none; api_key = "key"; api_secret_key = "secret"; environment = "" }

abbrev config : Config
config = record { token = λ n. found token; param = λ k. none }

abbrev credentials : EjarCredentials
credentials = record { api_key = "key"; api_secret = "secret"; company_id = 1; environment = "uat" }

abbrev empty : CredentialCache
empty n = none

get_credentials-IsUsable_example :
    ((c : EjarCredentials) → (get_credentials 9 9 config 1 empty).0 ≡ ok c → IsUsable 1 c)
    × IsUsableCache (get_credentials 9 9 config 1 empty).1
get_credentials-IsUsable_example =
    get_credentials-IsUsable 9 9 config 1 empty (λ c e h. ground arith)
