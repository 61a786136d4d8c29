-- ===== src/Tests/Adapters.antt =====
-- The two adapters.
use Prim.Native.String
use Prim.Native.String.{String}
use text.Mathlib.Text.{◌==◌ as str_eq}
use that_limit.Prelude.{
  ℕ, suc, ◌<◌, ◌≡◌, refl, ◌*◌, ◌+◌, inr, false, Option, none, some, [], ◌∷◌, Result, ok, err,
  if◌then◌else◌, arith, ℕ_discrete,
}
use that_limit.Duration.{nanos_per_sec}
use that_limit.Bucket.{BucketId, IpAddr, v4, public, protected}
use that_limit.Store.{exhausted}
use that_limit.Store.{Error as StoreError}
use that_limit.Http.Host.{before, domain, labels, domain_lem}
use that_limit.Http.Identity.{
  Request, HeaderValue, Parts, host, identifier, find_token_claims, identify, identify_token,
  identify_address,
}
use that_limit.Http.Handler.{respond}
use that_limit.Http.Answers.{IsRead, respond_lem}
use that_limit.Envoy.{RateLimitRequest, under, over, extract_identifier, should_rate_limit}
use that_limit.Envoy.Identity.{extract_identifier_lem}
use that_limit.Envoy.Answers.{should_rate_limit_read, over_exact, refusal}

domains_of_hosts :
    (domain "test-app.com" ≡ some "test-app")
    × (domain "test-app:8080" ≡ some "test-app")
    × (domain "[::1]:80" ≡ some "::1")
unfolding domain ℕ_discrete
domains_of_hosts = (refl, refl, refl)

domain_lem_example : domain (String.◌++◌ "test-app" (String.◌++◌ "." "com:80")) ≡ some "test-app"
domain_lem_example =
    domain_lem "test-app" (String.◌++◌ "." "com:80")
      (record { dotless = omega arith; colonless = omega arith; bracketless = omega arith })
      (labels "com:80")

-- One address is known.
abbrev pub parse_ip : String → Option IpAddr
parse_ip s = if str_eq s "1.2.3.4" then some (v4 0x01020304) else none

abbrev pub decode : String → Option String
decode token = if str_eq token "good" then some "valera" else none

abbrev header : String → Option HeaderValue
header s = some (record { is_empty = false; to_str = some s })

abbrev headers : String → Option HeaderValue
headers name =
    if str_eq name "x-forwarded-host"
    then header "test-app.com"
    else if str_eq name "x-real-ip"
    then header "1.2.3.4, 9.9.9.9"
    else none

abbrev pub with_token : Request
with_token = record { bearer = some "good"; header = headers }

abbrev without_token : Request
without_token = record { bearer = none; header = headers }

with_token_identity : identify decode parse_ip with_token ≡ ok (protected "valera")
with_token_identity = identify_token decode parse_ip with_token "good" refl

identified_by_address : identify decode parse_ip without_token ≡ ok (public (v4 0x01020304))
unfolding before ℕ_discrete
identified_by_address =
    identify_address decode parse_ip without_token
      (record { is_empty = false; to_str = some "1.2.3.4, 9.9.9.9" }) refl (inr (refl, refl))

-- Stores that count their calls.
abbrev last_token : ℕ → BucketId → ℕ × Option (Result StoreError ℕ)
last_token n id = (suc n, some (ok 0))

abbrev no_token : ℕ → BucketId → ℕ × Option (Result StoreError ℕ)
no_token n id = (suc n, some (err (exhausted id (59 * nanos_per_sec + 7))))

abbrev parts : Parts
parts = record { header = headers; claims = some "valera" }

pub with_token-IsRead : IsRead decode parse_ip with_token "test-app.com" (protected "valera")
unfolding find_token_claims host identifier
with_token-IsRead = record { parts = parts; decoded = refl; from_host = refl; from_user = refl }

respond_lem_example :
    respond ("test-app" ∷ []) decode parse_ip no_token 3 with_token
    ≡ (4, some (record { status = 429; ratelimit = none; retry_after = some 59 }))
unfolding domain ℕ_discrete
respond_lem_example =
    respond_lem ("test-app" ∷ []) decode parse_ip no_token 3 with_token "test-app.com" "test-app"
      (protected "valera") with_token-IsRead refl

abbrev pub request : RateLimitRequest
request = record {
  domain = "test-app";
  descriptors =
      (record { key = "remote_address"; value = "1.2.3.4, 5.6.7.8" } ∷ [])
      ∷ (record { key = "user_id"; value = "valera" } ∷ [])
      ∷ [];
}

extract_identifier_lem_example : extract_identifier parse_ip request ≡ ok (protected "valera")
extract_identifier_lem_example = extract_identifier_lem parse_ip request

read_and_answered :
    should_rate_limit ("test-app" ∷ []) parse_ip last_token 3 request ≡ (4, some (ok (under 0)))
read_and_answered =
    should_rate_limit_read ("test-app" ∷ []) parse_ip last_token 3 request refl (protected "valera")
      extract_identifier_lem_example

seven_billion_exact :
    (secs : ℕ) × (nanos : ℕ) × (over 7_000_000_009 ≡ refusal secs nanos)
    × (nanos < nanos_per_sec)
    × (secs * nanos_per_sec + nanos ≡ 7_000_000_009)
seven_billion_exact = over_exact 7_000_000_009 (omega arith)
