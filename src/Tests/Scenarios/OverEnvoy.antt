-- ===== src/Tests/Scenarios/OverEnvoy.antt =====
-- crates/envoy-adapter/src/store.rs: the tests of the rate limit service.
use Prim.Native.String.{String}
use that_limit.Prelude.{
  ℕ, suc, ◌-◌, ◌==◌, ◌≡◌, refl, Bool, true, false, ◌&&◌, Option, none, some, List, [], ◌∷◌, Result,
  ok, err, ℕ_discrete,
}
use that_limit.Prelude.Int.{pos, eqb_ℤ}
use that_limit.Duration.{as_secs, from_secs, saturating_sub}
use that_limit.Bucket.{is_empty, is_expired, set_exhausted}
use that_limit.Bucket
use that_limit.Bucket.Ids.{id_eq}
use that_limit.Config.{
  Config, default, with_domain, with_protected_quota, with_protected_lease_size,
}
use that_limit.Cache
use that_limit.Lease
use that_limit.Store.{check, advance, run, criteria}
use that_limit.Envoy.{
  Entry, RateLimitRequest, RateLimitResponse, DescriptorStatus, Status, unauthenticated,
  invalid_argument, Code, ok_code, over_limit, extract_identifier, scan, scan_entries, consume,
  to_status, should_rate_limit,
}
use that_limit.Http.Host.{before}
use that_limit.Platform.InMemory.{memory}
use that_limit.Serving.{serve_envoy}
use that_limit.Tests.Scenarios.{World, init_store, at, test_domain, from_str}

abbrev test_user : String
test_user = "valera"

abbrev config : Config
config = with_domain default test_domain

abbrev for_sub : String → Entry
for_sub s = record { key = "user_id"; value = s }

abbrev for_ip : String → Entry
for_ip s = record { key = "remote_address"; value = s }

abbrev request : Entry → RateLimitRequest
request identity_descriptor = record {
  domain = test_domain;
  descriptors = (identity_descriptor ∷ []) ∷ [];
}

-- The call of the client in the millisecond `t`.
abbrev call : ℕ → World → RateLimitRequest → World × Option (Result Status RateLimitResponse)
call t w req = serve_envoy memory from_str (at t) w req

-- `is_ok_and`
abbrev is_answer :
    (Code → List DescriptorStatus → Bool) → Option (Result Status RateLimitResponse) → Bool
is_answer f (some (ok r)) = f r.overall_code r.statuses
is_answer f _ = false

-- `OK`, and one status with so many tokens left.
abbrev ok_with : ℕ → Code → List DescriptorStatus → Bool
ok_with n ok_code (st ∷ []) =
    elim st.code [ over_limit ↦ false | ok_code ↦ st.limit_remaining == n ]
    && elim st.duration_until_reset [ none ↦ true | some d ↦ false ]
ok_with n _ _ = false

-- `OVER_LIMIT`, and one status with none left and so many seconds to wait.
abbrev over_with : ℕ → Code → List DescriptorStatus → Bool
over_with n over_limit (st ∷ []) =
    elim st.code [ over_limit ↦ st.limit_remaining == 0 | ok_code ↦ false ]
    && elim st.duration_until_reset [ none ↦ false | some d ↦ eqb_ℤ d.seconds (pos n) ]
over_with n _ _ = false

abbrev ok_without_status : Code → List DescriptorStatus → Bool
ok_without_status ok_code [] = true
ok_without_status _ _ = false

abbrev is_unauthenticated : Option (Result Status RateLimitResponse) → Bool
is_unauthenticated (some (err unauthenticated)) = true
is_unauthenticated _ = false

abbrev is_invalid_argument : Option (Result Status RateLimitResponse) → Bool
is_invalid_argument (some (err invalid_argument)) = true
is_invalid_argument _ = false

abbrev should_respond_ok_on_consume_authorized : Bool
should_respond_ok_on_consume_authorized =
    let resp = (call 1 (init_store config) (request (for_sub test_user))).1 in
    is_answer (ok_with (config.protected.lease_size - 1)) resp

abbrev all_public : ℕ → World → List String → Bool
all_public t w [] = true
all_public t w (ip ∷ ips) =
    let (w', resp) = call t w (request (for_ip ip)) in
    let rest = all_public (suc t) w' ips in
    is_answer (ok_with (config.public.lease_size - 1)) resp && rest

abbrev should_respond_ok_on_consume_public : Bool
should_respond_ok_on_consume_public = all_public 1 (init_store config) (
    "89.28.75.89" ∷ "89.75.28.89, 75.89.28.89" ∷ "::ffff:192.0.2.128" ∷ "fe80::1, 2001:db8::1" ∷ [])

abbrev all_malformed : ℕ → World → List String → Bool
all_malformed t w [] = true
all_malformed t w (ip ∷ ips) =
    let (w', resp) = call t w (request (for_ip ip)) in
    let rest = all_malformed (suc t) w' ips in is_invalid_argument resp && rest

abbrev should_fail_on_consume_public_malformed : Bool
should_fail_on_consume_public_malformed = all_malformed 1 (init_store config) (
    "" ∷ "1.2.3" ∷ "256.1.1.1" ∷ "1.2.3.4 " ∷ "01.02.03.04" ∷ "1..3.4" ∷ ":" ∷ ":::"
    ∷ "2001::db8::1" ∷ "2001:dg8::1" ∷ "fe80::1%eth0" ∷ "::ffff:999.1.1.1" ∷ "12345::1" ∷ [])

abbrev should_respond_ok_on_subsequent_consume : Bool
should_respond_ok_on_subsequent_consume =
    let (w, _) = call 1 (init_store config) (request (for_sub test_user)) in
    let resp = (call 2 w (request (for_sub test_user))).1 in
    is_answer (ok_with (config.protected.lease_size - 2)) resp

abbrev should_fail_on_consume_unauthorized : Bool
should_fail_on_consume_unauthorized =
    let req : RateLimitRequest = record { domain = test_domain; descriptors = [] } in
    is_unauthenticated (call 1 (init_store config) req).1

abbrev one_token : Config
one_token = with_protected_lease_size (with_protected_quota config 1) 1

abbrev should_return_over_limit_when_no_quota_left : Bool
should_return_over_limit_when_no_quota_left =
    let (w, _) = call 1 (init_store one_token) (request (for_sub test_user)) in
    let resp = (call 2 w (request (for_sub test_user))).1 in
    is_answer (over_with (as_secs (saturating_sub one_token.protected.reset_in (from_secs 1)))) resp

abbrev five_tokens : Config
five_tokens = with_protected_lease_size (with_protected_quota config 5) 2

abbrev should_lease_more_tokens_when_bucket_is_exhausted_and_quota_not_exceeded : Bool
should_lease_more_tokens_when_bucket_is_exhausted_and_quota_not_exceeded =
    let (w, _) = call 1 (init_store five_tokens) (request (for_sub test_user)) in
    let (w', _) = call 2 w (request (for_sub test_user)) in
    is_answer (ok_with 1) (call 3 w' (request (for_sub test_user))).1

abbrev should_not_handle_request_for_unknown_domain : Bool
should_not_handle_request_for_unknown_domain =
    is_answer ok_without_status (call 1 (init_store default) (request (for_sub test_user))).1

all_pass :
    (should_respond_ok_on_consume_authorized ≡ true)
    × (should_respond_ok_on_consume_public ≡ true)
    × (should_fail_on_consume_public_malformed ≡ true)
    × (should_respond_ok_on_subsequent_consume ≡ true)
    × (should_fail_on_consume_unauthorized ≡ true)
    × (should_return_over_limit_when_no_quota_left ≡ true)
    × (should_lease_more_tokens_when_bucket_is_exhausted_and_quota_not_exceeded ≡ true)
    × (should_not_handle_request_for_unknown_domain ≡ true)
unfolding with_domain with_protected_quota with_protected_lease_size serve_envoy should_rate_limit
    extract_identifier scan scan_entries consume to_status run advance check criteria is_empty
    is_expired set_exhausted Bucket.consume Bucket.new id_eq Lease.lease Cache.eval Cache.new
    Cache.key Cache.arg Lease.lease_script Lease.to_key ℕ_discrete before
all_pass = (refl, refl, refl, refl, refl, refl, refl, refl)
