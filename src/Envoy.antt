-- ===== src/Envoy.antt =====
-- crates/envoy-adapter: the rate limit service of Envoy over the store (store.rs, lib.rs and app.rs).
pub mod Identity
pub mod Answers
pub mod App
use Prim.Native.String.{String}
use mathlib.Core.Option
use text.Mathlib.Text.{◌==◌ as str_eq}
use that_limit.Prelude.{
  ℕ, ◌-◌, ◌^◌, Bool, true, false, Option, none, some, List, [], ◌∷◌, Result, ok, err, ◌>>=◌,
  if◌then◌else◌, ltb,
}
use that_limit.Prelude.Int.{ℤ, pos, negsuc}
use that_limit.Duration.{Duration, as_secs, subsec_nanos}
use that_limit.Bucket.{BucketId, IpAddr, public, protected}
use that_limit.Http.Host.{before}
use that_limit.Store.{exhausted, cache, contains}
use that_limit.Store.{Error as StoreError}

pub data Error : Type 0 where
  unauthorized ip_malformed parse_int : Error
  store : StoreError → Error

-- `tonic::Status`, by its code
pub data Status : Type 0 where
  unauthenticated invalid_argument internal : Status

-- `From<Error> for tonic::Status`
unfoldable pub to_status : Error → Status
to_status unauthorized = unauthenticated
to_status ip_malformed = invalid_argument
to_status (store _) = internal
to_status parse_int = internal

pub record Entry : Type 0 where
  pub key : String
  pub value : String

pub record RateLimitRequest : Type 0 where
  pub domain : String
  pub descriptors : List (List Entry)

pub data Code : Type 0 where
  ok_code over_limit : Code

-- `protobuf::Duration`
pub record ProtoDuration : Type 0 where
  pub seconds : ℤ
  pub nanos : ℤ

pub record DescriptorStatus : Type 0 where
  pub code : Code
  pub limit_remaining : ℕ
  pub duration_until_reset : Option ProtoDuration

pub record RateLimitResponse : Type 0 where
  pub overall_code : Code
  pub statuses : List DescriptorStatus

-- `u32::try_from`
abbrev pub try_u32 : ℕ → Result Error ℕ
try_u32 n = if ltb n (2 ^ 32) then ok n else err parse_int

-- `cast_signed` of `w` bits: two's complement
abbrev pub cast_signed : ℕ → ℕ → ℤ
cast_signed w n = if ltb n (2 ^ (w - 1)) then pos n else negsuc (2 ^ w - n - 1)

abbrev pub over : Duration → RateLimitResponse
over d = record {
  overall_code = over_limit;
  statuses =
      record {
        code = over_limit;
        limit_remaining = 0;
        duration_until_reset = some (record {
          seconds = cast_signed 64 (as_secs d);
          nanos = cast_signed 32 (subsec_nanos d);
        });
      }
      ∷ [];
}

abbrev pub under : ℕ → RateLimitResponse
under left = record {
  overall_code = ok_code;
  statuses = record { code = ok_code; limit_remaining = left; duration_until_reset = none } ∷ [];
}

-- `Service::consume`, over what `Store::consume` gives
unfoldable pub consume : Result StoreError ℕ → Result Error RateLimitResponse
consume (ok tokens_left) = do left ← try_u32 tokens_left; ok (under left)
consume (err (exhausted _ retry_after)) = ok (over retry_after)
consume (err (cache e)) = err (store (cache e))

-- The two loops of `extract_identifier` with `remote_ip_str`; `found` is the early return.
pub data Scan : Type 0 where
  found : String → Scan
  so_far : Option String → Scan

unfoldable pub scan_entries : Option String → List Entry → Scan
scan_entries ip [] = so_far ip
scan_entries ip (e ∷ es) = elim (str_eq e.key "user_id") [
  | true ↦ found e.value
  | false ↦
      scan_entries (if str_eq e.key "remote_address" then some (before b',' e.value) else ip) es
]

unfoldable pub scan : Option String → List (List Entry) → Scan
scan ip [] = so_far ip
scan ip (d ∷ ds) = elim (scan_entries ip d) [ found sub ↦ found sub | so_far ip' ↦ scan ip' ds ]

unfoldable pub extract_identifier :
    (String → Option IpAddr) → RateLimitRequest → Result Error BucketId
extract_identifier parse_ip req = elim (scan none req.descriptors) [
  | found sub ↦ ok (protected sub)
  | so_far none ↦ err unauthorized
  | so_far (some s) ↦ elim (parse_ip s) [ none ↦ err ip_malformed | some ip ↦ ok (public ip) ]
]

to_reply : Result Error RateLimitResponse → Result Status RateLimitResponse
to_reply (ok r) = ok r
to_reply (err e) = err (to_status e)

-- `RateLimitService::should_rate_limit`. `store_consume` is `Store::consume` with what it changes,
-- `none` while it has not ended; `domains` is what the store handles.
module _ {ℓ} {W : Type ℓ} (domains : List String) (parse_ip : String → Option IpAddr)
    (store_consume : W → BucketId → W × Option (Result StoreError ℕ)) where
  unfoldable pub should_rate_limit :
      W → RateLimitRequest → W × Option (Result Status RateLimitResponse)
  unfolding to_reply
  should_rate_limit w req =
      if contains domains req.domain
      then elim (extract_identifier parse_ip req) [
        | err e ↦ (w, some (err (to_status e)))
        | ok b_id ↦
            let (w', r) = store_consume w b_id in (w', Option.map (λ res. to_reply (consume res)) r)
      ]
      else (w, some (ok (record { overall_code = ok_code; statuses = [] })))
