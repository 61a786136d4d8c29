-- ===== src/Envoy/Answers.antt =====
-- What the Envoy adapter answers, by what the store says.
use Prim.Native.String.{String}
use mathlib.Core.Option
use that_limit.Prelude.{
  ℕ, ◌<◌, ◌^◌, ◌≡◌, refl, ap, none, true, false, Option, some, List, [], ◌∷◌, Result, ok, err, ltb,
  if◌then◌else◌, ◌*◌, ◌+◌, arith,
}
use that_limit.Prelude.Int.{pos}
use that_limit.Duration.{Duration, as_secs, subsec_nanos, nanos_per_sec}
use that_limit.Bucket.{BucketId, IpAddr}
use that_limit.Store.{exhausted, cache, contains}
use that_limit.Store.{Error as StoreError}
use that_limit.Envoy.{
  Status, internal, RateLimitRequest, RateLimitResponse, ok_code, over_limit, under, over,
  extract_identifier, consume, should_rate_limit, to_status, to_reply, cast_signed,
}

abbrev pub reply : Result StoreError ℕ → Result Status RateLimitResponse
reply (ok left) = if ltb left (2 ^ 32) then ok (under left) else err internal
reply (err (exhausted _ d)) = ok (over d)
reply (err (cache _)) = err internal

reply_lem : (r : Result StoreError ℕ) → to_reply (consume r) ≡ reply r
unfolding to_reply consume to_status
reply_lem (ok left) = ground arith
reply_lem (err (exhausted id d)) = refl
reply_lem (err (cache e)) = refl

map_reply_lem :
    (r : Option (Result StoreError ℕ))
    → Option.map (λ res. to_reply (consume res)) r ≡ Option.map reply r
map_reply_lem none = refl
map_reply_lem (some r) = ap some (reply_lem r)

module _ {ℓ} {W : Type ℓ} (domains : List String) (parse_ip : String → Option IpAddr)
    (store_consume : W → BucketId → W × Option (Result StoreError ℕ)) (w : W)
    (req : RateLimitRequest) where
  abbrev response : W × Option (Result Status RateLimitResponse)
  response = should_rate_limit domains parse_ip store_consume w req

  -- A domain that is not listed is allowed without a status, whatever its descriptors say, and the
  -- store is not asked.
  pub should_rate_limit_unlisted :
      contains domains req.domain ≡ false
      → response ≡ (w, some (ok (record { overall_code = ok_code; statuses = [] })))
  unfolding should_rate_limit
  should_rate_limit_unlisted h = ground (arith, h)

  module _ (listed : contains domains req.domain ≡ true) where
    -- A request whose identity cannot be read fails with that error's status.
    pub should_rate_limit_unread :
        (e : _) → extract_identifier parse_ip req ≡ err e → response ≡ (w, some (err (to_status e)))
    unfolding should_rate_limit
    should_rate_limit_unread e h = ground (arith, h, listed)

    -- For a listed domain and a request whose identity is read, the store is called for its bucket.
    -- A count below 2^32 from the store is passed on, and a larger one becomes an internal error.
    -- An exhausted bucket is over the limit, with the time to wait, and a failure of Redis is an
    -- internal error.
    pub should_rate_limit_read :
        (id : BucketId)
        → extract_identifier parse_ip req ≡ ok id
        → response ≡ (let (w', r) = store_consume w id in (w', Option.map reply r))
    unfolding should_rate_limit
    should_rate_limit_read id h = ground (arith, h, listed, map_reply_lem (store_consume w id).1)

-- The answer for an exhausted bucket, with the time to wait in seconds and nanoseconds.
abbrev pub refusal : ℕ → ℕ → RateLimitResponse
refusal secs nanos = record {
  overall_code = over_limit;
  statuses =
      record {
        code = over_limit;
        limit_remaining = 0;
        duration_until_reset = some (record { seconds = pos secs; nanos = pos nanos });
      }
      ∷ [];
}

-- A time to wait below 2^63 seconds is stated exactly: the answer's seconds and nanoseconds are not
-- negative, the latter are below a second, and both add up to the time.
pub over_exact :
    (d : Duration)
    → as_secs d < 2 ^ 63
    → (secs : ℕ) × (nanos : ℕ) × (over d ≡ refusal secs nanos)
      × (nanos < nanos_per_sec)
      × (secs * nanos_per_sec + nanos ≡ d)
over_exact d h =
    let seconds_exact : cast_signed 64 (as_secs d) ≡ pos (as_secs d) = ground arith in
    let nanos_exact : cast_signed 32 (subsec_nanos d) ≡ pos (subsec_nanos d) = ground arith in
    (as_secs d, subsec_nanos d, rw (seconds_exact, nanos_exact) refl, omega arith, omega arith)
