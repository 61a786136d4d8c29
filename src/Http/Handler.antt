-- ===== src/Http/Handler.antt =====
-- crates/http-adapter/src/store.rs, lib.rs and app.rs: the handler, its errors as responses, and
-- the routes.
use Prim.Native.String.{String}
use mathlib.Core.Option
use that_limit.Prelude.{
  ℕ, Bool, false, Option, none, some, if◌then◌else◌, Result, ok, err, ◌>>=◌, map_err, List,
}
use that_limit.Duration.{as_secs}
use that_limit.Bucket.{BucketId, IpAddr}
use that_limit.Store.{exhausted, cache, contains}
use that_limit.Store.{Error as StoreError}
use that_limit.Http.Host.{domain}
use that_limit.Http.Identity.{
  Error, cfg, store, unauthorized, invalid_token, missing_host, Request, Parts, find_token_claims,
  host, identifier,
}

-- The `ratelimit` header: the tokens left, or `"unknown"` for a domain that is not limited.
pub data RateLimit : Type 0 where
  remaining : ℕ → RateLimit
  unknown : RateLimit

pub record Response : Type 0 where
  pub status : ℕ
  pub ratelimit : Option RateLimit
  pub retry_after : Option ℕ

-- `IntoResponse for Error`
unfoldable pub into_response : Error → Response
into_response (cfg _) = record { status = 500; ratelimit = none; retry_after = none }
into_response (store (exhausted _ expires_at)) = record {
  status = 429;
  ratelimit = none;
  retry_after = some (as_secs expires_at);
}
into_response (store (cache _)) = record { status = 500; ratelimit = none; retry_after = none }
into_response unauthorized = record { status = 401; ratelimit = none; retry_after = none }
into_response invalid_token = record { status = 400; ratelimit = none; retry_after = none }
into_response missing_host = record { status = 400; ratelimit = none; retry_after = none }

abbrev pub accepted : RateLimit → Response
accepted r = record { status = 200; ratelimit = some r; retry_after = none }

-- `GET /health`; its body is `UP`. Every other body is empty, and a `Response` has none.
abbrev pub up : Response
up = record { status = 200; ratelimit = none; retry_after = none }

-- The two routes; matching a request's path and method is up to axum.
pub data Route : Type 0 where
  health consume_route : Route

-- What the handler makes of the store's answer, and the framework of the handler's.
unfoldable pub counted : Result StoreError ℕ → Result Error RateLimit
counted res = do left ← map_err store res; ok (remaining left)

unfoldable pub respond_to : Result Error RateLimit → Response
respond_to (ok r) = accepted r
respond_to (err e) = into_response e

-- `store_consume` is `Store::consume` with what it changes, `none` while it has not ended; `domains`
-- is what the store handles.
module _ {ℓ} {W : Type ℓ} (domains : List String) (decode : String → Option String)
    (parse_ip : String → Option IpAddr)
    (store_consume : W → BucketId → W × Option (Result StoreError ℕ)) where
  limited : String → Bool
  limited h = elim (domain h) [ none ↦ false | some d ↦ contains domains d ]

  -- The two extractors of `consume`, in order.
  extract : Parts → Result Error (String × BucketId)
  extract parts = do h ← host parts; bucket_id ← identifier parse_ip parts; ok (h, bucket_id)

  -- The handler
  consume : W → String → BucketId → W × Option (Result Error RateLimit)
  unfolding limited counted
  consume w h bucket_id =
      if limited h
      then (let (w', res) = store_consume w bucket_id in (w', Option.map counted res))
      else (w, some (ok unknown))

  -- `POST /consume`, behind the middleware.
  unfoldable pub respond : W → Request → W × Option Response
  unfolding extract consume respond_to
  respond w req = elim (find_token_claims decode req >>= extract) [
    | err e ↦ (w, some (into_response e))
    | ok (h, bucket_id) ↦ let (w', r) = consume w h bucket_id in (w', Option.map respond_to r)
  ]

  -- `init_router`
  unfoldable pub route : Route → W → Request → W × Option Response
  unfolding respond
  route health w req = (w, some up)
  route consume_route w req = respond w req
