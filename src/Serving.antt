-- ===== src/Serving.antt =====
-- One instance behind each of the adapters: a request that comes in, and the steps of its call of
-- `Store::consume` while no other task of the instance runs.
pub mod Requests
pub mod OverHttp
pub mod OverEnvoy
pub mod Agree
use Prim.Native.String.{String}
use that_limit.Prelude.{ℕ, Option, none, some, List, Result}
use that_limit.Bucket.{BucketId, IpAddr}
use that_limit.Platform.{Platform}
use that_limit.Store.{Task, checking, finished, Error, Store, Moment, run}
use that_limit.Http.Identity.{Request}
use that_limit.Http.Handler.{Response, Route}
use that_limit.Http.Handler
use that_limit.Envoy.{RateLimitRequest, RateLimitResponse, Status}
use that_limit.Envoy

abbrev pub result_of : Task → Option (Result Error ℕ)
result_of (finished res) = some res
result_of _ = none

module _ (p : Platform) where
  open p use {redis}

  -- `Store::consume`, over the moments of its steps.
  abbrev pub consume_at :
      List (Moment p)
      → redis.Db × Store p
      → BucketId
      → (redis.Db × Store p) × Option (Result Error ℕ)
  consume_at ms w id = let (w', t) = run p ms w (checking id) in (w', result_of t)

  -- The router of http-adapter, with the store as its state.
  unfoldable pub serve_http :
      (String → Option String)
      → (String → Option IpAddr)
      → List (Moment p)
      → Route
      → redis.Db × Store p
      → Request
      → (redis.Db × Store p) × Option Response
  serve_http decode parse_ip ms route w req =
      Handler.route w.1.config.domains decode parse_ip (consume_at ms) route w req

  -- The service of envoy-adapter.
  unfoldable pub serve_envoy :
      (String → Option IpAddr)
      → List (Moment p)
      → redis.Db × Store p
      → RateLimitRequest
      → (redis.Db × Store p) × Option (Result Status RateLimitResponse)
  serve_envoy parse_ip ms w req =
      Envoy.should_rate_limit w.1.config.domains parse_ip (consume_at ms) w req
