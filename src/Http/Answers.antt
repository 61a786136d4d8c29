-- ===== src/Http/Answers.antt =====
-- What the HTTP adapter answers, by what the store says.
use Prim.Native.String.{String}
use mathlib.Core.Option
use that_limit.Prelude.{ℕ, ◌≡◌, refl, true, false, Option, none, some, Result, ok, err, List, arith}
use that_limit.Duration.{as_secs}
use that_limit.Bucket.{BucketId, IpAddr}
use that_limit.Store.{exhausted, cache, contains}
use that_limit.Store.{Error as StoreError}
use that_limit.Http.Host.{domain}
use that_limit.Http.Identity.{Request, Parts, find_token_claims, host, identifier}
use that_limit.Http.Handler.{
  Response, remaining, unknown, into_response, accepted, respond, respond_to, counted,
}

abbrev pub answer : Result StoreError ℕ → Response
answer (ok left) = accepted (remaining left)
answer (err (exhausted _ d)) = record {
  status = 429;
  ratelimit = none;
  retry_after = some (as_secs d);
}
answer (err (cache _)) = record { status = 500; ratelimit = none; retry_after = none }

-- A request that passes the middleware and the extractors, with its host and identity.
pub record IsRead (decode : String → Option String) (parse_ip : String → Option IpAddr)
    (req : Request) (h : String) (id : BucketId) : Type 0 where
  pub parts : Parts
  pub decoded : find_token_claims decode req ≡ ok parts
  pub from_host : host parts ≡ ok h
  pub from_user : identifier parse_ip parts ≡ ok id

answer_lem :
    (r : Option (Result StoreError ℕ))
    → Option.map respond_to (Option.map counted r) ≡ Option.map answer r
unfolding into_response respond_to counted
answer_lem none = refl
answer_lem (some (ok n)) = refl
answer_lem (some (err (exhausted i d))) = refl
answer_lem (some (err (cache e))) = refl

module _ {ℓ} {W : Type ℓ} (domains : List String) (decode : String → Option String)
    (parse_ip : String → Option IpAddr)
    (store_consume : W → BucketId → W × Option (Result StoreError ℕ)) (w : W) (req : Request) where
  -- A request that passes the middleware and the extractors calls the store for a listed domain,
  -- for its bucket, and is answered by what the store says: 200 with the tokens left, 429 with the
  -- seconds to wait, or 500. For any other domain it is 200 `"unknown"`, and the store is not asked.
  pub respond_lem :
      (h d : String) (id : BucketId)
      → IsRead decode parse_ip req h id
      → domain h ≡ some d
      → respond domains decode parse_ip store_consume w req ≡ elim (contains domains d) [
        | true ↦ let (w', r) = store_consume w id in (w', Option.map answer r)
        | false ↦ (w, some (accepted unknown))
      ]
  unfolding respond
  respond_lem h d id r e =
      ground (arith, r.decoded, r.from_host, r.from_user, e, answer_lem (store_consume w id).1)
