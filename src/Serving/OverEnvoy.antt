-- ===== src/Serving/OverEnvoy.antt =====
-- Requests of one client through Envoy, one after another, against the counter of a session.
use Prim.Native.String.{String}
use mathlib.Core.Option
use mathlib.Core.Path.{subst}
use that_limit.Prelude.{
  ℕ, suc, ◌-◌, ◌≤◌, ◌≡◌, refl, sym, ap, ◌∙◌, true, Option, none, some, List, [], ◌∷◌, map, length,
  Result, ok, err, arith, ltb, ◌^◌, if◌then◌else◌, zero, min,
}
use that_limit.Duration.{Instant}
use that_limit.Bucket.{BucketId, IpAddr}
use that_limit.Config.{Config}
use that_limit.Platform.{Platform}
use that_limit.Store.{
  Task, checking, claiming, leasing, settling, waking, arming, waiting, spending, dropping,
  finished, exhausted, cache, Store, contains,
}
use that_limit.Envoy.{
  RateLimitRequest, RateLimitResponse, Status, ok_code, over_limit, extract_identifier,
}
use that_limit.Envoy.Answers.{reply, should_rate_limit_read}
use that_limit.Session.{
  Answer, admitted, refused, failed, unanswered, answer_of, replay, Visit, consume_once, session,
}
use that_limit.Session.Open.{policy, IsTimely, IsSteady, run-config}
use that_limit.Session.Total.{AllTimely, IsFresh, end, start, session-replay}
use that_limit.Serving.Requests.{moments, visits, length-visits}
use that_limit.Serving.{result_of, consume_at, serve_envoy}

-- What Envoy sees in a response.
abbrev pub seen : Option (Result Status RateLimitResponse) → Answer
seen (some (ok r)) = elim r.overall_code [
  | over_limit ↦ refused
  | ok_code ↦ elim r.statuses [ [] ↦ failed | st ∷ _ ↦ admitted st.limit_remaining ]
]
seen (some (err _)) = failed
seen none = unanswered

-- An answer whose number has 32 bits.
abbrev pub clip : Answer → Answer
clip (admitted n) = if ltb n (2 ^ 32) then admitted n else failed
clip a = a

seen-reply : (t : Task) → seen (Option.map reply (result_of t)) ≡ clip (answer_of t)
seen-reply (finished (ok n)) = ground arith
seen-reply (finished (err (exhausted i d))) = refl
seen-reply (finished (err (cache e))) = refl
seen-reply (checking _) = refl
seen-reply (claiming _) = refl
seen-reply (leasing _) = refl
seen-reply (settling _ _ _ _) = refl
seen-reply (waking _ _) = refl
seen-reply (arming _ _) = refl
seen-reply (waiting _ _ _) = refl
seen-reply (spending _) = refl
seen-reply (dropping _) = refl

-- The counter gives no number that is not below the lease size.
module _ (size : ℕ) (small : size ≤ 2 ^ 32) where
  replay-clip :
      (n r b : ℕ)
      → b ≤ 2 ^ 32
      → map clip (replay size n (record { in_redis = r; in_bucket = b }))
        ≡ replay size n (record { in_redis = r; in_bucket = b })
  replay-clip zero r b le = refl
  replay-clip (suc n) r (suc b) le = ground (arith, replay-clip n r b)
  replay-clip (suc n) zero zero le = ground (arith, replay-clip n 0 0)
  replay-clip (suc n) (suc r) zero le =
      let g = min (suc r) size in ground (arith, replay-clip n (suc r - g) (g - 1))

module _ (p : Platform) (id : BucketId) (parse_ip : String → Option IpAddr) where
  open p use {redis}

  abbrev pub envoy_session : List (Visit p id × RateLimitRequest) → redis.Db × Store p → List Answer
  envoy_session [] w = []
  envoy_session ((v, req) ∷ rs) w =
      let (w', r) = serve_envoy p parse_ip (moments p id v) w req in seen r ∷ envoy_session rs w'

  -- All are about the bucket, in a listed domain.
  abbrev pub AllAbout : Config → List (Visit p id × RateLimitRequest) → Type 0
  AllAbout config [] = Unit
  AllAbout config ((v, req) ∷ rs) =
      (extract_identifier parse_ip req ≡ ok id)
      × (contains config.domains req.domain ≡ true)
      × AllAbout config rs

  -- What one request makes of the store, and its response.
  served :
      (config : Config) (v : Visit p id) (req : RateLimitRequest) (w : redis.Db × Store p)
      → w.1.config ≡ config
      → extract_identifier parse_ip req ≡ ok id
      → contains config.domains req.domain ≡ true
      → serve_envoy p parse_ip (moments p id v) w req
        ≡ (let (w', r) = consume_at p (moments p id v) w id in (w', Option.map reply r))
  unfolding serve_envoy
  served config v req w same read listed =
      should_rate_limit_read w.1.config.domains parse_ip (consume_at p (moments p id v)) w req
        (ap (λ (c : Config). contains c.domains req.domain) same ∙ listed) id read

  pub envoy-session :
      (config : Config) (rs : List (Visit p id × RateLimitRequest)) (w : redis.Db × Store p)
      → w.1.config ≡ config
      → AllAbout config rs
      → envoy_session rs w ≡ map clip (session p id (visits p id rs) w)
  envoy-session config [] w same about = refl
  envoy-session config ((v, req) ∷ rs) w same (read, listed, about) =
      let first = seen-reply (consume_once p id v w).1 in
      let rest =
        envoy-session config rs (consume_once p id v w).0
          (run-config p id config (moments p id v) w.0 w.1 (checking id) ∙ same) about in
      subst
        (λ u.
          ◌≡◌ {A = List Answer} (seen u.1 ∷ envoy_session rs u.0)
            (map clip (session p id (v ∷ visits p id rs) w)))
        (sym (served config v req w same read listed)) (cc)

  module _ (config : Config) (v : Visit p id) (until : Instant) (db : redis.Db) (s : Store p)
      (fresh : IsFresh p id config v.m₃.exchange.server_time db s)
      (steady : IsSteady p id config (end p id config v) (start p id config v))
      (t : IsTimely p id config (end p id config v) until v.m₃.exchange.server_time v)
      (rs : List (Visit p id × RateLimitRequest))
      (timely : AllTimely p id config
        (end p id config v)
        until
        v.m₃.exchange.server_time
        (visits p id rs))
      (req : RateLimitRequest) (about : AllAbout config ((v, req) ∷ rs))
      (small : (policy p id config).lease_size ≤ 2 ^ 32) where
    -- If an instance knows nothing of an id and Redis has no window for it, and its policy leases
    -- at least one token and at most its quota and 2^32, resets after a second or more and has
    -- exact numbers, then rate limit requests that are read as the id's, in a listed domain, one
    -- after another while nobody else asks for the id, whose calls of Redis are delivered while the
    -- window is open that the first one opens, and which end before the buckets of that window
    -- expire, are answered exactly as by the counter that starts with the quota in Redis: OK with
    -- the tokens left in the bucket while it admits, OVER_LIMIT when it refuses.
    pub envoy-replay :
        envoy_session ((v, req) ∷ rs) (db, s)
        ≡ replay (policy p id config).lease_size (length ((v, req) ∷ rs)) (start p id config v)
    envoy-replay =
        envoy-session config ((v, req) ∷ rs) (db, s) fresh.same about
        ∙ ap (map clip) (
            session-replay p id config v until db s fresh steady t (visits p id rs) timely
            ∙ ap (λ n. replay (policy p id config).lease_size (suc n) (start p id config v))
                (length-visits p id rs))
        ∙ replay-clip (policy p id config).lease_size small (length ((v, req) ∷ rs))
            (policy p id config).quota 0 (omega arith)
