-- ===== src/Serving/OverHttp.antt =====
-- HTTP requests of one client, one after another, against the counter of a session.
use Prim.Native.String.{String}
use mathlib.Core.Option
use mathlib.Core.Path.{subst}
use that_limit.Prelude.{
  suc, ◌≡◌, refl, sym, ap, ◌∙◌, true, Option, none, some, List, [], ◌∷◌, length, ok, err, arith,
  if◌then◌else◌, ◌==◌,
}
use that_limit.Duration.{Instant}
use that_limit.Bucket.{BucketId, IpAddr}
use that_limit.Config.{Config}
use that_limit.Platform.{Platform}
use that_limit.Store.{
  Task, checking, claiming, leasing, settling, waking, arming, waiting, spending, dropping,
  finished, exhausted, cache, Store, contains,
}
use that_limit.Http.Host.{domain}
use that_limit.Http.Identity.{Request}
use that_limit.Http.Handler.{Response, consume_route, remaining, unknown, route}
use that_limit.Http.Answers.{IsRead, respond_lem, answer}
use that_limit.Session.{
  Answer, admitted, refused, failed, unanswered, answer_of, replay, Visit, consume_once, session,
}
use that_limit.Session.Open.{policy, IsTimely, IsSteady, run-config}
use that_limit.Session.Total.{AllTimely, IsFresh, end, start, session-replay}
use that_limit.Serving.Requests.{moments, visits, length-visits}
use that_limit.Serving.{result_of, consume_at, serve_http}

-- What a client sees in a response.
abbrev pub seen : Option Response → Answer
seen none = unanswered
seen (some r) = elim r.ratelimit [
  | some (remaining n) ↦ if r.status == 200 then admitted n else failed
  | some unknown ↦ failed
  | none ↦ if r.status == 429 then refused else failed
]

seen-answer : (t : Task) → seen (Option.map answer (result_of t)) ≡ answer_of t
seen-answer (finished (ok n)) = refl
seen-answer (finished (err (exhausted i d))) = refl
seen-answer (finished (err (cache e))) = refl
seen-answer (checking _) = refl
seen-answer (claiming _) = refl
seen-answer (leasing _) = refl
seen-answer (settling _ _ _ _) = refl
seen-answer (waking _ _) = refl
seen-answer (arming _ _) = refl
seen-answer (waiting _ _ _) = refl
seen-answer (spending _) = refl
seen-answer (dropping _) = refl

module _ (p : Platform) (id : BucketId) (decode : String → Option String)
    (parse_ip : String → Option IpAddr) where
  open p use {redis}

  abbrev pub http_session : List (Visit p id × Request) → redis.Db × Store p → List Answer
  http_session [] w = []
  http_session ((v, req) ∷ rs) w =
      let (w', r) = serve_http p decode parse_ip (moments p id v) consume_route w req in
      seen r ∷ http_session rs w'

  -- All are about the bucket, under a host of a listed domain.
  abbrev pub AllAbout : Config → List (Visit p id × Request) → Type 0
  AllAbout config [] = Unit
  AllAbout config ((v, req) ∷ rs) =
      ((h : String) × (d : String) × IsRead decode parse_ip req h id
        × (domain h ≡ some d)
        × (contains config.domains d ≡ true))
      × AllAbout config rs

  -- What one request makes of the store, and its response.
  served :
      (config : Config) (v : Visit p id) (req : Request) (w : redis.Db × Store p)
      → w.1.config ≡ config
      → (h : String) (d : String) → IsRead decode parse_ip req h id
      → domain h ≡ some d
      → contains config.domains d ≡ true
      → serve_http p decode parse_ip (moments p id v) consume_route w req
        ≡ (let (w', r) = consume_at p (moments p id v) w id in (w', Option.map answer r))
  unfolding serve_http route
  served config v req w same h d read host listed =
      respond_lem w.1.config.domains decode parse_ip (consume_at p (moments p id v)) w req h d id
        read host
      ∙ ground (arith, listed, same)

  pub http-session :
      (config : Config) (rs : List (Visit p id × Request)) (w : redis.Db × Store p)
      → w.1.config ≡ config
      → AllAbout config rs
      → http_session rs w ≡ session p id (visits p id rs) w
  http-session config [] w same about = refl
  http-session config ((v, req) ∷ rs) w same ((h, d, read, host, listed), about) =
      let first = seen-answer (consume_once p id v w).1 in
      let rest =
        http-session config rs (consume_once p id v w).0
          (run-config p id config (moments p id v) w.0 w.1 (checking id) ∙ same) about in
      subst
        (λ u.
          ◌≡◌ {A = List Answer} (seen u.1 ∷ http_session rs u.0)
            (session p id (v ∷ visits p id rs) w))
        (sym (served config v req w same h d read host listed)) (cc)

  module _ (config : Config) (v : Visit p id) (until : Instant) (db : redis.Db) (s : Store p)
      (fresh : IsFresh p id config v.m₃.exchange.server_time db s)
      (steady : IsSteady p id config (end p id config v) (start p id config v))
      (t : IsTimely p id config (end p id config v) until v.m₃.exchange.server_time v)
      (rs : List (Visit p id × Request))
      (timely : AllTimely p id config
        (end p id config v)
        until
        v.m₃.exchange.server_time
        (visits p id rs))
      (req : Request) (about : AllAbout config ((v, req) ∷ rs)) where
    -- If an instance knows nothing of an id and Redis has no window for it, and its policy leases
    -- at least one token and at most its quota, resets after a second or more and has exact
    -- numbers, then `POST /consume` requests that are read as the id's, under a listed domain, one
    -- after another while nobody else asks for the id, whose calls of Redis are delivered while the
    -- window is open that the first one opens, and which end before the buckets of that window
    -- expire, are answered exactly as by the counter that starts with the quota in Redis: 200 with
    -- the tokens left in the bucket while it admits, 429 when it refuses.
    pub http-replay :
        http_session ((v, req) ∷ rs) (db, s)
        ≡ replay (policy p id config).lease_size (length ((v, req) ∷ rs)) (start p id config v)
    http-replay =
        http-session config ((v, req) ∷ rs) (db, s) fresh.same about
        ∙ session-replay p id config v until db s fresh steady t (visits p id rs) timely
        ∙ ap (λ n. replay (policy p id config).lease_size (suc n) (start p id config v))
            (length-visits p id rs)
