-- ===== src/Serving/Agree.antt =====
-- The two adapters over the same store.
use Prim.Native.String.{String}
use mathlib.Core.Path.{subst}
use that_limit.Prelude.{
  ℕ, ◌≡◌, refl, sym, ap, ◌∙◌, Option, none, List, [], ◌∷◌, map, Result, ok, err, arith,
}
use that_limit.Bucket.{BucketId, IpAddr}
use that_limit.Config.{Config}
use that_limit.Platform.{Platform}
use that_limit.Store.{Error, exhausted, cache, finished, Store}
use that_limit.Store.Alone.{consume_ends}
use that_limit.Http.Identity.{Request}
use that_limit.Envoy.{RateLimitRequest}
use that_limit.Session.{Answer, unanswered, answer_of, Visit, consume_once, session}
use that_limit.Serving.Requests.{moments, visits}
use that_limit.Serving.OverHttp.{http_session, http-session}
use that_limit.Serving.OverHttp
use that_limit.Serving.OverEnvoy.{envoy_session, envoy-session, clip}
use that_limit.Serving.OverEnvoy

-- A client's calls, each as an HTTP request and as one through Envoy.
abbrev pub Pair : (p : Platform) → BucketId → Type 0
Pair p id = Visit p id × Request × RateLimitRequest

module _ (p : Platform) (id : BucketId) (decode : String → Option String)
    (parse_ip : String → Option IpAddr) where
  open p use {redis}

  abbrev pub over_http : List (Pair p id) → List (Visit p id × Request)
  over_http [] = []
  over_http ((v, h, e) ∷ rs) = (v, h) ∷ over_http rs

  abbrev pub over_envoy : List (Pair p id) → List (Visit p id × RateLimitRequest)
  over_envoy [] = []
  over_envoy ((v, h, e) ∷ rs) = (v, e) ∷ over_envoy rs

  same_visits : (rs : List (Pair p id)) → visits p id (over_envoy rs) ≡ visits p id (over_http rs)
  same_visits [] = refl
  same_visits ((v, h, e) ∷ rs) = ap (λ vs. v ∷ vs) (same_visits rs)

  -- Every call has ended, and its answer is there.
  abbrev pub AllAnswered : List Answer → Type 0
  AllAnswered [] = Unit
  AllAnswered (unanswered ∷ rest) = ⊥
  AllAnswered (_ ∷ rest) = AllAnswered rest

  answered :
      (res : Result Error ℕ) (rest : List Answer)
      → AllAnswered rest
      → AllAnswered (answer_of (finished res) ∷ rest)
  answered (ok left) rest h = h
  answered (err (exhausted i d)) rest h = h
  answered (err (cache e)) rest h = h

  session-AllAnswered :
      (vs : List (Visit p id)) (w : redis.Db × Store p)
      → p.refills.get w.1.refills id ≡ none
      → AllAnswered (session p id vs w)
  session-AllAnswered [] w free = tt
  session-AllAnswered (v ∷ vs) (db, s) free =
      let (res, ended, free') = consume_ends p (moments p id v) id db s free (omega arith) in
      subst (λ t. AllAnswered (answer_of t ∷ session p id vs (consume_once p id v (db, s)).0))
        (sym ended) (answered res _ (session-AllAnswered vs (consume_once p id v (db, s)).0 free'))

  -- From any state of Redis, and any of one instance in which nobody leases for an id, whatever
  -- becomes of the calls of Redis, the same calls for the id in listed domains, one after another
  -- while nobody else asks for the id, are all answered, and alike over HTTP and over Envoy:
  -- admitted with the same tokens left, refused, or failed; but for an answer with 2^32 tokens or
  -- more, which fails over Envoy only.
  pub adapters_agree :
      (config : Config) (rs : List (Pair p id)) (w : redis.Db × Store p)
      → w.1.config ≡ config
      → p.refills.get w.1.refills id ≡ none
      → OverHttp.AllAbout p id decode parse_ip config (over_http rs)
      → OverEnvoy.AllAbout p id parse_ip config (over_envoy rs)
      → AllAnswered (http_session p id decode parse_ip (over_http rs) w)
        × (envoy_session p id parse_ip (over_envoy rs) w
            ≡ map clip (http_session p id decode parse_ip (over_http rs) w))
  adapters_agree config rs w same free http envoy =
      let over = http-session p id decode parse_ip config (over_http rs) w same http in
      (
        subst AllAnswered (sym over) (session-AllAnswered (visits p id (over_http rs)) w free),
        envoy-session p id parse_ip config (over_envoy rs) w same envoy
            ∙ ap (λ vs. map clip (session p id vs w)) (same_visits rs)
            ∙ sym (ap (map clip) over),
      )
