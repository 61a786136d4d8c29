-- ===== src/Tests/Session.antt =====
-- Five tokens, leased two at a time: eight calls of one client, from the store to both adapters.
use Prim.Native.String.{String}
use that_limit.Prelude.{
  ℕ, zero, suc, ◌+◌, ◌*◌, ◌≡◌, ◌≤◌, ◌<◌, refl, true, List, [], ◌∷◌, map, some, arith, ℕ_discrete,
}
use that_limit.Duration.{Instant, nanos_per_ms}
use that_limit.Bucket.{BucketId, protected, is_empty, is_expired}
use that_limit.Bucket
use that_limit.Bucket.Ids.{id_eq}
use that_limit.Config.{Config, default}
use that_limit.Cache.{delivered}
use that_limit.Cache
use that_limit.Lease
use that_limit.Platform.InMemory.{memory}
use that_limit.Store.{Store, check, advance, run, criteria, contains}
use that_limit.System
use that_limit.Http.Host.{domain}
use that_limit.Http.Answers.{IsRead}
use that_limit.Envoy.{extract_identifier}
use that_limit.Envoy.Identity.{extract_identifier_lem}
use that_limit.Session.{Answer, admitted, refused, count_admitted, Visit, session}
use that_limit.Session.Open.{IsTimely, IsSteady}
use that_limit.Session.Total.{AllTimely, IsFresh, end, start, session-replay, admits_quota}
use that_limit.Serving.OverHttp.{http_session, http-replay}
use that_limit.Serving.OverHttp
use that_limit.Serving.OverEnvoy.{envoy_session, envoy-replay, clip}
use that_limit.Serving.OverEnvoy
use that_limit.Serving.Agree
use that_limit.Serving.Agree.{AllAnswered, adapters_agree}
use that_limit.Tests.Data.{empty_db, moment}
use that_limit.Tests.Adapters.{parse_ip, decode, with_token, with_token-IsRead, request}

abbrev valera : BucketId
valera = protected "valera"

abbrev limited : Config
limited = record default {
  domains = "test-app" ∷ [];
  protected = record (default.protected) { quota = 5; lease_size = 2 };
}

abbrev limiting : Store memory
limiting = System.new memory limited

-- All of a call at one time.
abbrev visit : ℕ → Visit memory valera
visit t = record {
  m₁ = moment t;
  m₂ = moment t;
  m₃ = moment t;
  m₄ = moment t;
  m₅ = moment t;
  m₆ = moment t;
  m₇ = moment t;
}

-- So many calls after the time `t`, a millisecond apart.
abbrev after : ℕ → ℕ → List (Visit memory valera)
after zero t = []
after (suc n) t = visit (suc t) ∷ after n (suc t)

abbrev later : List (Visit memory valera)
later = after 7 1000

abbrev answers : List Answer
answers =
    admitted 1
    ∷ admitted 0
    ∷ admitted 1
    ∷ admitted 0
    ∷ admitted 0
    ∷ refused
    ∷ refused
    ∷ refused
    ∷ []

eight_calls : session memory valera (visit 1000 ∷ later) (empty_db, limiting) ≡ answers
unfolding run advance check criteria is_empty is_expired Bucket.consume Bucket.new id_eq Lease.lease
    Cache.eval Cache.new Cache.key Cache.arg Lease.lease_script Lease.to_key Bucket.set_exhausted
eight_calls = refl

limiting-IsFresh : IsFresh memory valera limited 1000 empty_db limiting
limiting-IsFresh = record { same = refl; free = refl; entry = refl; empty = refl }

abbrev window_end : ℕ
window_end = end memory valera limited (visit 1000)

limited-IsSteady :
    IsSteady memory valera limited window_end (start memory valera limited (visit 1000))
unfolding criteria
limited-IsSteady = record {
  size_pos = omega arith;
  leases_some = omega arith;
  quota_exact = omega arith;
  within = omega arith;
  resets = omega arith;
  end_exact = omega arith;
}

abbrev until : Instant
until = 61000 * nanos_per_ms

visit-IsTimely :
    (clock t : ℕ)
    → clock ≤ t
    → t < 61000
    → IsTimely memory valera limited window_end until clock (visit t)
unfolding criteria
visit-IsTimely clock t after before = record {
  link = refl;
  after = after;
  before = before;
  first = omega arith;
  second = omega arith;
  last = omega arith;
  lasts = omega arith;
}

after-AllTimely :
    (n t : ℕ) → t + n < 61000 → AllTimely memory valera limited window_end until t (after n t)
after-AllTimely zero t h = tt
after-AllTimely (suc n) t h =
    (visit-IsTimely t (suc t) (omega arith) (omega arith), after-AllTimely n (suc t) (omega arith))

later-AllTimely : AllTimely memory valera limited window_end until 1000 later
later-AllTimely = after-AllTimely 7 1000 (omega arith)

first-IsTimely : IsTimely memory valera limited window_end until 1000 (visit 1000)
first-IsTimely = visit-IsTimely 1000 1000 (omega arith) (omega arith)

session-replay_example : session memory valera (visit 1000 ∷ later) (empty_db, limiting) ≡ answers
unfolding criteria
session-replay_example =
    session-replay memory valera limited (visit 1000) until empty_db limiting limiting-IsFresh
      limited-IsSteady first-IsTimely later later-AllTimely

admits_quota_example :
    count_admitted (session memory valera (visit 1000 ∷ later) (empty_db, limiting)) ≡ 5
unfolding criteria
admits_quota_example =
    admits_quota memory valera limited (visit 1000) until empty_db limiting limiting-IsFresh
      limited-IsSteady first-IsTimely later later-AllTimely

-- The same calls as requests.
abbrev with_request : {R : Type 0} → R → List (Visit memory valera) → List (Visit memory valera × R)
with_request r [] = []
with_request r (v ∷ vs) = (v, r) ∷ with_request r vs

with_token-listed :
    (h : String) × (d : String) × IsRead decode parse_ip with_token h valera
    × (domain h ≡ some d)
    × (contains limited.domains d ≡ true)
unfolding domain ℕ_discrete
with_token-listed = ("test-app.com", "test-app", with_token-IsRead, refl, refl)

over_http-AllAbout :
    (vs : List (Visit memory valera))
    → OverHttp.AllAbout memory valera decode parse_ip limited (with_request with_token vs)
over_http-AllAbout [] = tt
over_http-AllAbout (v ∷ vs) = (with_token-listed, over_http-AllAbout vs)

http-replay_example :
    http_session memory valera decode parse_ip
      (with_request with_token (visit 1000 ∷ later))
      (empty_db, limiting)
    ≡ answers
unfolding criteria
http-replay_example =
    http-replay memory valera decode parse_ip limited (visit 1000) until empty_db limiting
      limiting-IsFresh limited-IsSteady first-IsTimely (with_request with_token later)
      later-AllTimely with_token (over_http-AllAbout (visit 1000 ∷ later))

over_envoy-AllAbout :
    (vs : List (Visit memory valera))
    → OverEnvoy.AllAbout memory valera parse_ip limited (with_request request vs)
unfolding extract_identifier
over_envoy-AllAbout [] = tt
over_envoy-AllAbout (v ∷ vs) =
    (extract_identifier_lem parse_ip request, refl, over_envoy-AllAbout vs)

envoy-replay_example :
    envoy_session memory valera parse_ip
      (with_request request (visit 1000 ∷ later))
      (empty_db, limiting)
    ≡ answers
unfolding criteria
envoy-replay_example =
    envoy-replay memory valera parse_ip limited (visit 1000) until empty_db limiting
      limiting-IsFresh limited-IsSteady first-IsTimely (with_request request later) later-AllTimely
      request (over_envoy-AllAbout (visit 1000 ∷ later)) (omega arith)

-- The same calls over both adapters.
abbrev pairs : List (Visit memory valera) → List (Agree.Pair memory valera)
pairs [] = []
pairs (v ∷ vs) = (v, with_token, request) ∷ pairs vs

adapters_agree_example :
    AllAnswered memory valera decode parse_ip (
      http_session memory valera decode parse_ip
        (with_request with_token (visit 1000 ∷ later))
        (empty_db, limiting))
    × (envoy_session memory valera parse_ip
          (with_request request (visit 1000 ∷ later))
          (empty_db, limiting)
        ≡ map clip (
            http_session memory valera decode parse_ip
              (with_request with_token (visit 1000 ∷ later))
              (empty_db, limiting)))
adapters_agree_example =
    adapters_agree memory valera decode parse_ip limited (pairs (visit 1000 ∷ later))
      (empty_db, limiting) refl refl (over_http-AllAbout (visit 1000 ∷ later))
      (over_envoy-AllAbout (visit 1000 ∷ later))
