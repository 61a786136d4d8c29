-- ===== src/Tests/Start.antt =====
-- A server from its environment to its first request.
use Prim.Native.String.{String}
use text.Mathlib.Text.{◌==◌ as str_eq}
use that_limit.Prelude.{
  ℕ, ◌+◌, ◌≤◌, ◌<◌, ◌≡◌, refl, true, Option, none, some, [], ◌∷◌, ok, if◌then◌else◌, arith,
}
use that_limit.Duration.{as_secs, from_secs}
use that_limit.Bucket.{BucketId, public, protected}
use that_limit.Broadcast.InMemory.{in_memory}
use that_limit.Redis.{max_exact}
use that_limit.Redis.InMemory
use that_limit.Cache.{CacheConfig}
use that_limit.Cache
use that_limit.Config.{Config, get, try_into, try_from, sub, ip}
use that_limit.Platform.InMemory.{memory}
use that_limit.Store.{criteria}
use that_limit.System.{step}
use that_limit.System.Quota.{policy, InTime}
use that_limit.System.Ledger.{total_spent}
use that_limit.System.Ledger.Regained.{total_regained}
use that_limit.Server.{Server, main, Reach, here, call}
use that_limit.Server.History.{history}
use that_limit.Server.Start.{load, redis_config, start, started-spent-le-quota}
use that_limit.Tests.Data.{alice, empty_db, moment}
use that_limit.Tests.Scenarios.Loading.{read, from_slice}

abbrev pub var : String → Option String
var name = if str_eq name "CFG_PATH" then some "tests/fixtures/valid.json" else none

abbrev pub parse_u16 : String → Option ℕ
parse_u16 s = none

-- Redis is new, wherever it is.
abbrev pub connect : CacheConfig → InMemory.in_memory.Db
connect c = empty_db

abbrev pub valid : Config
valid = record {
  domains = "test-app" ∷ "mock-api" ∷ [];
  cleanup = record { enabled = true; interval = from_secs 5 };
  protected = record { criteria = sub; quota = 10000; lease_size = 2000; reset_in = from_secs 600 };
  public = record { criteria = ip; quota = 500; lease_size = 100; reset_in = from_secs 3600 };
}

pub loaded : load var read from_slice ≡ ok valid
unfolding load get try_into try_from
loaded = refl

abbrev home : ℕ → ℕ
home i = 0

abbrev server : Server memory in_memory
server = main memory in_memory valid empty_db 0 (λ _. alice)

started : start var read from_slice memory in_memory parse_u16 connect 0 (λ _. alice) ≡ ok server
unfolding start load get try_into try_from redis_config Cache.env
started = refl

-- The six steps of the call 0.
abbrev stepped : Server memory in_memory → ℕ → Server memory in_memory
stepped s t = record s { system = step memory home s.system 0 (moment t) }

abbrev served : Server memory in_memory
served = stepped (stepped (stepped (stepped (stepped (stepped server 1) 1) 2) 2) 2) 3

served-Reach : Reach memory in_memory home 0 server served
unfolding step main
served-Reach =
    call
      (call
        (call
          (call (call (call here 0 (moment 1) (omega arith)) 0 (moment 1) (omega arith)) 0
            (moment 2) (omega arith))
          0 (moment 2) (omega arith))
        0 (moment 2) (omega arith))
      0 (moment 3) (omega arith)

served-InTime : InTime valid 3
unfolding criteria
served-InTime (public i) = omega arith
served-InTime (protected s) = omega arith

exact : (id : BucketId) → (policy valid id).quota ≤ max_exact
unfolding criteria
exact (public i) = omega arith
exact (protected s) = omega arith

resetting : (id : BucketId) → 0 < as_secs (policy valid id).reset_in
unfolding criteria
resetting (public i) = omega arith
resetting (protected s) = omega arith

started-spent-le-quota_example :
    total_spent memory home alice 600002 (history memory in_memory home 0 served-Reach)
    ≤ 10_000
      + total_regained memory home alice 600002 (history memory in_memory home 0 served-Reach)
unfolding criteria step main
started-spent-le-quota_example =
    started-spent-le-quota var read from_slice memory in_memory parse_u16 connect 0 (λ _. alice)
      home 1 (λ i. omega arith) 0 valid exact resetting (λ id. tt) server loaded started served
      served-Reach served-InTime alice 600002
