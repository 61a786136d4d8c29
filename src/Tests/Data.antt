-- ===== src/Tests/Data.antt =====
-- Shared inputs of the tests.
use that_limit.Prelude.{ℕ, ◌*◌, Option, none, some, String, [], ◌∷◌, false}
use that_limit.Prelude.Int.{pos}
use that_limit.Duration.{nanos_per_ms}
use that_limit.Bucket.{BucketId, protected, Bucket}
use that_limit.Redis.{Entry}
use that_limit.Config.{default}
use that_limit.Cache.{delivered}
use that_limit.Platform.InMemory.{memory}
use that_limit.Store.{Store, Moment}
use that_limit.System

abbrev pub alice : BucketId
alice = protected "alice"

abbrev pub alice_key : String
alice_key = "sub:alice"

-- No key at all, and one window that ends at 61000 ms.
abbrev pub empty_db : String → Option Entry
empty_db k = none

abbrev pub open_entry : ℕ → Entry
open_entry n = record { value = pos n; expires = some 61000 }

abbrev pub open_db : ℕ → String → Option Entry
open_db n k = some (open_entry n)

-- Everything happens at `t` ms.
abbrev pub moment : ℕ → Moment memory
moment t = record {
  now = t * nanos_per_ms;
  exchange = record {
    link = delivered;
    server_time = t;
    started = t * nanos_per_ms;
    finished = t * nanos_per_ms;
  };
}

abbrev pub fresh : Store memory
fresh = System.new memory default

abbrev pub bucket : ℕ → Bucket
bucket n = record {
  tokens = n;
  expires_at = 61000 * nanos_per_ms;
  window = pos 61000;
  exhausted = false;
}

abbrev pub with_bucket : Bucket → Store memory
with_bucket b = record fresh { buckets = (alice, b) ∷ [] }
