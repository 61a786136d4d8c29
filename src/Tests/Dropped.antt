-- ===== src/Tests/Dropped.antt =====
-- Five tokens, leased while the background task removes the old bucket.
use that_limit.Prelude.{◌≡◌, refl, none, some, [], ◌∷◌, ok, arith}
use that_limit.Prelude.Int.{pos}
use that_limit.Bucket
use that_limit.Duration.{from_secs}
use that_limit.Platform.InMemory.{memory}
use that_limit.Store.{settling, finished}
use that_limit.Store.Background.Worker.{removing, next_of}
use that_limit.System.{System, Reach}
use that_limit.System.Dropped.{after_fill, after_all, lease_dropped}
use that_limit.Tests.Data.{alice, empty_db, bucket, moment, with_bucket}
use that_limit.Tests.System.{home}

-- The bucket ended at 61 s.
abbrev late : System memory
late = record {
  db = empty_db;
  clock = 61_001;
  stores = λ _. with_bucket (bucket 0);
  tasks = λ _. settling alice 5 (from_secs 60) (pos 121_001);
  workers = λ _. removing ((alice ∷ []) ∷ []);
}

abbrev end : System memory
end = after_all memory home 0 late 0 (moment 61_001) (moment 61_002) (moment 61_003) (moment 61_004)

due : next_of 0 ((alice ∷ []) ∷ []) ≡ some (alice, [] ∷ [])
unfolding next_of
due = refl

lease_dropped_example :
    Reach memory home late end
    × (memory.buckets.get ((after_fill memory home 0 late (moment 61_001)).stores 0).buckets alice
        ≡ some (Bucket.new (moment 61_001).now 5 (from_secs 60) (pos 121_001)))
    × (end.tasks 0 ≡ finished (ok 0))
    × (end.db ≡ empty_db)
    × (memory.buckets.get (end.stores 0).buckets alice ≡ none)
lease_dropped_example =
    lease_dropped memory home 0 late alice 4 (from_secs 60) (pos 121_001) ((alice ∷ []) ∷ [])
      ([] ∷ []) 0 (moment 61_001) (moment 61_002) (moment 61_003) (moment 61_004) refl refl due
      (omega arith) (omega arith) (omega arith) (omega arith)
