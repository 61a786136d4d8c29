-- ===== src/Tests/Store.antt =====
-- One instance, one call at a time.
use that_limit.Prelude.{
  ℕ, ◌+◌, ◌*◌, ◌≡◌, refl, none, some, List, [], ◌∷◌, Result, ok, err, false, arith,
}
use that_limit.Prelude.Int.{pos}
use that_limit.Duration.{nanos_per_ms, nanos_per_sec, duration_since}
use that_limit.Bucket.{BucketId, Bucket, set_exhausted, is_empty, is_expired}
use that_limit.Bucket.Ids.{id_eq}
use that_limit.Bucket
use that_limit.Redis.InMemory.{in_memory}
use that_limit.Cache
use that_limit.Cache.{refused, redis, io}
use that_limit.Lease
use that_limit.Lease.Calls.{Charged}
use that_limit.Platform.InMemory.{memory, show}
use that_limit.Store.{
  Error, exhausted, cache, Task, checking, finished, Store, Moment, check, advance, run, criteria,
}
use that_limit.Store.Alone.{consume_ends}
use that_limit.Store.Answers.{
  call, consume_local, consume_exhausted, consume_denied, consume_failed,
}
use that_limit.Store.Window.{consume_window, outcome}
use that_limit.Store.Background.{cleanup}
use that_limit.Store.Background.Cleanup.{cleanup_lem, unexpired}
use that_limit.Tests.Data.{alice, empty_db, open_db, bucket, moment, fresh, with_bucket}

abbrev moments : List (Moment memory)
moments = moment 1 ∷ moment 2 ∷ moment 3 ∷ moment 4 ∷ moment 5 ∷ moment 6 ∷ moment 7 ∷ []

-- The first call of a window leases 2000 of 10000 tokens and answers 1999; the next answers 1998.
two_calls :
    let first = run memory moments (empty_db, fresh) (checking alice) in
    (first.1 ≡ finished (ok 1999))
    × ((run memory moments first.0 (checking alice)).1 ≡ finished (ok 1998))
unfolding run advance check criteria is_empty is_expired Bucket.consume Bucket.new id_eq Lease.lease
    Cache.eval Cache.new Cache.key Cache.arg Lease.lease_script Lease.to_key
two_calls = (refl, refl)

consume_ends_example :
    (res : Result Error ℕ) × ((run memory moments (empty_db, fresh) (checking alice)).1
      ≡ finished res)
    × (memory.refills.get (run memory moments (empty_db, fresh) (checking alice)).0.1.refills alice
        ≡ none)
consume_ends_example = consume_ends memory moments alice empty_db fresh refl (omega arith)

consumed_locally :
    run memory (moment 1 ∷ moment 2 ∷ []) (empty_db, with_bucket (bucket 3)) (checking alice)
    ≡ ((empty_db, with_bucket (bucket 2)), finished (ok 2))
unfolding id_eq Bucket.consume
consumed_locally =
    consume_local memory (moment 1) (moment 2) empty_db (with_bucket (bucket 3)) alice (bucket 3) 2
      refl refl refl (omega arith) (omega arith)

-- At 99999 ms the bucket, and the window with it, has been over for long.
exhausted_at_once :
    run memory
      (moment 99999 ∷ [])
      (empty_db, with_bucket (set_exhausted (bucket 0)))
      (checking alice)
    ≡ ((empty_db, with_bucket (set_exhausted (bucket 0))), finished (err (exhausted alice 0)))
unfolding id_eq set_exhausted
exhausted_at_once =
    consume_exhausted memory (moment 99999) [] empty_db (with_bucket (set_exhausted (bucket 0)))
      alice (set_exhausted (bucket 0)) refl refl

-- A window with 7 tokens left.
abbrev seven : (in_memory.Db × Store memory) × Task
seven =
    outcome memory (moment 1) (moment 2) (moment 1000) (moment 1001) (moment 1002) (moment 1003)
      (open_db 7) fresh alice

consume_window_example :
    (seven.1 ≡ finished (ok 6))
    × (memory.buckets.get seven.0.1.buckets alice
        ≡ some (record {
          tokens = 6;
          expires_at = 1001 * nanos_per_ms + 60000 * nanos_per_ms;
          window = pos 61000;
          exhausted = false;
        }))
    × Charged in_memory show
        (moment 1000).exchange
        (open_db 7)
        alice
        2000
        10000
        (60 * nanos_per_sec)
        seven.0.0
unfolding criteria id_eq check
consume_window_example =
    consume_window memory (moment 1) (moment 2) (moment 1000) (moment 1001) (moment 1002)
      (moment 1003) (open_db 7) fresh alice refl refl refl
      (record {
        size_exact = omega arith;
        quota_exact = omega arith;
        ttl_pos = omega arith;
        end_exact = omega arith;
      })
      (record { above = omega arith; below = omega arith }, 61000, refl, omega arith) (omega arith)
      (omega arith)

-- A window with no token left, and an empty bucket of it.
denied_at_once :
    let w =
      call memory
        (moment 1)
        (moment 2)
        (moment 1000)
        (moment 1001)
        (moment 1002)
        (moment 1003)
        (open_db 0)
        (with_bucket (bucket 0))
        alice in
    (w.1
      ≡ finished
          (err (exhausted alice (duration_since (61000 * nanos_per_ms) (1001 * nanos_per_ms)))))
    × (w.0.0 ≡ open_db 0)
    × (memory.buckets.get w.0.1.buckets alice ≡ some (set_exhausted (bucket 0)))
    × (memory.refills.get w.0.1.refills alice ≡ none)
unfolding criteria id_eq check is_empty Lease.lease Cache.eval Cache.new Cache.key Cache.arg
    Lease.lease_script Lease.to_key
denied_at_once =
    consume_denied memory (moment 1) (moment 2) (moment 1000) (moment 1001) (moment 1002)
      (moment 1003) (open_db 0) (with_bucket (bucket 0)) alice (open_db 0) (60000 * nanos_per_ms)
      (pos 61000) refl refl (bucket 0) refl refl

abbrev unreachable : Moment memory
unreachable = record {
  now = 0;
  exchange = record { link = refused; server_time = 0; started = 0; finished = 0 };
}

failed_at_once :
    let w =
      call memory
        (moment 1)
        (moment 2)
        unreachable
        (moment 4)
        (moment 5)
        (moment 6)
        empty_db
        fresh
        alice in
    (w.1 ≡ finished (err (cache (redis io))))
    × (w.0.0 ≡ empty_db)
    × (w.0.1.buckets ≡ [])
    × (memory.refills.get w.0.1.refills alice ≡ none)
unfolding check Lease.lease Cache.eval
failed_at_once =
    consume_failed memory (moment 1) (moment 2) unreachable (moment 4) (moment 5) (moment 6)
      empty_db fresh alice empty_db 0 (pos 0) refl refl (redis io) refl

cleanup_lem_example :
    memory.buckets.get
      (cleanup memory (99999 * nanos_per_ms) (with_bucket (bucket 3))).buckets
      alice
    ≡ unexpired (99999 * nanos_per_ms) (some (bucket 3))
unfolding id_eq
cleanup_lem_example = cleanup_lem memory (99999 * nanos_per_ms) (with_bucket (bucket 3)) alice
