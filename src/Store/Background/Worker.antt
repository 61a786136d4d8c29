-- ===== src/Store/Background/Worker.antt =====
-- crates/core/src/store.rs: the background task of `Store::new` as the accesses to shared memory and
-- to Redis that it makes one after another. Between two of them the calls of `consume` run.
use that_limit.Prelude.{
  ℕ, zero, suc, ◌==◌, Bool, true, false, Option, none, some, List, [], ◌∷◌, if◌then◌else◌,
}
use that_limit.Prelude.Int.{ℤ}
use that_limit.Bucket.{BucketId}
use that_limit.Config.{Cleanup}
use that_limit.Lease
use that_limit.Platform.{Platform}
use that_limit.Store.{Store, Moment}
use that_limit.Store.Background.{chunks_from, chunk_size, expired_keys, replenish}

-- Where the task stands.
pub data Worker : Type 0 where
  selecting : Worker  -- in `select!`
  removing : List (List BucketId) → Worker  -- in `join_next`, with what the chunks have left
  returning : List (List (BucketId × ℕ × ℤ)) → Worker  -- in `join_all`, likewise
  reporting : Worker  -- after the loop, before it sends `CleanupComplete`
  ended : Worker

-- What `Store::new` spawns. `tokio::time::interval` panics on 0, as documented, and the task ends.
abbrev pub first : Cleanup → Worker
first c = if c.enabled then if c.interval == 0 then ended else selecting else ended

-- What `select!` goes on with: the interval, or the command.
pub data Wake : Type 0 where
  tick shut_down : Wake

module _ {ℓ} {A : Type ℓ} where
  -- The next item of the chunk at an index: the chunks run side by side.
  unfoldable pub next_of : ℕ → List (List A) → Option (A × List (List A))
  next_of c [] = none
  next_of zero ([] ∷ cs) = none
  next_of zero ((x ∷ xs) ∷ cs) = some (x, xs ∷ cs)
  next_of (suc c) (xs ∷ cs) = elim (next_of c cs) [
    | none ↦ none
    | some (x, cs') ↦ some (x, xs ∷ cs')
  ]

  unfoldable pub all_done : List (List A) → Bool
  all_done [] = true
  all_done ([] ∷ cs) = all_done cs
  all_done ((x ∷ xs) ∷ cs) = false

module _ (p : Platform) where
  open p use {redis, buckets as bucket_map, show_ip}

  -- The task takes a look at all buckets, and goes on with chunks of what it has found.
  look : Wake → Moment p → Store p → Worker
  look tick m s = elim (expired_keys m.now (bucket_map.entries s.buckets)) [
    | [] ↦ selecting
    | k ∷ ks ↦ removing (chunks_from 1999 chunk_size (k ∷ ks))
  ]
  look shut_down m s = elim (replenish m.now (bucket_map.entries s.buckets)) [
    | [] ↦ reporting
    | i ∷ is ↦ returning (chunks_from 1999 chunk_size (i ∷ is))
  ]

  -- One step of the task; `c` is the chunk that makes it.
  unfoldable pub work :
      Wake → ℕ → Moment p → redis.Db × Store p → Worker → (redis.Db × Store p) × Worker
  unfolding look
  work wake c m (db, s) selecting = ((db, s), look wake m s)
  work wake c m (db, s) (removing cs) = elim (next_of c cs) [
    | none ↦ ((db, s), if all_done cs then selecting else removing cs)
    | some (k, cs') ↦ ((db, record s { buckets = bucket_map.remove s.buckets k }), removing cs')
  ]
  work wake c m (db, s) (returning cs) = elim (next_of c cs) [
    | none ↦ ((db, s), if all_done cs then reporting else returning cs)
    | some ((id, tokens, window), cs') ↦
        (((Lease.release redis show_ip m.exchange db id tokens window).0, s), returning cs')
  ]
  work wake c m (db, s) reporting = ((db, s), ended)
  work wake c m (db, s) ended = ((db, s), ended)
