-- ===== src/Store/Background.antt =====
-- crates/core/src/store.rs: what the background task that `Store::new` spawns collects from the
-- buckets, in chunks: the expired ones on every tick, the unspent tokens on shutdown. The iteration
-- over a map is one access here. The branch of a tick is here as a whole; its chunks, which only
-- remove keys, each a different one, go one by one. Step by step, side by side: Worker.antt.
pub mod Cleanup
pub mod Worker
pub mod Frame
use that_limit.Prelude.{
  ℕ, zero, suc, Bool, true, false, not, ◌&&◌, Option, none, some, List, [], ◌∷◌, Result, ok, err,
  if◌then◌else◌,
}
use that_limit.Prelude.Int.{ℤ}
use that_limit.Duration.{Instant}
use that_limit.Bucket.{BucketId, Bucket, is_empty, is_expired}
use that_limit.Lease.{Exchange}
use that_limit.Lease
use that_limit.Platform.{Platform}
use that_limit.Store.{Store}

abbrev pub chunk_size : ℕ
chunk_size = 2000

module _ {ℓ} {A : Type ℓ} where
  push : A → List (List A) → List (List A)
  push x [] = (x ∷ []) ∷ []
  push x (c ∷ cs) = (x ∷ c) ∷ cs

  -- `chunks(n + 1)`, with the room that the current chunk has left.
  unfoldable pub chunks_from : ℕ → ℕ → List A → List (List A)
  unfolding push
  chunks_from n room [] = []
  chunks_from n zero (x ∷ xs) = [] ∷ push x (chunks_from n n xs)
  chunks_from n (suc room) (x ∷ xs) = push x (chunks_from n room xs)

-- The keys of the entries that a test keeps.
abbrev pub expired_keys : Instant → List (BucketId × Bucket) → List BucketId
expired_keys now [] = []
expired_keys now ((k, b) ∷ es) =
    if is_expired now b then k ∷ expired_keys now es else expired_keys now es

-- The buckets whose tokens go back: neither empty nor expired.
abbrev pub replenish : Instant → List (BucketId × Bucket) → List (BucketId × ℕ × ℤ)
replenish now [] = []
replenish now ((k, b) ∷ es) =
    if not (is_empty b) && not (is_expired now b)
    then (k, b.tokens, b.window) ∷ replenish now es
    else replenish now es

module _ (p : Platform) where
  open p use {redis, buckets as bucket_map, show_ip}

  remove_chunk : List BucketId → bucket_map.Map → bucket_map.Map
  remove_chunk [] m = m
  remove_chunk (k ∷ ks) m = remove_chunk ks (bucket_map.remove m k)

  remove_chunks : List (List BucketId) → bucket_map.Map → bucket_map.Map
  unfolding remove_chunk
  remove_chunks [] m = m
  remove_chunks (c ∷ cs) m = remove_chunks cs (remove_chunk c m)

  -- The `tick` branch.
  unfoldable pub cleanup : Instant → Store p → Store p
  unfolding chunks_from remove_chunks
  cleanup now s = elim (bucket_map.entries s.buckets) [
    | [] ↦ s
    | e ∷ es ↦ elim (expired_keys now (e ∷ es)) [
      | [] ↦ s
      | k ∷ ks ↦ record s {
        buckets = remove_chunks (chunks_from 1999 chunk_size (k ∷ ks)) s.buckets;
      }
    ]
  ]
