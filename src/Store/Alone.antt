-- ===== src/Store/Alone.antt =====
-- One call of `consume` while no other task of the instance runs: it ends, and what it answers.
use that_limit.Prelude.{ℕ, ◌-◌, ◌≤◌, ◌≡◌, refl, none, List, [], ◌∷◌, length, Result, arith}
use that_limit.Bucket.{BucketId}
use that_limit.Bucket.Ids.{id_eq_refl}
use that_limit.Platform.{Platform}
use that_limit.Store.{
  Error, Task, checking, claiming, leasing, settling, waking, arming, waiting, spending, dropping,
  finished, Store, Moment, advance, run,
}

-- The steps that a task still has to make, if it never waits.
abbrev pub remaining : Task → ℕ
remaining (finished _) = 0
remaining (dropping _) = 1
remaining (spending _) = 2
remaining (waking _ _) = 3
remaining (settling _ _ _ _) = 4
remaining (leasing _) = 5
remaining (claiming _) = 6
remaining _ = 7

module _ (p : Platform) where
  open p use {redis, buckets as bucket_map, refills as refill_map}

  -- Nobody else leases for `id`, and the task is not about to wait.
  abbrev pub IsAlone : BucketId → Store p → Task → Type 0
  IsAlone id s (checking i) = (i ≡ id) × (refill_map.get s.refills id ≡ none)
  IsAlone id s (claiming i) = (i ≡ id) × (refill_map.get s.refills id ≡ none)
  IsAlone id s (leasing i) = i ≡ id
  IsAlone id s (settling i _ _ _) = i ≡ id
  IsAlone id s (waking i _) = i ≡ id
  IsAlone id s (arming _ _) = ⊥
  IsAlone id s (waiting _ _ _) = ⊥
  IsAlone id s (spending i) = (i ≡ id) × (refill_map.get s.refills id ≡ none)
  IsAlone id s (dropping i) = (i ≡ id) × (refill_map.get s.refills id ≡ none)
  IsAlone id s (finished _) = refill_map.get s.refills id ≡ none

  -- Each step is one of those that remain, and the task stays alone.
  advance-IsAlone :
      (m : Moment p) (id : BucketId) (db : redis.Db) (s : Store p) (t : Task)
      → IsAlone id s t
      → let w = advance p m (db, s) t in IsAlone id w.0.1 w.1 × (remaining w.1 ≤ remaining t - 1)
  unfolding advance
  advance-IsAlone m id db s (checking i) h = ground arith
  advance-IsAlone m id db s (claiming i) h = ground arith
  advance-IsAlone m id db s (leasing i) h = ground arith
  advance-IsAlone m id db s (settling i n ttl w) h = ground arith
  advance-IsAlone m id db s (waking i res) h =
      ground (arith, refill_map.get-remove s.refills i id, id_eq_refl id)
  advance-IsAlone m id db s (arming i n) h = absurd h
  advance-IsAlone m id db s (waiting i n b) h = absurd h
  advance-IsAlone m id db s (spending i) h = ground arith
  advance-IsAlone m id db s (dropping i) h = (h.1, omega arith)
  advance-IsAlone m id db s (finished res) h = (h, omega arith)

  -- Enough steps end it. Nobody holds the refill afterwards.
  run-IsAlone :
      (ms : List (Moment p)) (id : BucketId) (db : redis.Db) (s : Store p) (t : Task)
      → IsAlone id s t
      → remaining t ≤ length ms
      → let w = run p ms (db, s) t in
        (res : Result Error ℕ) × (w.1 ≡ finished res) × (refill_map.get w.0.1.refills id ≡ none)
  unfolding run
  run-IsAlone [] id db s (finished res) h le = (res, refl, h)
  run-IsAlone [] id db s t h le = absurd (omega arith)
  run-IsAlone (m ∷ ms) id db s t h le =
      let (h', less) = advance-IsAlone m id db s t h in run-IsAlone ms id _ _ _ h' (omega arith)

  -- A call of `consume` that finds nobody leasing for its id, while no other task of the instance
  -- runs, ends within seven steps, whatever becomes of the call of Redis, and leaves no `Notify`
  -- behind.
  pub consume_ends :
      (ms : List (Moment p)) (id : BucketId) (db : redis.Db) (s : Store p)
      → refill_map.get s.refills id ≡ none
      → 7 ≤ length ms
      → let w = run p ms (db, s) (checking id) in
        (res : Result Error ℕ) × (w.1 ≡ finished res) × (refill_map.get w.0.1.refills id ≡ none)
  consume_ends ms id db s h le = run-IsAlone ms id db s (checking id) (refl, h) le
