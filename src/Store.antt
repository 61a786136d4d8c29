-- ===== src/Store.antt =====
-- crates/core/src/store.rs: `Store::consume` and what it calls, as the accesses to shared memory
-- that a task makes one after another. Between two of them other tasks may run.
pub mod Alone
pub mod Answers
pub mod Window
pub mod Background
use text.Mathlib.Text.{◌==◌ as str_eq}
use that_limit.Prelude.{
  ℕ, zero, suc, ◌+◌, ◌==◌, ltb, Bool, true, false, Option, none, some, String, List, [], ◌∷◌,
  Result, ok, err, if◌then◌else◌,
}
use that_limit.Prelude.Int.{ℤ}
use that_limit.Duration.{Duration, Instant, duration_since}
use that_limit.Bucket.{BucketId, public, protected, Bucket, is_empty, is_expired, set_exhausted}
use that_limit.Bucket
use that_limit.Config.{Config, Policy}
use that_limit.Cache
use that_limit.Lease.{Exchange}
use that_limit.Lease
use that_limit.Platform.{Platform}

pub data Error : Type 0 where
  exhausted : BucketId → Duration → Error
  cache : Cache.Error → Error

-- Where a call of `consume` stands. A `Notify` is named by a number.
pub data Task : Type 0 where
  checking : BucketId → Task  -- head of the loop in `ensure_refilled`
  claiming : BucketId → Task  -- before `refills.entry`
  leasing : BucketId → Task  -- in `lease`, before the call of Redis
  settling : BucketId → ℕ → Duration → ℤ → Task  -- in `lease`, with the reply
  waking : BucketId → Result Error (Unit {0}) → Task  -- after `lease`, before `refills.remove`
  arming : BucketId → ℕ → Task  -- holds a `Notify`, before `notified()`
  waiting : BucketId → ℕ → ℕ → Task  -- in `notified().await`, with the number of calls before it
  spending : BucketId → Task  -- in `consume`, after `ensure_refilled`
  dropping : BucketId → Task  -- in `consume`, before `buckets.remove`
  finished : Result Error ℕ → Task

-- The match on `b_id` in `lease`.
unfoldable pub criteria : Config → BucketId → Policy
criteria c (public _) = c.public
criteria c (protected _) = c.protected

-- `contains`
abbrev pub contains : List String → String → Bool
contains [] s = false
contains (d ∷ ds) s = if str_eq d s then true else contains ds s

module _ (p : Platform) where
  open p use {redis, buckets as bucket_map, refills as refill_map, show_ip}

  -- `wakes` counts the calls of `notify_waiters` on each `Notify`; `next` names the next one.
  pub record Store : Type 0 where
    pub config : Config
    pub buckets : bucket_map.Map
    pub refills : refill_map.Map
    pub wakes : ℕ → ℕ
    pub next : ℕ

  -- What a step is given: the time, and the call of Redis if it makes one.
  pub record Moment : Type 0 where
    pub now : Instant
    pub exchange : Exchange redis

  -- `Store::should_handle`
  unfoldable pub should_handle : Store → String → Bool
  should_handle s domain = contains s.config.domains domain

  -- `Store::check`
  unfoldable pub check : Store → Instant → BucketId → Result Error Bool
  check s now id = elim (bucket_map.get s.buckets id) [
    | none ↦ ok false
    | some b ↦
        if b.exhausted
        then err (exhausted id (duration_since b.expires_at now))
        else if is_empty b
        then ok false
        else if is_expired now b
        then ok false
        else ok true
  ]

  -- The head of the loop: `?` on an error, `return Ok(())` on true.
  check_step : Store → Instant → BucketId → Task
  check_step s now id = elim (check s now id) [
    | err e ↦ finished (err e)
    | ok full ↦ if full then spending id else claiming id
  ]

  -- `refills.entry`: take the `Notify` that is there, or insert a new one.
  claim_step : Store → BucketId → Store × Task
  claim_step s id = elim (refill_map.get s.refills id) [
    | some n ↦ (s, arming id n)
    | none ↦ (
      record s { refills = refill_map.insert s.refills id s.next; next = suc s.next },
      leasing id,
    )
  ]

  -- The call in `Store::lease`.
  fetch : Store → Exchange redis → redis.Db → BucketId → redis.Db × Task
  fetch s x db id =
      let c = criteria s.config id in
      let (db', res) = Lease.lease redis show_ip x db id c.lease_size c.quota c.reset_in in
      (
        db',
        elim res [
          | err e ↦ waking id (err (cache e))
          | ok (leased, ttl, window) ↦ settling id leased ttl window
        ],
      )

  -- `Store::lease` when there was nothing to lease.
  mark_exhausted : Store → Instant → BucketId → Duration → Store × Task
  mark_exhausted s now id ttl = elim (bucket_map.get s.buckets id) [
    | some b ↦ (
      record s { buckets = bucket_map.alter s.buckets id set_exhausted },
      waking id (err (exhausted id (duration_since b.expires_at now))),
    )
    | none ↦ (s, waking id (err (exhausted id ttl)))
  ]

  -- `Store::lease` after the call.
  settle : Store → Instant → BucketId → ℕ → Duration → ℤ → Store × Task
  unfolding mark_exhausted
  settle s now id leased ttl window = if leased == 0 then mark_exhausted s now id ttl else (
    record s { buckets = bucket_map.insert s.buckets id (Bucket.new now leased ttl window) },
    waking id (ok tt),
  )

  abbrev returned : BucketId → Result Error (Unit {0}) → Task
  returned id (ok _) = spending id
  returned id (err e) = finished (err e)

  abbrev call : (ℕ → ℕ) → ℕ → ℕ → ℕ
  call wakes n m = if n == m then suc (wakes m) else wakes m

  -- `refills.remove`, and `notify_waiters` on what was there.
  wake : Store → BucketId → Result Error (Unit {0}) → Store × Task
  wake s id res = elim (refill_map.get s.refills id) [
    | none ↦ (s, returned id res)
    | some n ↦ (
      record s { refills = refill_map.remove s.refills id; wakes = call s.wakes n },
      returned id res,
    )
  ]

  -- The rest of `consume`.
  spend : Store → Instant → BucketId → Store × Task
  spend s now id = elim (bucket_map.get s.buckets id) [
    | none ↦ (s, finished (ok 0))
    | some b ↦ if is_expired now b then (s, dropping id) else (
      record s { buckets = bucket_map.alter s.buckets id (λ c. (Bucket.consume c).0) },
      finished (ok (Bucket.consume b).1),
    )
  ]

  -- One step of a task. `notified().await` returns once `notify_waiters` has been called since.
  unfoldable pub advance : Moment → redis.Db × Store → Task → (redis.Db × Store) × Task
  unfolding check_step claim_step fetch settle wake spend
  advance m (db, s) (checking id) = ((db, s), check_step s m.now id)
  advance m (db, s) (claiming id) = let (s', t) = claim_step s id in ((db, s'), t)
  advance m (db, s) (leasing id) = let (db', t) = fetch s m.exchange db id in ((db', s), t)
  advance m (db, s) (settling id leased ttl window) =
      let (s', t) = settle s m.now id leased ttl window in ((db, s'), t)
  advance m (db, s) (waking id res) = let (s', t) = wake s id res in ((db, s'), t)
  advance m (db, s) (arming id n) = ((db, s), waiting id n (s.wakes n))
  advance m (db, s) (waiting id n before) =
      ((db, s), if ltb before (s.wakes n) then checking id else waiting id n before)
  advance m (db, s) (spending id) = let (s', t) = spend s m.now id in ((db, s'), t)
  advance m (db, s) (dropping id) =
      ((db, record s { buckets = bucket_map.remove s.buckets id }), finished (ok 0))
  advance m (db, s) (finished res) = ((db, s), finished res)

  -- `Store::consume` of one task while no other runs.
  unfoldable pub run : List Moment → redis.Db × Store → Task → (redis.Db × Store) × Task
  run [] w t = (w, t)
  run (m ∷ ms) w t = let (w', t') = advance m w t in run ms w' t'
