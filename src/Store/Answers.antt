-- ===== src/Store/Answers.antt =====
-- What `consume` answers, and what it changes, when no other task of the instance runs.
use that_limit.Prelude.{
  ℕ, suc, ◌+◌, ◌<◌, ◌≡◌, refl, ap, ◌∙◌, true, false, none, some, List, [], ◌∷◌, Result, ok, err,
  arith,
}
use that_limit.Prelude.Int.{ℤ}
use that_limit.Duration.{Duration, duration_since}
use that_limit.Bucket.{BucketId, Bucket, is_empty, is_expired, set_exhausted}
use that_limit.Bucket.Ids.{id_eq_refl}
use that_limit.Bucket
use that_limit.Cache
use that_limit.Lease
use that_limit.Platform.{Platform}
use that_limit.Store.{
  Error, exhausted, cache, check_step, criteria, Task, checking, settling, waking, finished, Store,
  Moment, check, advance, run,
}

module _ (p : Platform) where
  open p use {redis, buckets as bucket_map, refills as refill_map}

  pub run-finished :
      (ms : List (Moment p)) (w : redis.Db × Store p) (res : Result Error ℕ)
      → run p ms w (finished res) ≡ (w, finished res)
  unfolding run advance
  run-finished [] w res = refl
  run-finished (m ∷ ms) (db, s) res = run-finished ms (db, s) res

  -- A bucket that is not marked as exhausted and has tokens and time left answers without Redis
  -- while no other task of the instance runs: one token is taken from it, the answer is how many
  -- are left, and the database and the refills stay as they are.
  pub consume_local :
      (m m' : Moment p) (db : redis.Db) (s : Store p) (id : BucketId) (b : Bucket) (left : ℕ)
      → bucket_map.get s.buckets id ≡ some b
      → b.exhausted ≡ false
      → b.tokens ≡ suc left
      → m.now < b.expires_at
      → m'.now < b.expires_at
      → run p (m ∷ m' ∷ []) (db, s) (checking id) ≡ (
        (db, record s { buckets = bucket_map.alter s.buckets id (λ c. (Bucket.consume c).0) }),
        finished (ok left),
      )
  unfolding run advance check is_empty is_expired Bucket.consume
  consume_local m m' db s id b left g x t now now' = ground (arith, g, x, t)

  check_step_exhausted :
      (m : Moment p) (db : redis.Db) (s : Store p) (id : BucketId) (b : Bucket)
      → bucket_map.get s.buckets id ≡ some b
      → b.exhausted ≡ true
      → check_step p s m.now id ≡ finished (err (exhausted id (duration_since b.expires_at m.now)))
  unfolding check_step check
  check_step_exhausted m db s id b g x = ground (arith, g, x)

  -- A bucket that is marked as exhausted refuses the call at any time, also when it has expired,
  -- with the time that the bucket has left. Nothing changes.
  pub consume_exhausted :
      (m : Moment p) (ms : List (Moment p)) (db : redis.Db) (s : Store p) (id : BucketId)
      (b : Bucket)
      → bucket_map.get s.buckets id ≡ some b
      → b.exhausted ≡ true
      → run p (m ∷ ms) (db, s) (checking id)
        ≡ ((db, s), finished (err (exhausted id (duration_since b.expires_at m.now))))
  unfolding run advance
  consume_exhausted m ms db s id b g x =
      ap (run p ms (db, s)) (check_step_exhausted m db s id b g x) ∙ run-finished ms (db, s) _

  -- The six steps of a call that leases.
  module _ (m₁ m₂ m₃ m₄ m₅ m₆ : Moment p) (db : redis.Db) (s : Store p) (id : BucketId) where
    abbrev pub call : (redis.Db × Store p) × Task
    call = run p (m₁ ∷ m₂ ∷ m₃ ∷ m₄ ∷ m₅ ∷ m₆ ∷ []) (db, s) (checking id)

    module _ (db' : redis.Db) (ttl : Duration) (window : ℤ)
        (missed : check p s m₁.now id ≡ ok false) (free : refill_map.get s.refills id ≡ none) where
      -- What the call of Redis gives.
      abbrev pub Fetched : Result Cache.Error (ℕ × Duration × ℤ) → Type 0
      Fetched res =
          let c = criteria s.config id in
          Lease.lease redis p.show_ip m₃.exchange db id c.lease_size c.quota c.reset_in ≡ (db', res)

      claimed : Store p
      claimed = record s { refills = refill_map.insert s.refills id s.next; next = suc s.next }

      -- After the first three steps.
      call-after_fetch :
          (res : Result Cache.Error (ℕ × Duration × ℤ))
          → Fetched res
          → call
            ≡ run p
                (m₄ ∷ m₅ ∷ m₆ ∷ [])
                (db', claimed)
                (elim res [
                  | err e ↦ waking id (err (cache e))
                  | ok (leased, left, w) ↦ settling id leased left w
                ])
      unfolding run advance claimed
      call-after_fetch res f = ground (arith, missed, free, f)

      -- A call that leased tokens spends one of them, and leaves the others to later calls.
      pub consume_leased :
          (left : ℕ)
          → Fetched (ok (suc left, ttl, window))
          → m₆.now < m₄.now + ttl
          → (call.1 ≡ finished (ok left))
            × (call.0.0 ≡ db')
            × (bucket_map.get call.0.1.buckets id
                ≡ some (record {
                  tokens = left;
                  expires_at = m₄.now + ttl;
                  window = window;
                  exhausted = false;
                }))
            × (refill_map.get call.0.1.refills id ≡ none)
      unfolding run advance claimed is_expired Bucket.consume Bucket.new
      consume_leased left f now = rw (call-after_fetch _ f) (
          let b = Bucket.new m₄.now (suc left) ttl window in
          let filled = bucket_map.insert s.buckets id b in
          ground (
            arith,
            id_eq_refl id,
            refill_map.get-insert s.refills id id s.next,
            refill_map.get-remove (refill_map.insert s.refills id s.next) id id,
            bucket_map.get-insert s.buckets id id b,
            bucket_map.get-alter filled id id (λ c. (Bucket.consume c).0),
          ))

      -- A call that has to lease and gets no tokens, while no other task of the instance runs,
      -- marks the bucket that is there as exhausted, answers that the id is exhausted with the time
      -- that this bucket has left (none if it has expired), and leaves no `Notify` behind.
      pub consume_denied :
          (b : Bucket)
          → Fetched (ok (0, ttl, window))
          → bucket_map.get s.buckets id ≡ some b
          → (call.1 ≡ finished (err (exhausted id (duration_since b.expires_at m₄.now))))
            × (call.0.0 ≡ db')
            × (bucket_map.get call.0.1.buckets id ≡ some (set_exhausted b))
            × (refill_map.get call.0.1.refills id ≡ none)
      unfolding run advance claimed
      consume_denied b f g = rw (call-after_fetch _ f) (
          ground (
            arith,
            g,
            id_eq_refl id,
            refill_map.get-insert s.refills id id s.next,
            refill_map.get-remove (refill_map.insert s.refills id s.next) id id,
            bucket_map.get-alter s.buckets id id set_exhausted,
          ))

      -- Without a bucket the answer is the time that the window has left.
      pub consume_denied_absent :
          Fetched (ok (0, ttl, window))
          → bucket_map.get s.buckets id ≡ none
          → (call.1 ≡ finished (err (exhausted id ttl)))
            × (call.0.0 ≡ db')
            × (call.0.1.buckets ≡ s.buckets)
            × (refill_map.get call.0.1.refills id ≡ none)
      unfolding run advance claimed
      consume_denied_absent f g = rw (call-after_fetch _ f) (
          ground (
            arith,
            g,
            id_eq_refl id,
            refill_map.get-insert s.refills id id s.next,
            refill_map.get-remove (refill_map.insert s.refills id s.next) id id,
          ))

      -- A call that has to lease and whose call of Redis fails, while no other task of the instance
      -- runs, answers with that error, leaves the buckets as they are, and leaves no `Notify`
      -- behind.
      pub consume_failed :
          (e : Cache.Error)
          → Fetched (err e)
          → (call.1 ≡ finished (err (cache e)))
            × (call.0.0 ≡ db')
            × (call.0.1.buckets ≡ s.buckets)
            × (refill_map.get call.0.1.refills id ≡ none)
      unfolding run advance claimed
      consume_failed e f = rw (call-after_fetch _ f) (
          ground (
            arith,
            id_eq_refl id,
            refill_map.get-insert s.refills id id s.next,
            refill_map.get-remove (refill_map.insert s.refills id s.next) id id,
          ))
