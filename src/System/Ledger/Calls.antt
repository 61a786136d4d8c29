-- ===== src/System/Ledger/Calls.antt =====
-- A step of a call neither makes tokens nor doubles them.
use that_limit.Prelude.{ℕ, ◌+◌, ◌≤◌, ◌≡◌, false, inl, inr, Bool-cases, Option-cases, some, arith}
use that_limit.Bucket.{BucketId, Bucket, is_empty, is_expired, set_exhausted}
use that_limit.Bucket
use that_limit.Bucket.Ids.{id_eq_iff}
use that_limit.Platform.{Platform}
use that_limit.Store.{
  Task, checking, claiming, leasing, settling, waking, arming, waiting, spending, dropping,
  finished, Store, Moment, advance,
}
use that_limit.System.Ledger.{held, received, content, take_one, stored, spent}

content-consume :
    (w now : ℕ) (b : Bucket)
    → is_expired now b ≡ false
    → take_one w now (some b) + content w (some (Bucket.consume b).0) ≡ content w (some b)
unfolding Bucket.consume is_empty
content-consume w now b h = ground arith

module _ (p : Platform) (id : BucketId) (w : ℕ) where
  open p use {redis, buckets as bucket_map}

  pub advance-balance :
      (m : Moment p) (db : redis.Db) (s : Store p) (t : Task)
      → let o = advance p m (db, s) t in
        spent p id w m s t + stored p id w o.0.1 + held id w o.1
        ≤ stored p id w s + held id w t + received id w t o.1
  unfolding advance Bucket.new set_exhausted
  advance-balance m db s (checking j) = ground arith
  advance-balance m db s (claiming j) = ground arith
  advance-balance m db s (leasing j) = ground arith
  advance-balance m db s (settling j n ttl v) = ground (
    arith,
    id_eq_iff j id,
    bucket_map.get-insert s.buckets j id (Bucket.new m.now n ttl v),
    bucket_map.get-alter s.buckets j id set_exhausted,
  )
  advance-balance m db s (waking j res) = ground arith
  advance-balance m db s (arming j n) = ground arith
  advance-balance m db s (waiting j n b) = ground arith
  advance-balance m db s (spending j) = elim (Option-cases (bucket_map.get s.buckets j)) [
    | inl e ↦ ground (arith, e)
    | inr (b, e) ↦ elim (Bool-cases (is_expired m.now b)) [
      | inl x ↦ ground (arith, e, x)
      | inr x ↦ ground (
        arith,
        e,
        x,
        id_eq_iff j id,
        bucket_map.get-alter s.buckets j id (λ c. (Bucket.consume c).0),
        content-consume w m.now b x,
      )
    ]
  ]
  advance-balance m db s (dropping j) = ground (arith, bucket_map.get-remove s.buckets j id)
  advance-balance m db s (finished res) = ground arith
