-- ===== src/System/Quota/Marks.antt =====
-- Every window that is written down anywhere is the exact end of a window.
use mathlib.Core.Path.{subst}
use that_limit.Prelude.{
  ℕ, ◌≤◌, ◌==◌, ◌≡◌, ◌≢◌, Bool, refl, true, false, inl, inr, Bool-cases, Option-cases, some, List,
  [], ◌∷◌, arith,
}
use that_limit.Prelude.Int.{ℤ, pos}
use that_limit.Bucket.{BucketId, Bucket, is_empty, is_expired, set_exhausted}
use that_limit.Bucket
use that_limit.Bucket.Ids.{id_eq}
use that_limit.Redis.{max_exact}
use that_limit.Platform.{Platform}
use that_limit.Store.{
  Task, checking, claiming, leasing, settling, waking, arming, waiting, spending, dropping,
  finished, Store, Moment, advance,
}
use that_limit.Store.Background.Worker.{Worker, returning}

pub record IsWindow (z : ℤ) : Type 0 where
  pub end : ℕ
  pub is : z ≡ pos end
  pub exact : end ≤ max_exact

abbrev pub TaskMarked : Task → Type 0
TaskMarked (settling _ _ _ v) = IsWindow v
TaskMarked _ = Unit

abbrev unsettled : Task → Bool
unsettled (settling _ _ _ _) = false
unsettled _ = true

unsettled-TaskMarked : (t : Task) → unsettled t ≡ true → TaskMarked t
unsettled-TaskMarked (settling id n ttl w) h = cc
unsettled-TaskMarked (checking id) h = tt
unsettled-TaskMarked (claiming id) h = tt
unsettled-TaskMarked (leasing id) h = tt
unsettled-TaskMarked (waking id res) h = tt
unsettled-TaskMarked (arming id n) h = tt
unsettled-TaskMarked (waiting id n b) h = tt
unsettled-TaskMarked (spending id) h = tt
unsettled-TaskMarked (dropping id) h = tt
unsettled-TaskMarked (finished res) h = tt

abbrev pub ItemsMarked : List (BucketId × ℕ × ℤ) → Type 0
ItemsMarked [] = Unit
ItemsMarked ((_, _, v) ∷ is) = IsWindow v × ItemsMarked is

abbrev pub ChunksMarked : List (List (BucketId × ℕ × ℤ)) → Type 0
ChunksMarked [] = Unit
ChunksMarked (c ∷ cs) = ItemsMarked c × ChunksMarked cs

abbrev pub WorkerMarked : Worker → Type 0
WorkerMarked (returning cs) = ChunksMarked cs
WorkerMarked _ = Unit

module _ (p : Platform) where
  open p use {redis, buckets as bucket_map}

  abbrev pub BucketsMarked : bucket_map.Map → Type 0
  BucketsMarked bs =
      (id : BucketId) (b : Bucket) → bucket_map.get bs id ≡ some b → IsWindow b.window

  abbrev pub StoreMarked : Store p → Type 0
  StoreMarked s = BucketsMarked s.buckets

  alter-StoreMarked :
      (s : Store p) (j : BucketId) (f : Bucket → Bucket)
      → ((b : Bucket) → (f b).window ≡ b.window)
      → StoreMarked s
      → StoreMarked (record s { buckets = bucket_map.alter s.buckets j f })
  alter-StoreMarked s j f same h id b e = elim (Option-cases (bucket_map.get s.buckets id)) [
    | inl o ↦ ground (arith, o, bucket_map.get-alter s.buckets j id f)
    | inr (a, o) ↦
        let w : a.window ≡ b.window =
          ground (arith, o, bucket_map.get-alter s.buckets j id f, same a) in
        subst IsWindow w (h id a o)
  ]

  insert-StoreMarked :
      (s : Store p) (j : BucketId) (a : Bucket)
      → IsWindow a.window
      → StoreMarked s
      → StoreMarked (record s { buckets = bucket_map.insert s.buckets j a })
  insert-StoreMarked s j a v h id b e = elim (Bool-cases (id_eq j id)) [
    | inl o ↦
        let w : a.window ≡ b.window = ground (arith, o, bucket_map.get-insert s.buckets j id a) in
        subst IsWindow w v
    | inr o ↦ h id b (ground (arith, o, bucket_map.get-insert s.buckets j id a))
  ]

  pub remove-StoreMarked :
      (s : Store p) (j : BucketId)
      → StoreMarked s
      → StoreMarked (record s { buckets = bucket_map.remove s.buckets j })
  remove-StoreMarked s j h id b e = h id b (ground (arith, bucket_map.get-remove s.buckets j id))

  pub advance-StoreMarked :
      (m : Moment p) (db : redis.Db) (s : Store p) (t : Task)
      → StoreMarked s
      → TaskMarked t
      → StoreMarked (advance p m (db, s) t).0.1
  unfolding advance Bucket.consume Bucket.new set_exhausted
  advance-StoreMarked m db s (checking id) h k = h
  advance-StoreMarked m db s (claiming id) h k = subst BucketsMarked (ground arith) h
  advance-StoreMarked m db s (leasing id) h k = h
  advance-StoreMarked m db s (settling id n ttl w) h k = elim (Bool-cases (n == 0)) [
    | inl z ↦ elim (Option-cases (bucket_map.get s.buckets id)) [
      | inl o ↦ subst BucketsMarked (ground (arith, z, o)) h
      | inr (b, o) ↦
          subst BucketsMarked (ground (arith, z, o))
            (alter-StoreMarked s id set_exhausted (λ a. refl) h)
    ]
    | inr z ↦
        subst BucketsMarked (ground (arith, z))
          (insert-StoreMarked s id (Bucket.new m.now n ttl w) k h)
  ]
  advance-StoreMarked m db s (waking id res) h k = subst BucketsMarked (ground arith) h
  advance-StoreMarked m db s (arming id n) h k = h
  advance-StoreMarked m db s (waiting id n b) h k = h
  advance-StoreMarked m db s (spending id) h k = elim (Option-cases (bucket_map.get s.buckets id)) [
    | inl o ↦ subst BucketsMarked (ground (arith, o)) h
    | inr (b, o) ↦ elim (Bool-cases (is_expired m.now b)) [
      | inl x ↦ subst BucketsMarked (ground (arith, o, x)) h
      | inr x ↦
          subst BucketsMarked (ground (arith, o, x))
            (alter-StoreMarked s id (λ c. (Bucket.consume c).0) (λ a. ground arith) h)
    ]
  ]
  advance-StoreMarked m db s (dropping id) h k = remove-StoreMarked s id h
  advance-StoreMarked m db s (finished res) h k = h

  pub advance-TaskMarked :
      (m : Moment p) (db : redis.Db) (s : Store p) (t : Task)
      → ((j : BucketId) → t ≢ leasing j)
      → TaskMarked (advance p m (db, s) t).1
  unfolding advance
  advance-TaskMarked m db s (leasing j) ne = absurd (ne j refl)
  advance-TaskMarked m db s (checking id) ne = unsettled-TaskMarked _ (ground arith)
  advance-TaskMarked m db s (claiming id) ne = unsettled-TaskMarked _ (ground arith)
  advance-TaskMarked m db s (settling id n ttl w) ne = unsettled-TaskMarked _ (ground arith)
  advance-TaskMarked m db s (waking id res) ne = unsettled-TaskMarked _ (ground arith)
  advance-TaskMarked m db s (arming id n) ne = tt
  advance-TaskMarked m db s (waiting id n b) ne = unsettled-TaskMarked _ (ground arith)
  advance-TaskMarked m db s (spending id) ne = unsettled-TaskMarked _ (ground arith)
  advance-TaskMarked m db s (dropping id) ne = tt
  advance-TaskMarked m db s (finished res) ne = tt
