-- ===== src/System/Quota/WorkMarks.antt =====
-- The windows that a background task has written down, with what it removes and returns.
use mathlib.Core.Path.{subst}
use that_limit.Prelude.{
  ℕ, zero, suc, ◌≡◌, sym, inl, inr, Bool-cases, Option-cases, some, Option, not, ◌&&◌, List, [],
  ◌∷◌, ◌++◌, arith,
}
use that_limit.Prelude.Int.{ℤ}
use that_limit.Duration.{Instant}
use that_limit.Bucket.{BucketId, Bucket, is_empty, is_expired}
use that_limit.DashMap.{Agrees}
use that_limit.Platform.{Platform}
use that_limit.Store.{Store, Moment}
use that_limit.Store.Background.{chunks_from, chunk_size, expired_keys, replenish}
use that_limit.Store.Background.Cleanup.{flatten, flatten-chunks_from}
use that_limit.Store.Background.Worker.{
  Worker, selecting, removing, returning, reporting, ended, Wake, tick, shut_down, next_of,
  all_done, work,
}
use that_limit.System.Quota.Marks.{
  IsWindow, ItemsMarked, ChunksMarked, WorkerMarked, BucketsMarked, StoreMarked, remove-StoreMarked,
}

ItemsMarked-split :
    (xs ys : List (BucketId × ℕ × ℤ)) → ItemsMarked (xs ++ ys) → ItemsMarked xs × ItemsMarked ys
ItemsMarked-split [] ys h = (tt, h)
ItemsMarked-split ((j, n, v) ∷ xs) ys (a, h) = let (b, c) = ItemsMarked-split xs ys h in ((a, b), c)

ChunksMarked-flatten :
    (cs : List (List (BucketId × ℕ × ℤ))) → ItemsMarked (flatten cs) → ChunksMarked cs
ChunksMarked-flatten [] h = tt
ChunksMarked-flatten (c ∷ cs) h =
    let (a, b) = ItemsMarked-split c (flatten cs) h in (a, ChunksMarked-flatten cs b)

pub ChunksMarked-next_of :
    (c : ℕ) (cs : List (List (BucketId × ℕ × ℤ))) (j : BucketId) (n : ℕ) (v : ℤ)
    (cs' : List (List (BucketId × ℕ × ℤ)))
    → ChunksMarked cs
    → next_of c cs ≡ some ((j, n, v), cs')
    → IsWindow v × ChunksMarked cs'
unfolding next_of
ChunksMarked-next_of c [] j n v cs' h e = cc
ChunksMarked-next_of zero ([] ∷ cs) j n v cs' h e = cc
ChunksMarked-next_of zero (((i, k, u) ∷ xs) ∷ cs) j n v cs' ((a, b), h) e =
    let same_window : u ≡ v = ground arith in
    let same_rest : xs ∷ cs ≡ cs' = ground arith in
    (subst IsWindow same_window a, subst ChunksMarked same_rest (b, h))
ChunksMarked-next_of (suc c) (xs ∷ cs) j n v cs' (a, h) e = elim (Option-cases (next_of c cs)) [
  | inl f ↦ ground (arith, f)
  | inr (((i, k, u), ds), f) ↦
      let (m, rest) = ChunksMarked-next_of c cs i k u ds h f in
      let same_window : u ≡ v = ground (arith, f) in
      let same_rest : xs ∷ ds ≡ cs' = ground (arith, f) in
      (subst IsWindow same_window m, subst ChunksMarked same_rest (a, rest))
]

module _ (p : Platform) where
  open p use {redis, buckets as bucket_map}

  ItemsMarked-replenish :
      (get : BucketId → Option Bucket) (now : Instant) (es : List (BucketId × Bucket))
      → ((id : BucketId) (b : Bucket) → get id ≡ some b → IsWindow b.window)
      → Agrees get es
      → ItemsMarked (replenish now es)
  ItemsMarked-replenish get now [] h a = tt
  ItemsMarked-replenish get now ((k, b) ∷ es) h (e, a) =
      let mark = h k b e in
      let rest = ItemsMarked-replenish get now es h a in
      elim (Bool-cases (not (is_empty b) && not (is_expired now b))) [
        | inl due ↦
            let same : (k, b.tokens, b.window) ∷ replenish now es ≡ replenish now ((k, b) ∷ es) =
              ground (arith, due) in
            subst ItemsMarked same (mark, rest)
        | inr not_due ↦
            let same : replenish now es ≡ replenish now ((k, b) ∷ es) = ground (arith, not_due) in
            subst ItemsMarked same rest
      ]

  returning-Marked :
      (is : List (BucketId × ℕ × ℤ))
      → ItemsMarked is
      → WorkerMarked
          (elim is [ [] ↦ reporting | i ∷ js ↦ returning (chunks_from 1999 chunk_size (i ∷ js)) ])
  returning-Marked [] h = tt
  returning-Marked (i ∷ js) h =
      ChunksMarked-flatten (chunks_from 1999 chunk_size (i ∷ js))
        (subst ItemsMarked (sym (flatten-chunks_from 1999 chunk_size (i ∷ js))) h)

  removing-Marked :
      (ks : List BucketId)
      → WorkerMarked
          (elim ks [ [] ↦ selecting | k ∷ js ↦ removing (chunks_from 1999 chunk_size (k ∷ js)) ])
  removing-Marked [] = tt
  removing-Marked (k ∷ ks) = tt

  pub work-StoreMarked :
      (wake : Wake) (c : ℕ) (m : Moment p) (db : redis.Db) (s : Store p) (v : Worker)
      → StoreMarked p s
      → StoreMarked p (work p wake c m (db, s) v).0.1
  unfolding work
  work-StoreMarked wake c m db s selecting h = h
  work-StoreMarked wake c m db s (removing cs) h = elim (Option-cases (next_of c cs)) [
    | inl o ↦ subst (BucketsMarked p) (ground (arith, o)) h
    | inr ((k, ds), o) ↦ subst (BucketsMarked p) (ground (arith, o)) (remove-StoreMarked p s k h)
  ]
  work-StoreMarked wake c m db s (returning cs) h = subst (BucketsMarked p) (ground arith) h
  work-StoreMarked wake c m db s reporting h = h
  work-StoreMarked wake c m db s ended h = h

  pub work-WorkerMarked :
      (wake : Wake) (c : ℕ) (m : Moment p) (db : redis.Db) (s : Store p) (v : Worker)
      → StoreMarked p s
      → WorkerMarked v
      → WorkerMarked (work p wake c m (db, s) v).1
  unfolding work
  work-WorkerMarked tick c m db s selecting h k =
      removing-Marked (expired_keys m.now (bucket_map.entries s.buckets))
  work-WorkerMarked shut_down c m db s selecting h k =
      returning-Marked (replenish m.now (bucket_map.entries s.buckets)) (
        ItemsMarked-replenish (bucket_map.get s.buckets) m.now (bucket_map.entries s.buckets) h
          (bucket_map.entries_sound s.buckets))
  work-WorkerMarked wake c m db s (removing cs) h k = elim (Option-cases (next_of c cs)) [
    | inl o ↦ elim (Bool-cases (all_done cs)) [
      | inl d ↦
          let same : selecting ≡ (work p wake c m (db, s) (removing cs)).1 = ground (arith, o, d) in
          subst WorkerMarked same tt
      | inr d ↦
          let same : removing cs ≡ (work p wake c m (db, s) (removing cs)).1 =
            ground (arith, o, d) in
          subst WorkerMarked same tt
    ]
    | inr ((j, ds), o) ↦
        let same : removing ds ≡ (work p wake c m (db, s) (removing cs)).1 = ground (arith, o) in
        subst WorkerMarked same tt
  ]
  work-WorkerMarked wake c m db s (returning cs) h k = elim (Option-cases (next_of c cs)) [
    | inl o ↦ elim (Bool-cases (all_done cs)) [
      | inl d ↦
          let same : reporting ≡ (work p wake c m (db, s) (returning cs)).1 =
            ground (arith, o, d) in
          subst WorkerMarked same tt
      | inr d ↦
          let same : returning cs ≡ (work p wake c m (db, s) (returning cs)).1 =
            ground (arith, o, d) in
          subst WorkerMarked same k
    ]
    | inr (((j, n, v), ds), o) ↦
        let same : returning ds ≡ (work p wake c m (db, s) (returning cs)).1 = ground (arith, o) in
        subst WorkerMarked same (ChunksMarked-next_of c cs j n v ds k o).1
  ]
  work-WorkerMarked wake c m db s reporting h k = tt
  work-WorkerMarked wake c m db s ended h k = tt
