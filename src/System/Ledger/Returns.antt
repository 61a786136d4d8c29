-- ===== src/System/Ledger/Returns.antt =====
-- A step of the background task returns what it has seen in the buckets, once.
use that_limit.Prelude.{
  ℕ, zero, suc, ◌+◌, ◌≤◌, ◌≡◌, refl, ap, sym, ◌∙◌, Bool, true, false, inl, inr, Bool-cases,
  Option-cases, Option, some, List, [], ◌∷◌, ◌++◌, if◌then◌else◌, arith,
}
use that_limit.Prelude.Int.{ℤ}
use that_limit.Duration.{Instant}
use that_limit.Bucket.{BucketId, Bucket}
use that_limit.Bucket.Ids.{id_eq, id_eq_iff}
use that_limit.DashMap.{Agrees, has_key, Distinct}
use that_limit.Platform.{Platform}
use that_limit.Store.{Store, Moment}
use that_limit.Store.Background.{chunks_from, chunk_size, replenish}
use that_limit.Store.Background.Cleanup.{flatten, flatten-chunks_from}
use that_limit.Store.Background.Worker.{
  Worker, selecting, removing, returning, reporting, ended, Wake, tick, shut_down, next_of, work,
}
use that_limit.System.Ledger.{of_item, content, sum_items, sum_chunks, pending, returned, stored}

-- The task has not begun to return anything.
abbrev pub is_serving : Worker → Bool
is_serving selecting = true
is_serving (removing _) = true
is_serving _ = false

pub pending-serving :
    (id : BucketId) (w : ℕ) (v : Worker) → is_serving v ≡ true → pending id w v ≡ 0
pending-serving id w selecting h = refl
pending-serving id w (removing cs) h = refl
pending-serving id w (returning cs) h = cc
pending-serving id w reporting h = cc
pending-serving id w ended h = cc

module _ (id : BucketId) (w : ℕ) where
  pub sum_chunks-next_of :
      (c : ℕ) (cs : List (List (BucketId × ℕ × ℤ))) (i : BucketId × ℕ × ℤ)
      (cs' : List (List (BucketId × ℕ × ℤ)))
      → next_of c cs ≡ some (i, cs')
      → of_item id w i + sum_chunks id w cs' ≡ sum_chunks id w cs
  unfolding next_of
  sum_chunks-next_of c [] i cs' h = cc
  sum_chunks-next_of zero ([] ∷ cs) i cs' h = cc
  sum_chunks-next_of zero ((x ∷ xs) ∷ cs) i cs' h = ground arith
  sum_chunks-next_of (suc c) (xs ∷ cs) i cs' h = elim (Option-cases (next_of c cs)) [
    | inl e ↦ ground (arith, e)
    | inr ((j, ds), e) ↦ ground (arith, e, sum_chunks-next_of c cs j ds e)
  ]

  sum_items-append :
      (xs ys : List (BucketId × ℕ × ℤ))
      → sum_items id w (xs ++ ys) ≡ sum_items id w xs + sum_items id w ys
  sum_items-append [] ys = omega arith
  sum_items-append (x ∷ xs) ys = omega (arith, sum_items-append xs ys)

  sum_chunks-flatten :
      (cs : List (List (BucketId × ℕ × ℤ))) → sum_chunks id w cs ≡ sum_items id w (flatten cs)
  sum_chunks-flatten [] = refl
  sum_chunks-flatten (c ∷ cs) =
      omega (arith, sum_chunks-flatten cs, sum_items-append c (flatten cs))

  pub sum_chunks-chunks_from :
      (n room : ℕ) (is : List (BucketId × ℕ × ℤ))
      → sum_chunks id w (chunks_from n room is) ≡ sum_items id w is
  sum_chunks-chunks_from n room is =
      sum_chunks-flatten (chunks_from n room is)
      ∙ ap (sum_items id w) (flatten-chunks_from n room is)

  -- No id stands twice among the entries, so no token is collected twice.
  sum_items-replenish :
      (get : BucketId → Option Bucket) (now : Instant) (es : List (BucketId × Bucket))
      → Agrees get es
      → Distinct es
      → sum_items id w (replenish now es) ≤ (if has_key id es then content w (get id) else 0)
  unfolding has_key
  sum_items-replenish get now [] a d = omega arith
  sum_items-replenish get now ((k, b) ∷ es) (e, a) (new, d) = elim (Bool-cases (id_eq k id)) [
    | inl same ↦
        let here : get id ≡ some b = ap get (sym ((id_eq_iff k id).0 same)) ∙ e in
        let once : has_key id es ≡ false =
          ap (λ j. has_key j es) (sym ((id_eq_iff k id).0 same)) ∙ new in
        ground (arith, same, here, once, sum_items-replenish get now es a d)
    | inr other ↦ ground (arith, other, sum_items-replenish get now es a d)
  ]

  pending-collected :
      (is : List (BucketId × ℕ × ℤ))
      → pending id w
          (elim is [ [] ↦ reporting | i ∷ js ↦ returning (chunks_from 1999 chunk_size (i ∷ js)) ])
        ≤ sum_items id w is
  pending-collected [] = omega arith
  pending-collected (i ∷ js) = omega (arith, sum_chunks-chunks_from 1999 chunk_size (i ∷ js))

  module _ (p : Platform) where
    open p use {redis, buckets as bucket_map}

    collected-le-stored :
        (now : Instant) (s : Store p)
        → sum_items id w (replenish now (bucket_map.entries s.buckets)) ≤ stored p id w s
    collected-le-stored now s =
        let le =
          sum_items-replenish (bucket_map.get s.buckets) now (bucket_map.entries s.buckets)
            (bucket_map.entries_sound s.buckets) (bucket_map.entries-Distinct s.buckets) in
        ground (arith, le)

    pub work-pending :
        (wake : Wake) (c : ℕ) (m : Moment p) (db : redis.Db) (s : Store p) (v : Worker)
        → let o = work p wake c m (db, s) v in
          (returned id w c v + pending id w o.1
            ≤ pending id w v + (if is_serving v then stored p id w s else 0))
    unfolding work
    work-pending tick c m db s selecting = ground arith
    work-pending shut_down c m db s selecting = omega (
      arith,
      pending-collected (replenish m.now (bucket_map.entries s.buckets)),
      collected-le-stored m.now s,
    )
    work-pending wake c m db s (removing cs) = ground arith
    work-pending wake c m db s (returning cs) = elim (Option-cases (next_of c cs)) [
      | inl e ↦ ground (arith, e)
      | inr ((i, cs'), e) ↦ ground (arith, e, sum_chunks-next_of c cs i cs' e)
    ]
    work-pending wake c m db s reporting = ground arith
    work-pending wake c m db s ended = ground arith

    pub work-stored :
        (wake : Wake) (c : ℕ) (m : Moment p) (db : redis.Db) (s : Store p) (v : Worker)
        → stored p id w (work p wake c m (db, s) v).0.1 ≤ stored p id w s
    unfolding work
    work-stored wake c m db s selecting = omega arith
    work-stored wake c m db s (removing cs) = elim (Option-cases (next_of c cs)) [
      | inl e ↦ ground (arith, e)
      | inr ((k, cs'), e) ↦ ground (arith, e, bucket_map.get-remove s.buckets k id)
    ]
    work-stored wake c m db s (returning cs) = ground arith
    work-stored wake c m db s reporting = omega arith
    work-stored wake c m db s ended = omega arith

    -- A task that has begun to return does not serve again, and one that serves returns nothing.
    pub work-is_serving :
        (wake : Wake) (c : ℕ) (m : Moment p) (db : redis.Db) (s : Store p) (v : Worker)
        → is_serving (work p wake c m (db, s) v).1 ≡ true
        → (is_serving v ≡ true) × (returned id w c v ≡ 0)
    unfolding work
    work-is_serving wake c m db s v h = ground arith
