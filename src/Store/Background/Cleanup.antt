-- ===== src/Store/Background/Cleanup.antt =====
-- What a tick of the background task removes.
use that_limit.Prelude.{
  ℕ, zero, suc, ◌≡◌, refl, ap, sym, ◌∙◌, Bool, true, false, ◌&&◌, Option, none, some, inl, inr,
  Bool-cases, Option-cases, List, [], ◌∷◌, ◌++◌, if◌then◌else◌, arith,
}
use that_limit.Duration.{Instant}
use that_limit.Bucket.{BucketId, Bucket, is_expired}
use that_limit.Bucket.Ids.{id_eq, id_eq_iff}
use that_limit.DashMap.{Agrees, has_key}
use that_limit.Platform.{Platform}
use that_limit.Store.{Store}
use that_limit.Store.Background.{
  push, chunks_from, chunk_size, expired_keys, remove_chunk, remove_chunks, cleanup,
}

abbrev pub flatten {ℓ} : {A : Type ℓ} → List (List A) → List A
flatten [] = []
flatten (c ∷ cs) = c ++ flatten cs

flatten-push {ℓ} : {A : Type ℓ} (x : A) (cs : List (List A)) → flatten (push x cs) ≡ x ∷ flatten cs
unfolding push
flatten-push x [] = refl
flatten-push x (c ∷ cs) = refl

-- Chunking loses nothing and keeps the order.
pub flatten-chunks_from {ℓ} :
    {A : Type ℓ} (n room : ℕ) (xs : List A) → flatten (chunks_from n room xs) ≡ xs
unfolding chunks_from
flatten-chunks_from n room [] = refl
flatten-chunks_from n zero (x ∷ xs) = flatten-push x _ ∙ ap (◌∷◌ x) (flatten-chunks_from n n xs)
flatten-chunks_from n (suc room) (x ∷ xs) =
    flatten-push x _ ∙ ap (◌∷◌ x) (flatten-chunks_from n room xs)

abbrev mem : BucketId → List BucketId → Bool
mem i [] = false
mem i (k ∷ ks) = if id_eq k i then true else mem i ks

abbrev lapsed : Instant → Option Bucket → Bool
lapsed now none = false
lapsed now (some b) = is_expired now b

-- What is left of a bucket after a tick.
abbrev pub unexpired : Instant → Option Bucket → Option Bucket
unexpired now none = none
unexpired now (some b) = if is_expired now b then none else some b

module _ (p : Platform) where
  open p use {buckets as bucket_map}

  -- The keys collected are those of the entries whose bucket has expired.
  mem-expired_keys :
      (now : Instant) (m : bucket_map.Map) (i : BucketId) (es : List (BucketId × Bucket))
      → Agrees (bucket_map.get m) es
      → mem i (expired_keys now es) ≡ (has_key i es && lapsed now (bucket_map.get m i))
  unfolding has_key
  mem-expired_keys now m i [] h = refl
  mem-expired_keys now m i ((k, b) ∷ es) (e, h) = elim (Bool-cases (id_eq k i)) [
    | inl same ↦
        let here : bucket_map.get m i ≡ some b =
          ap (bucket_map.get m) (sym ((id_eq_iff k i).0 same)) ∙ e in
        ground (arith, same, here, mem-expired_keys now m i es h)
    | inr other ↦ ground (arith, other, mem-expired_keys now m i es h)
  ]

  get-remove_chunk :
      (m : bucket_map.Map) (i : BucketId) (ks : List BucketId)
      → bucket_map.get (remove_chunk p ks m) i ≡ (if mem i ks then none else bucket_map.get m i)
  unfolding remove_chunk
  get-remove_chunk m i [] = refl
  get-remove_chunk m i (k ∷ ks) =
      ground (arith, get-remove_chunk (bucket_map.remove m k) i ks, bucket_map.get-remove m k i)

  mem-append :
      (i : BucketId) (xs ys : List BucketId)
      → mem i (xs ++ ys) ≡ (if mem i xs then true else mem i ys)
  mem-append i [] ys = refl
  mem-append i (x ∷ xs) ys = ground (arith, mem-append i xs ys)

  get-remove_chunks :
      (m : bucket_map.Map) (i : BucketId) (cs : List (List BucketId))
      → bucket_map.get (remove_chunks p cs m) i
        ≡ (if mem i (flatten cs) then none else bucket_map.get m i)
  unfolding remove_chunks
  get-remove_chunks m i [] = refl
  get-remove_chunks m i (c ∷ cs) = ground (
    arith,
    get-remove_chunks (remove_chunk p c m) i cs,
    get-remove_chunk m i c,
    mem-append i c (flatten cs),
  )

  module _ (now : Instant) (s : Store p) (i : BucketId) where
    abbrev here : Option Bucket
    here = bucket_map.get s.buckets i

    -- The keys collected, in one list, decide what is left.
    left_by_keys :
        (if mem i (expired_keys now (bucket_map.entries s.buckets)) then none else here)
        ≡ unexpired now here
    left_by_keys = elim (Option-cases here) [
      | inl e ↦ ground (arith, e)
      | inr (b, e) ↦ ground (
        arith,
        e,
        mem-expired_keys now s.buckets i (bucket_map.entries s.buckets)
            (bucket_map.entries_sound s.buckets),
        bucket_map.entries_complete s.buckets i b e,
      )
    ]

    cleanup-keys :
        (e : BucketId × Bucket) (es : List (BucketId × Bucket)) (ks : List BucketId)
        → bucket_map.entries s.buckets ≡ e ∷ es
        → expired_keys now (e ∷ es) ≡ ks
        → bucket_map.get (cleanup p now s).buckets i ≡ (if mem i ks then none else here)
    unfolding cleanup
    cleanup-keys e es [] h k = rw (h, cleanup, k) refl
    cleanup-keys e es (j ∷ ks) h k =
        rw (h, cleanup, k)
          (get-remove_chunks s.buckets i (chunks_from 1999 chunk_size (j ∷ ks))
            ∙ ap (λ l. if mem i l then none else here)
                (flatten-chunks_from 1999 chunk_size (j ∷ ks)))

    cleanup-entries :
        (es : List (BucketId × Bucket))
        → bucket_map.entries s.buckets ≡ es
        → bucket_map.get (cleanup p now s).buckets i
          ≡ (if mem i (expired_keys now es) then none else here)
    unfolding cleanup
    cleanup-entries [] h = rw (h, cleanup) refl
    cleanup-entries (e ∷ es) h = cleanup-keys e es _ h refl

    -- For every id, a tick leaves no bucket if the one that was there has expired, and otherwise
    -- the same bucket as before.
    pub cleanup_lem : bucket_map.get (cleanup p now s).buckets i ≡ unexpired now here
    cleanup_lem = cleanup-entries _ refl ∙ left_by_keys
