-- ===== src/System/Stuck.antt =====
-- A bucket that is marked as exhausted, on an instance without a background task.
use mathlib.Core.Path.{subst}
use that_limit.Prelude.{
  ℕ, ◌≡◌, refl, ap, sym, ◌∙◌, ◌⊎◌, inl, inr, true, false, Bool-cases, some, if_pos, if_neg,
  ℕ_discrete, err, arith,
}
use that_limit.Duration.{Duration, duration_since}
use that_limit.Bucket.{BucketId, Bucket, set_exhausted, is_expired}
use that_limit.Bucket
use that_limit.Bucket.Ids.{id_eq, id_eq_iff}
use that_limit.Platform.{Platform}
use that_limit.Store.{
  Task, checking, claiming, leasing, settling, waking, arming, waiting, spending, dropping,
  finished, exhausted, Store, Moment, advance, check,
}
use that_limit.Store.Background.Worker.{ended, Wake, work}
use that_limit.System.{System, step, tend, Reach, here, next, background}

-- A call that is not about to change the bucket of the id, or to wake who waits for it.
abbrev pub IsCalm : BucketId → Task → Type 0
IsCalm id (claiming j) = id_eq j id ≡ false
IsCalm id (leasing j) = id_eq j id ≡ false
IsCalm id (settling j _ _ _) = id_eq j id ≡ false
IsCalm id (waking j _) = id_eq j id ≡ false
IsCalm id (spending j) = id_eq j id ≡ false
IsCalm id (dropping j) = id_eq j id ≡ false
IsCalm id _ = Unit

module _ (p : Platform) (id : BucketId) where
  open p use {redis, buckets as bucket_map}

  pub record IsMarked (s : Store p) : Type 0 where
    pub bucket : Bucket
    pub found : bucket_map.get s.buckets id ≡ some bucket
    pub marked : bucket.exhausted ≡ true

  module _ (m : Moment p) (db : redis.Db) (s : Store p) (v : IsMarked s) where
    open v use {bucket, found, marked}

    abbrev after : Task → (redis.Db × Store p) × Task
    after t = advance p m (db, s) t

    kept :
        (t : Task) → bucket_map.get (after t).0.1.buckets id ≡ some bucket → IsMarked (after t).0.1
    kept t h = record { bucket = bucket; found = h; marked = marked }

    advance-found : (t : Task) → IsCalm id t → bucket_map.get (after t).0.1.buckets id ≡ some bucket
    unfolding advance
    advance-found (checking j) c = found
    advance-found (claiming j) c = ground (arith, found)
    advance-found (leasing j) c = found
    advance-found (settling j n ttl w) c = ground (
      arith,
      found,
      c,
      bucket_map.get-insert s.buckets j id (Bucket.new m.now n ttl w),
      bucket_map.get-alter s.buckets j id set_exhausted,
    )
    advance-found (waking j res) c = ground (arith, found)
    advance-found (arming j n) c = found
    advance-found (waiting j n b) c = found
    advance-found (spending j) c =
        ground (arith, found, c, bucket_map.get-alter s.buckets j id (λ b. (Bucket.consume b).0))
    advance-found (dropping j) c = ground (arith, found, c, bucket_map.get-remove s.buckets j id)
    advance-found (finished res) c = found

    turned_away : (d : Duration) × ((after (checking id)).1 ≡ finished (err (exhausted id d)))
    unfolding advance check
    turned_away = (duration_since bucket.expires_at m.now, ground (arith, found, marked))

    advance-IsCalm : (t : Task) → IsCalm id t → IsCalm id (after t).1
    unfolding advance check
    advance-IsCalm (checking j) c = elim (Bool-cases (id_eq j id)) [
      | inl same ↦ ground (arith, (id_eq_iff j id).0 same, found, marked)
      | inr other ↦ ground (arith, other)
    ]
    advance-IsCalm (claiming j) c = ground (arith, c)
    advance-IsCalm (leasing j) c = ground (arith, c)
    advance-IsCalm (settling j n ttl w) c = ground (arith, c)
    advance-IsCalm (waking j res) c = ground (arith, c)
    advance-IsCalm (arming j n) c = tt
    advance-IsCalm (waiting j n b) c = ground arith
    advance-IsCalm (spending j) c = ground (arith, c)
    advance-IsCalm (dropping j) c = tt
    advance-IsCalm (finished res) c = tt

  -- The call asks for the id, or has been refused.
  abbrev pub Refuses : Task → Type 0
  Refuses t = (t ≡ checking id) ⊎ ((d : Duration) × (t ≡ finished (err (exhausted id d))))

  module _ (m : Moment p) (db : redis.Db) (s : Store p) (v : IsMarked s) where
    advance-IsMarked : (t : Task) → IsCalm id t → IsMarked (advance p m (db, s) t).0.1
    advance-IsMarked t c = kept m db s v t (advance-found m db s v t c)

    advance-Refuses :
        (t : Task)
        → Refuses t
        → (d : Duration) × ((advance p m (db, s) t).1 ≡ finished (err (exhausted id d)))
    unfolding advance
    advance-Refuses t (inl e) =
        let (d, r) = turned_away m db s v in (d, ap (λ u. (advance p m (db, s) u).1) e ∙ r)
    advance-Refuses t (inr (d, e)) = (d, ap (λ u. (advance p m (db, s) u).1) e)

  module _ (home : ℕ → ℕ) (k : ℕ) where
    -- The instance `k` has the bucket, marked as exhausted, no background task, and no call that is
    -- about to change the bucket.
    pub record IsStuck (s : System p) : Type 0 where
      pub marked : IsMarked (s.stores k)
      pub idle : s.workers k ≡ ended
      pub calm : (i : ℕ) → home i ≡ k → IsCalm id (s.tasks i)

    module _ (s : System p) (v : IsStuck s) where
      step-IsStuck : (j : ℕ) (m : Moment p) → IsStuck (step p home s j m)
      unfolding step
      step-IsStuck j m = elim (ℕ_discrete (home j) k) [
        | yes e ↦
            let st = subst (λ h. IsMarked (s.stores h)) (sym e) v.marked in
            record {
              marked =
                  subst IsMarked (sym (if_pos (ℕ_discrete (home j) k) e _ (s.stores k)))
                    (advance-IsMarked m s.db (s.stores (home j)) st (s.tasks j) (v.calm j e));
              idle = v.idle;
              calm = λ i h. elim (ℕ_discrete j i) [
                | yes same ↦
                    subst (IsCalm id) (sym (if_pos (ℕ_discrete j i) same _ (s.tasks i)))
                      (advance-IsCalm m s.db (s.stores (home j)) st (s.tasks j) (v.calm j e))
                | no other ↦
                    subst (IsCalm id) (sym (if_neg (ℕ_discrete j i) other _ (s.tasks i)))
                      (v.calm i h)
              ];
            }
        | no e ↦ record {
          marked = subst IsMarked (sym (if_neg (ℕ_discrete (home j) k) e _ (s.stores k))) v.marked;
          idle = v.idle;
          calm = λ i h.
              subst (IsCalm id)
                (sym (if_neg (ℕ_discrete j i) (λ same. e (ap home same ∙ h)) _ (s.tasks i)))
                (v.calm i h);
        }
      ]

      tend-IsStuck :
          (h : ℕ) (wake : Wake) (c : ℕ) (m : Moment p) → IsStuck (tend p home s h wake c m)
      unfolding tend work
      tend-IsStuck h wake c m = elim (ℕ_discrete h k) [
        | yes e ↦
            let same = ap s.workers e ∙ v.idle in
            record {
              marked =
                  subst IsMarked
                    (sym (
                      if_pos (ℕ_discrete h k) e _ (s.stores k)
                      ∙ ap (λ w. (work p wake c m (s.db, s.stores h) w).0.1) same
                      ∙ ap s.stores e))
                    v.marked;
              idle =
                  if_pos (ℕ_discrete h k) e _ (s.workers k)
                  ∙ ap (λ w. (work p wake c m (s.db, s.stores h) w).1) same;
              calm = v.calm;
            }
        | no e ↦ record {
          marked = subst IsMarked (sym (if_neg (ℕ_discrete h k) e _ (s.stores k))) v.marked;
          idle = if_neg (ℕ_discrete h k) e _ (s.workers k) ∙ v.idle;
          calm = v.calm;
        }
      ]

      module _ (i : ℕ) (at : home i ≡ k) (asks : Refuses (s.tasks i)) (m : Moment p) where
        step-turned_away :
            (d : Duration) × ((step p home s i m).tasks i ≡ finished (err (exhausted id d)))
        unfolding step
        step-turned_away =
            let st = subst (λ h. IsMarked (s.stores h)) (sym at) v.marked in
            let (d, r) = advance-Refuses m s.db (s.stores (home i)) st (s.tasks i) asks in
            (d, if_pos (ℕ_discrete i i) refl _ (s.tasks i) ∙ r)

        step-Refuses : (j : ℕ) → Refuses ((step p home s j m).tasks i)
        unfolding step
        step-Refuses j = elim (ℕ_discrete j i) [
          | yes e ↦ inr (
              subst
                (λ n.
                  (d : Duration) × ((step p home s n m).tasks i ≡ finished (err (exhausted id d))))
                (sym e) step-turned_away)
          | no e ↦ subst Refuses (sym (if_neg (ℕ_discrete j i) e _ (s.tasks i))) asks
        ]

    module _ (i : ℕ) (at : home i ≡ k) where
      Reach-Stuck :
          {s t : System p}
          → IsStuck s
          → Refuses (s.tasks i)
          → Reach p home s t
          → IsStuck t × Refuses (t.tasks i)
      unfolding tend
      Reach-Stuck v asks here = (v, asks)
      Reach-Stuck v asks (next r j m le) =
          let (u, f) = Reach-Stuck v asks r in (step-IsStuck _ u j m, step-Refuses _ u i at f m j)
      Reach-Stuck v asks (background r h wake c m le) =
          let (u, f) = Reach-Stuck v asks r in (tend-IsStuck _ u h wake c m, f)

      -- An instance without a background task has a bucket for the id that is marked as exhausted,
      -- and none of its calls is about to replace, spend from or drop that bucket. Whatever steps
      -- follow, of any calls of any instances and at any times, also after the bucket has expired: a
      -- call of this instance that was about to check the bucket is refused as exhausted as soon as
      -- it takes a step.
      pub refuses_forever :
          {s t : System p}
          → IsStuck s
          → s.tasks i ≡ checking id
          → Reach p home s t
          → (m : Moment p)
          → (d : Duration) × ((step p home t i m).tasks i ≡ finished (err (exhausted id d)))
      refuses_forever v asks r m =
          let (u, f) = Reach-Stuck v (inl asks) r in step-turned_away _ u i at f m
