-- ===== src/System/Wakeup/Waits.antt =====
-- What a call that waits knows of its `Notify`.
use that_limit.Prelude.{
  ℕ, ◌≤◌, ◌<◌, ◌≡◌, ◌≢◌, refl, sym, ◌⊎◌, inl, inr, some, if_pos, if_neg, ℕ_discrete, arith,
}
use mathlib.Core.Path.{subst}
use that_limit.Prelude.Family.{update, update-all}
use that_limit.Bucket.{BucketId}
use that_limit.Config.{Config}
use that_limit.Platform.{Platform}
use that_limit.Store.{
  Task, checking, claiming, leasing, settling, waking, arming, waiting, spending, dropping,
  finished, Store, Moment, advance,
}
use that_limit.Store.Background.Worker.{Wake, work}
use that_limit.Store.Background.Frame.{work-KeepsRefills}
use that_limit.System.{System, init, step, tend, Reach, here, next, background}
use that_limit.System.Wakeup.{
  get, IsOrdered, Tells, KeepsRefills-IsOrdered, KeepsRefills-Tells, advance-IsOrdered,
  advance-Tells, Tells-refl,
}

module _ (p : Platform) where
  open p use {redis, refills as refill_map}

  -- The `Notify` is still in the map, or it has been called.
  abbrev pub IsTold : Store p → BucketId → ℕ → Type 0
  IsTold s id n = (get p s id ≡ some n) ⊎ (0 < s.wakes n)

  Tells-IsTold :
      {s s' : Store p} (id : BucketId) (n : ℕ) → Tells p s s' → IsTold s id n → IsTold s' id n
  Tells-IsTold id n t (inl e) = t.stays id n e
  Tells-IsTold id n t (inr e) = inr (omega (arith, t.grows n))

  -- What a task that is about to wait, or waits, relies on.
  abbrev pub Hears : Store p → Task → Type 0
  Hears s (arming id n) = IsTold s id n
  Hears s (waiting id n before) = IsTold s id n × (before ≤ s.wakes n)
  Hears s _ = Unit

  Tells-Hears : {s s' : Store p} (t : Task) → Tells p s s' → Hears s t → Hears s' t
  Tells-Hears (arming id n) f h = Tells-IsTold id n f h
  Tells-Hears (waiting id n b) f (h, le) = (Tells-IsTold id n f h, omega (arith, f.grows n))
  Tells-Hears (checking _) f h = tt
  Tells-Hears (claiming _) f h = tt
  Tells-Hears (leasing _) f h = tt
  Tells-Hears (settling _ _ _ _) f h = tt
  Tells-Hears (waking _ _) f h = tt
  Tells-Hears (spending _) f h = tt
  Tells-Hears (dropping _) f h = tt
  Tells-Hears (finished _) f h = tt

  advance-Hears :
      (m : Moment p) (db : redis.Db) (s : Store p) (t : Task)
      → Hears s t
      → let w = advance p m (db, s) t in Hears w.0.1 w.1
  unfolding advance
  advance-Hears m db s (checking id) h = ground arith
  advance-Hears m db s (claiming id) h = ground arith
  advance-Hears m db s (leasing id) h = ground arith
  advance-Hears m db s (settling id n ttl w) h = ground arith
  advance-Hears m db s (waking id res) h = ground arith
  advance-Hears m db s (arming id n) h = (h, omega arith)
  advance-Hears m db s (waiting id n b) h = ground arith
  advance-Hears m db s (spending id) h = ground arith
  advance-Hears m db s (dropping id) h = tt
  advance-Hears m db s (finished res) h = tt

  update-Tells :
      (stores : ℕ → Store p) (h : ℕ) (s' : Store p)
      → Tells p (stores h) s'
      → (k : ℕ) → Tells p (stores k) (update stores h s' k)
  update-Tells stores h s' t k = elim (ℕ_discrete h k) [
    | yes e ↦
        subst (Tells p (stores k)) (sym (if_pos (ℕ_discrete h k) e _ _))
          (subst (λ i. Tells p (stores i) s') e t)
    | no ne ↦
        subst (Tells p (stores k)) (sym (if_neg (ℕ_discrete h k) ne _ _)) (Tells-refl p (stores k))
  ]

  nothing : (id : BucketId) (n : ℕ) → refill_map.get refill_map.empty id ≢ some n
  nothing id n e = ground (arith, e, refill_map.get-empty id)

  module _ (home : ℕ → ℕ) where
    pub record Listens (s : System p) : Type 0 where
      pub ordered : (h : ℕ) → IsOrdered p (s.stores h)
      pub hears : (i : ℕ) → Hears (s.stores (home i)) (s.tasks i)

    step-Listens : (s : System p) (i : ℕ) (m : Moment p) → Listens s → Listens (step p home s i m)
    unfolding step
    step-Listens s i m v =
        let store = s.stores (home i) in
        let w = advance p m (s.db, store) (s.tasks i) in
        record {
          ordered =
              update-all (IsOrdered p) s.stores (home i) w.0.1 v.ordered
                (advance-IsOrdered p m s.db store (s.tasks i) (v.ordered (home i)));
          hears = λ j. elim (ℕ_discrete i j) [
            | yes e ↦
                subst
                  (λ k. Hears (update s.stores (home i) w.0.1 (home k)) (update s.tasks i w.1 k)) e
                  (subst (Hears (update s.stores (home i) w.0.1 (home i)))
                    (sym (if_pos (ℕ_discrete i i) refl _ _))
                    (subst (λ u. Hears u w.1) (sym (if_pos (ℕ_discrete (home i) (home i)) refl _ _))
                      (advance-Hears m s.db store (s.tasks i) (v.hears i))))
            | no ne ↦
                subst (Hears (update s.stores (home i) w.0.1 (home j)))
                  (sym (if_neg (ℕ_discrete i j) ne _ _))
                  (Tells-Hears (s.tasks j)
                    (update-Tells s.stores (home i) w.0.1 (advance-Tells p m s.db store (s.tasks i))
                      (home j))
                    (v.hears j))
          ];
        }

    tend-Listens :
        (s : System p) (h : ℕ) (wake : Wake) (c : ℕ) (m : Moment p)
        → Listens s
        → Listens (tend p home s h wake c m)
    unfolding tend
    tend-Listens s h wake c m v =
        let s' = (work p wake c m (s.db, s.stores h) (s.workers h)).0.1 in
        let f = work-KeepsRefills p wake c m s.db (s.stores h) (s.workers h) in
        record {
          ordered =
              update-all (IsOrdered p) s.stores h s' v.ordered
                (KeepsRefills-IsOrdered p (s.stores h) s' f (v.ordered h));
          hears = λ j.
              Tells-Hears (s.tasks j)
                (update-Tells s.stores h s' (KeepsRefills-Tells p (s.stores h) s' f) (home j))
                (v.hears j);
        }

    Reach-keeps-Listens : {s t : System p} → Listens s → Reach p home s t → Listens t
    Reach-keeps-Listens v here = v
    Reach-keeps-Listens v (next r i m le) = step-Listens _ i m (Reach-keeps-Listens v r)
    Reach-keeps-Listens v (background r h wake c m le) =
        tend-Listens _ h wake c m (Reach-keeps-Listens v r)

    pub Reach-Listens :
        {c : Config} {db : redis.Db} {clock : ℕ} {ids : ℕ → BucketId} {s : System p}
        → Reach p home (init p c db clock ids) s
        → Listens s
    Reach-Listens r =
        Reach-keeps-Listens
          (record {
            ordered = λ h. record {
              listed = λ id n e. absurd (nothing id n e);
              unnamed = λ n le. refl;
              once = λ n. omega arith;
              alone = λ i j n e k. absurd (nothing i n e);
            };
            hears = λ i. tt;
          })
          r
