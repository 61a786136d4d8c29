-- ===== src/System/Wakeup/Finishes.antt =====
-- How a call that has not missed its wake-up can go on to its end.
use that_limit.Prelude.{ℕ, ◌≡◌, refl, ap, ◌∙◌, inl, inr, some, Option-cases, Result, arith}
use that_limit.Bucket.{BucketId}
use that_limit.Config.{Config}
use that_limit.Platform.{Platform}
use that_limit.Store.{
  Error, Task, checking, claiming, leasing, settling, waking, arming, waiting, spending, dropping,
  finished, Store, Moment, advance,
}
use that_limit.System.{System, init, Reach}
use that_limit.System.Wakeup.{get}
use that_limit.System.Wakeup.Waits.{IsTold, Hears, Reach-Listens}
use that_limit.System.Wakeup.Busy.{
  is_busy, CanFinish, own, own-Reach, later, busy_now, check_next, task_at, store_at, claim_free,
  claim_freed,
}
use that_limit.System.Wakeup.Resumes.{moment, Reach-trans, go_on, listed_resumes}

module _ (p : Platform) where
  open p use {redis}

  -- The call has not missed a call of `notify_waiters`.
  abbrev pub IsOnTime : Store p → Task → Type 0
  IsOnTime s (arming id n) = s.wakes n ≡ 0
  IsOnTime s (waiting id n before) = before ≡ 0
  IsOnTime s _ = Unit

  module _ (home : ℕ → ℕ) (i : ℕ) where
    -- Somebody leads for it.
    joins :
        (m : Moment p) (db : redis.Db) (s : Store p) (id : BucketId) (n : ℕ)
        → get p s id ≡ some n
        → advance p m (db, s) (claiming id) ≡ ((db, s), arming id n)
    unfolding advance
    joins m db s id n listed = ground (arith, listed)

    arms :
        (m : Moment p) (db : redis.Db) (s : Store p) (id : BucketId) (n : ℕ)
        → s.wakes n ≡ 0
        → advance p m (db, s) (arming id n) ≡ ((db, s), waiting id n 0)
    unfolding advance
    arms m db s id n z = rw z refl

    module _ (c : Config) (db : redis.Db) (clock : ℕ) (ids : ℕ → BucketId) where
      abbrev Started : System p → Type 0
      Started s = Reach p home (init p c db clock ids) s

      arm_listed :
          {s : System p} (r : Started s) (id : BucketId) (n : ℕ)
          → s.tasks i ≡ arming id n
          → (s.stores (home i)).wakes n ≡ 0
          → get p (s.stores (home i)) id ≡ some n
          → CanFinish p home i s
      arm_listed {s} r id n e z listed =
          let a = arms (moment p s) s.db (s.stores (home i)) id n z in
          let r' = Reach-trans p home r (own-Reach p home i s) in
          later p home i (own-Reach p home i s) (
            claim_freed p home i (own p home i s) id n (
              listed_resumes p home i id n r' (task_at p home i s (arming id n) e ∙ ap (λ w. w.1) a)
                (ap (λ (u : Store p). get p u id)
                    (store_at p home i s (arming id n) e ∙ ap (λ w. w.0.1) a)
                  ∙ listed)))

      finish_claim :
          {s : System p} (r : Started s) (id : BucketId)
          → s.tasks i ≡ claiming id
          → CanFinish p home i s
      finish_claim {s} r id e = elim (Option-cases (get p (s.stores (home i)) id)) [
        | inl free ↦ claim_free p home i s id e free
        | inr (n, listed) ↦
            let j = joins (moment p s) s.db (s.stores (home i)) id n listed in
            let same = store_at p home i s (claiming id) e ∙ ap (λ w. w.0.1) j in
            let o = (Reach-Listens p home r).ordered (home i) in
            later p home i (own-Reach p home i s) (
              arm_listed (Reach-trans p home r (own-Reach p home i s)) id n
                (task_at p home i s (claiming id) e ∙ ap (λ w. w.1) j)
                (ap (λ (u : Store p). u.wakes n) same ∙ (o.listed id n listed).1)
                (ap (λ (u : Store p). get p u id) same ∙ listed))
      ]

      finish_check :
          {s : System p} (r : Started s) (id : BucketId)
          → s.tasks i ≡ checking id
          → CanFinish p home i s
      finish_check {s} r id e =
          let (same, go) = check_next p home i (moment p s) s.db (s.stores (home i)) id in
          later p home i (own-Reach p home i s) (elim go [
            | inl busy ↦
                busy_now p home i (own p home i s)
                  (ap is_busy (task_at p home i s (checking id) e) ∙ busy)
            | inr goes ↦
                finish_claim (Reach-trans p home r (own-Reach p home i s)) id
                  (task_at p home i s (checking id) e ∙ goes)
          ])

      finish_arm :
          {s : System p} (r : Started s) (id : BucketId) (n : ℕ)
          → s.tasks i ≡ arming id n
          → (s.stores (home i)).wakes n ≡ 0
          → IsTold p (s.stores (home i)) id n
          → CanFinish p home i s
      finish_arm r id n e z (inl listed) = arm_listed r id n e z listed
      finish_arm r id n e z (inr called) = absurd (omega (arith, z, called))

      finish_wait :
          {s : System p} (r : Started s) (id : BucketId) (n : ℕ)
          → s.tasks i ≡ waiting id n 0
          → IsTold p (s.stores (home i)) id n
          → CanFinish p home i s
      finish_wait {s} r id n e (inl listed) =
          claim_freed p home i s id n (listed_resumes p home i id n r e listed)
      finish_wait {s} r id n e (inr called) =
          let (u, q, c) = go_on p home i id n s e called in
          later p home i q (finish_check (Reach-trans p home r q) id c)

      finish_from :
          {s : System p} (r : Started s) (t : Task)
          → s.tasks i ≡ t
          → Hears p (s.stores (home i)) t
          → IsOnTime (s.stores (home i)) t
          → CanFinish p home i s
      finish_from r (checking id) e h o = finish_check r id e
      finish_from r (claiming id) e h o = finish_claim r id e
      finish_from r (arming id n) e h o = finish_arm r id n e o h
      finish_from r (waiting id n b) e (told, le) o =
          finish_wait r id n (e ∙ ap (waiting id n) o) told
      finish_from {s} r (leasing id) e h o = busy_now p home i s (ap is_busy e)
      finish_from {s} r (settling id n ttl w) e h o = busy_now p home i s (ap is_busy e)
      finish_from {s} r (waking id res) e h o = busy_now p home i s (ap is_busy e)
      finish_from {s} r (spending id) e h o = busy_now p home i s (ap is_busy e)
      finish_from {s} r (dropping id) e h o = busy_now p home i s (ap is_busy e)
      finish_from {s} r (finished res) e h o = busy_now p home i s (ap is_busy e)

      -- In every state that the instances reach from their start, whatever has become of the calls
      -- of Redis, a call of `consume` can finish, unless `notify_waiters` was called on the `Notify`
      -- that it holds before it called `notified()`.
      pub can_finish :
          {s : System p}
          → Reach p home (init p c db clock ids) s
          → IsOnTime (s.stores (home i)) (s.tasks i)
          → (u : System p) × (res : Result Error ℕ) × Reach p home s u × (u.tasks i ≡ finished res)
      can_finish {s} r on_time =
          finish_from r (s.tasks i) refl ((Reach-Listens p home r).hears i) on_time
