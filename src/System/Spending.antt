-- ===== src/System/Spending.antt =====
-- What all calls together spend from a window, against the quota.
use that_limit.Prelude.{ℕ, ◌+◌, ◌≤◌, ◌<◌, ◌≡◌, refl, arith, Bool, true, false}
use that_limit.Prelude.Family.{update-all}
use that_limit.Bucket.{BucketId}
use that_limit.Config.{Config}
use that_limit.Platform.{Platform}
use that_limit.Store.{Store, Moment}
use that_limit.Store.Background.Worker.{
  Worker, selecting, removing, returning, reporting, ended, tick, shut_down, work,
}
use that_limit.System.{System, init, step, tend, Reach, here, next, background}
use that_limit.System.Ledger.{tally, returned, total_spent, total_returned}
use that_limit.System.Ledger.Total.{spent-le-taken}
use that_limit.System.Quota.{IsWithin, policy, IsSound, InTime, find}
use that_limit.System.Quota.Total.{taken-le-quota, regained-le-returned}
use that_limit.System.Ledger.Regained.{total_regained}

-- The task has not had the command to shut down.
abbrev is_quiet : Worker → Bool
is_quiet (returning _) = false
is_quiet reporting = false
is_quiet _ = true

returned-is_quiet :
    (id : BucketId) (w c : ℕ) (v : Worker) → is_quiet v ≡ true → returned id w c v ≡ 0
returned-is_quiet id w c (returning cs) h = cc
returned-is_quiet id w c reporting h = cc
returned-is_quiet id w c selecting h = refl
returned-is_quiet id w c (removing cs) h = refl
returned-is_quiet id w c ended h = refl

module _ (p : Platform) (home : ℕ → ℕ) where
  -- A history in which no background task gets the command to shut down.
  abbrev pub IsServing : {s t : System p} → Reach p home s t → Type 0
  IsServing here = Unit
  IsServing (next r _ _ _) = IsServing r
  IsServing (background r _ tick _ _ _) = IsServing r
  IsServing (background r _ shut_down _ _ _) = ⊥

  work-is_quiet :
      (c : ℕ) (m : Moment p) (db : p.redis.Db) (s : Store p) (v : Worker)
      → is_quiet v ≡ true
      → is_quiet (work p tick c m (db, s) v).1 ≡ true
  unfolding work
  work-is_quiet c m db s v h = ground arith

  module _ (config : Config) (db : p.redis.Db) (clock : ℕ) (ids : ℕ → BucketId) where
    workers_quiet :
        {s : System p} (r : Reach p home (init p config db clock ids) s)
        → IsServing r
        → (h : ℕ) → is_quiet (s.workers h) ≡ true
    unfolding step tend
    workers_quiet here q h = ground arith
    workers_quiet (next r i m le) q h = workers_quiet r q h
    workers_quiet (background {t} r k tick c m le) q h =
        update-all (λ v. is_quiet v ≡ true) t.workers k
          (work p tick c m (t.db, t.stores k) (t.workers k)).1 (workers_quiet r q)
          (work-is_quiet c m t.db (t.stores k) (t.workers k) (workers_quiet r q k)) h
    workers_quiet (background r k shut_down c m le) q h = absurd q

    nothing_returned :
        (id : BucketId) (w : ℕ) {s : System p} (r : Reach p home (init p config db clock ids) s)
        → IsServing r
        → total_returned p home id w r ≡ 0
    unfolding tally
    nothing_returned id w here q = refl
    nothing_returned id w (next r i m le) q = omega (arith, nothing_returned id w r q)
    nothing_returned id w (background {t} r k tick c m le) q = omega (
      arith,
      nothing_returned id w r q,
      returned-is_quiet id w c (t.workers k) (workers_quiet r q k),
    )
    nothing_returned id w (background r k shut_down c m le) q = absurd q

    module _ (sound : IsSound config)
        (start : (id : BucketId) → IsWithin (policy config id).quota (find p db clock id)) (n : ℕ)
        (few : (i : ℕ) → home i < n) where
      -- If every policy leases at most its quota, resets after a second or more, and has exact
      -- numbers, all windows opened so far end at an exact time, the instances are finitely many,
      -- and Redis starts with at most the quota for each id, then in every history, cleanup and
      -- shutdowns included, the calls of `consume` on all instances together spend at most the
      -- quota of an id from each of its windows, and the tokens by which the background tasks' calls
      -- have made its entry grow while it was of that window, whatever becomes of the calls of
      -- Redis.
      pub spent-le-quota :
          {s : System p} (r : Reach p home (init p config db clock ids) s)
          → InTime config s.clock
          → (id : BucketId) (w : ℕ)
          → total_spent p home id w r ≤ (policy config id).quota + total_regained p home id w r
      spent-le-quota r in_time id w = omega (
        arith,
        spent-le-taken p home id w config db clock ids n r few,
        taken-le-quota p config home sound db clock ids start n few r in_time id w,
      )

      -- If every policy leases at most its quota, resets after a second or more, and has exact
      -- numbers, all windows opened so far end at an exact time, the instances are finitely many,
      -- and Redis starts with at most the quota for each id, then in every history in which no
      -- background task gets the command to shut down, cleanup included, the calls of `consume` on
      -- all instances together spend at most the quota of an id from each of its windows, whatever
      -- becomes of the calls of Redis.
      pub serving-spent-le-quota :
          {s : System p} (r : Reach p home (init p config db clock ids) s)
          → IsServing r
          → InTime config s.clock
          → (id : BucketId) (w : ℕ) → total_spent p home id w r ≤ (policy config id).quota
      serving-spent-le-quota r serving in_time id w = omega (
        arith,
        spent-le-quota r in_time id w,
        regained-le-returned p config home sound db clock ids start n few r in_time id w,
        nothing_returned id w r serving,
      )
