-- ===== src/System/Quota/Total.antt =====
-- The total over a whole history.
use that_limit.Prelude.{
  ℕ, ◌+◌, ◌≤◌, ◌<◌, ◌≡◌, refl, ap, sym, ◌∙◌, if_pos, if_neg, ℕ_discrete, arith,
}
use that_limit.Prelude.Family.{update-all}
use that_limit.Bucket.{BucketId}
use that_limit.Config.{Cleanup, Config}
use that_limit.Platform.{Platform}
use that_limit.Store.{Store, Moment, advance}
use that_limit.Store.Background.Worker.{first, Wake, work}
use that_limit.Store.Background.Frame.{work-KeepsRefills}
use that_limit.System.{System, init, step, tend, Reach, here, next, background}
use that_limit.System.Ledger.{tally, gets, returns, total_taken, total_returned}
use that_limit.System.Ledger.Total.{returned-le-taken}
use that_limit.System.Ledger.Regained.{regains, total_regained}
use that_limit.System.Quota.{IsWithin, policy, IsSound, InTime, find}
use that_limit.System.Quota.Bounds.{Bounded-start, Bounded-all}
use that_limit.System.Quota.Charges.{KeepsBounds}
use that_limit.System.Quota.Leases.{advance-config, kept_later, advance_keeps, advance_marks}
use that_limit.System.Quota.Marks.{TaskMarked, StoreMarked, WorkerMarked, advance-StoreMarked}
use that_limit.System.Quota.WorkMarks.{work-StoreMarked, work-WorkerMarked}
use that_limit.System.Quota.Works.{KeptAfter, work_keeps}

first_worker : (c : Cleanup) → WorkerMarked (first c)
first_worker c = ground arith

module _ (p : Platform) (config : Config) (home : ℕ → ℕ) (sound : IsSound config) where
  open p use {redis}

  abbrev IsConfigured : System p → Type 0
  IsConfigured s = (h : ℕ) → (s.stores h).config ≡ config

  step-IsConfigured :
      (s : System p) (i : ℕ) (m : Moment p) → IsConfigured s → IsConfigured (step p home s i m)
  unfolding step
  step-IsConfigured s i m c h = elim (ℕ_discrete (home i) h) [
    | yes e ↦
        ap (λ (v : Store p). v.config) (if_pos (ℕ_discrete (home i) h) e _ _)
        ∙ advance-config p config m s.db (s.stores (home i)) (s.tasks i)
        ∙ c (home i)
    | no e ↦ ap (λ (v : Store p). v.config) (if_neg (ℕ_discrete (home i) h) e _ _) ∙ c h
  ]

  tend-IsConfigured :
      (s : System p) (k : ℕ) (wake : Wake) (c : ℕ) (m : Moment p)
      → IsConfigured s
      → IsConfigured (tend p home s k wake c m)
  unfolding tend
  tend-IsConfigured s k wake c m conf h = elim (ℕ_discrete k h) [
    | yes e ↦
        ap (λ (v : Store p). v.config) (if_pos (ℕ_discrete k h) e _ _)
        ∙ (work-KeepsRefills p wake c m s.db (s.stores k) (s.workers k)).config
        ∙ conf k
    | no e ↦ ap (λ (v : Store p). v.config) (if_neg (ℕ_discrete k h) e _ _) ∙ conf h
  ]

  -- The bounds, and the exactness of all windows that are written down.
  record IsSecure (back counted : BucketId → ℕ → ℕ) (s : System p) : Type 0 where
    pub kept : KeepsBounds p config back counted s.db s.clock
    pub configured : IsConfigured s
    pub tasks : (i : ℕ) → TaskMarked (s.tasks i)
    pub stores : (h : ℕ) → StoreMarked p (s.stores h)
    pub workers : (h : ℕ) → WorkerMarked (s.workers h)

  recount :
      {back back' counted counted' : BucketId → ℕ → ℕ} {s : System p}
      → ((id : BucketId) (w : ℕ) → back id w ≡ back' id w)
      → ((id : BucketId) (w : ℕ) → counted id w ≡ counted' id w)
      → IsSecure back counted s
      → IsSecure back' counted' s
  recount b c v = record {
    kept = λ id w. rw (← b id w, ← c id w) (v.kept id w);
    configured = v.configured;
    tasks = v.tasks;
    stores = v.stores;
    workers = v.workers;
  }

  module _ (back counted : BucketId → ℕ → ℕ) (s : System p) (v : IsSecure back counted s)
      (m : Moment p) (later : s.clock ≤ m.exchange.server_time)
      (ok : InTime config m.exchange.server_time) where
    step-IsSecure :
        (i : ℕ) → IsSecure back (λ id w. counted id w + gets p home id w s i m) (step p home s i m)
    unfolding step
    step-IsSecure i = record {
      kept = λ id w.
          rw
            (if_pos (ℕ_discrete i i) refl (advance p m (s.db, s.stores (home i)) (s.tasks i)).1
              (s.tasks i))
            (advance_keeps p config sound m s.db s.clock back counted v.kept later ok
              (s.stores (home i)) (v.configured (home i)) (s.tasks i) id w);
      configured = step-IsConfigured s i m v.configured;
      tasks =
          update-all TaskMarked s.tasks i (advance p m (s.db, s.stores (home i)) (s.tasks i)).1
            v.tasks
            (advance_marks p config sound m s.db s.clock back counted v.kept later ok
              (s.stores (home i)) (v.configured (home i)) (s.tasks i));
      stores =
          update-all (StoreMarked p) s.stores (home i)
            (advance p m (s.db, s.stores (home i)) (s.tasks i)).0.1 v.stores
            (advance-StoreMarked p m s.db (s.stores (home i)) (s.tasks i) (v.stores (home i))
              (v.tasks i));
      workers = v.workers;
    }

    tended :
        (h : ℕ) (wake : Wake) (c : ℕ)
        → ((id : BucketId) (w : ℕ) → back id w + returns p home id w s h c ≤ counted id w)
        → KeptAfter p config sound m s.db back counted
            (kept_later p config sound m s.db s.clock back counted v.kept later ok
              (s.stores h)
              (v.configured h))
            c
            (s.workers h)
            (work p wake c m (s.db, s.stores h) (s.workers h)).0.0
    tended h wake c no_more =
        work_keeps p config sound m s.db back counted
          (kept_later p config sound m s.db s.clock back counted v.kept later ok (s.stores h)
            (v.configured h))
          c wake (s.stores h) (s.workers h) (v.workers h) no_more

    regains-le :
        (h : ℕ) (wake : Wake) (c : ℕ)
        → ((id : BucketId) (w : ℕ) → back id w + returns p home id w s h c ≤ counted id w)
        → (id : BucketId) (w : ℕ) → regains p home id w s h wake c m ≤ returns p home id w s h c
    unfolding tend
    regains-le h wake c no_more id w = (tended h wake c no_more).1 id w

    tend-IsSecure :
        (h : ℕ) (wake : Wake) (c : ℕ)
        → ((id : BucketId) (w : ℕ) → back id w + returns p home id w s h c ≤ counted id w)
        → IsSecure
            (λ id w. back id w + regains p home id w s h wake c m)
            counted
            (tend p home s h wake c m)
    unfolding tend
    tend-IsSecure h wake c no_more = record {
      kept = (tended h wake c no_more).0;
      configured = tend-IsConfigured s h wake c m v.configured;
      tasks = v.tasks;
      stores =
          update-all (StoreMarked p) s.stores h
            (work p wake c m (s.db, s.stores h) (s.workers h)).0.1 v.stores
            (work-StoreMarked p wake c m s.db (s.stores h) (s.workers h) (v.stores h));
      workers =
          update-all WorkerMarked s.workers h (work p wake c m (s.db, s.stores h) (s.workers h)).1
            v.workers
            (work-WorkerMarked p wake c m s.db (s.stores h) (s.workers h) (v.stores h)
              (v.workers h));
    }

  module _ (db : redis.Db) (clock : ℕ) (ids : ℕ → BucketId)
      (start : (id : BucketId) → IsWithin (policy config id).quota (find p db clock id)) (n : ℕ)
      (few : (i : ℕ) → home i < n) where
    init-IsSecure : IsSecure (λ id w. 0) (λ id w. 0) (init p config db clock ids)
    init-IsSecure = record {
      kept = λ id w. Bounded-start (policy config id).quota w clock (find p db clock id) (start id);
      configured = λ h. refl;
      tasks = λ i. tt;
      stores = λ h id b e. ground (arith, p.buckets.get-empty id, e);
      workers = λ h. first_worker config.cleanup;
    }

    -- What Redis has got back is within what has been sent back.
    Reach-IsSecure :
        {s : System p} (r : Reach p home (init p config db clock ids) s)
        → InTime config s.clock
        → IsSecure (λ id w. total_regained p home id w r) (λ id w. total_taken p home id w r) s
          × ((id : BucketId) (w : ℕ) → total_regained p home id w r ≤ total_returned p home id w r)
    unfolding tally step tend total_regained
    Reach-IsSecure here ok = (init-IsSecure, λ id w. omega arith)
    Reach-IsSecure (next {t} r i m le) ok =
        let (v, back) = Reach-IsSecure r (λ id. omega (arith, ok id)) in
        (
          recount (λ id w. refl) (λ id w. refl) (step-IsSecure _ _ t v m le ok i),
          λ id w. omega (arith, back id w),
        )
    Reach-IsSecure (background {t} r h wake c m le) ok =
        let (v, back) = Reach-IsSecure r (λ id. omega (arith, ok id)) in
        let fits : (id : BucketId) (w : ℕ)
            → total_regained p home id w r + returns p home id w t h c ≤ total_taken p home id w r =
          λ id w. omega (
            arith,
            back id w,
            returned-le-taken p home id w config db clock ids n (background r h wake c m le) few,
          ) in
        (
          recount (λ id w. refl) (λ id w. sym (omega arith))
              (tend-IsSecure _ _ t v m le ok h wake c fits),
          λ id w. omega (arith, back id w, regains-le _ _ t v m le ok h wake c fits id w),
        )

    pub regained-le-returned :
        {s : System p} (r : Reach p home (init p config db clock ids) s)
        → InTime config s.clock
        → (id : BucketId) (w : ℕ) → total_regained p home id w r ≤ total_returned p home id w r
    regained-le-returned r in_time = (Reach-IsSecure r in_time).1

    -- If every policy leases at most its quota, resets after a second or more, and has exact
    -- numbers, all windows opened so far end at an exact time, the instances are finitely many, and
    -- Redis starts with at most the quota for each id, then in every history the calls of all
    -- instances together get at most the quota of an id from each of its windows, and the tokens by
    -- which the background tasks' calls have made its entry grow while it was of that window,
    -- whatever becomes of the calls of Redis.
    pub taken-le-quota :
        {s : System p} (r : Reach p home (init p config db clock ids) s)
        → InTime config s.clock
        → (id : BucketId) (w : ℕ)
        → total_taken p home id w r ≤ (policy config id).quota + total_regained p home id w r
    taken-le-quota r in_time id w =
        Bounded-all (policy config id).quota (total_regained p home id w r) w
          (total_taken p home id w r) _ _ ((Reach-IsSecure r in_time).0.kept id w)
