-- ===== src/System/Wakeup/Busy.antt =====
-- Calls that wait for nobody, and calls that find no leader for their id.
use that_limit.Prelude.{
  ℕ, zero, suc, ◌-◌, ◌≤◌, ◌≡◌, refl, ap, ◌∙◌, ◌⊎◌, inl, inr, Bool, true, false, none, Bool-cases,
  Result, if_pos, ℕ_discrete, arith,
}
use that_limit.Bucket.{BucketId}
use that_limit.Platform.{Platform}
use that_limit.Store.{
  Error, Task, checking, claiming, leasing, settling, waking, arming, waiting, spending, dropping,
  finished, Store, Moment, advance,
}
use that_limit.Store.Alone.{remaining}
use that_limit.System.{System, step, Reach, here, next}
use that_limit.System.Wakeup.{get}
use that_limit.System.Wakeup.Resumes.{moment, Reach-trans, CanClaim}

-- The task waits for nobody until it ends.
abbrev pub is_busy : Task → Bool
is_busy (checking _) = false
is_busy (claiming _) = false
is_busy (arming _ _) = false
is_busy (waiting _ _ _) = false
is_busy _ = true

busy_ends :
    (t : Task) → is_busy t ≡ true → remaining t ≡ 0 → (res : Result Error ℕ) × (t ≡ finished res)
busy_ends (finished res) b z = (res, refl)
busy_ends (checking _) b z = cc
busy_ends (claiming _) b z = cc
busy_ends (arming _ _) b z = cc
busy_ends (waiting _ _ _) b z = cc
busy_ends (leasing _) b z = absurd (omega (arith, z))
busy_ends (settling _ _ _ _) b z = absurd (omega (arith, z))
busy_ends (waking _ _) b z = absurd (omega (arith, z))
busy_ends (spending _) b z = absurd (omega (arith, z))
busy_ends (dropping _) b z = absurd (omega (arith, z))

module _ (p : Platform) where
  open p use {redis}

  advance-is_busy :
      (m : Moment p) (db : redis.Db) (s : Store p) (t : Task)
      → is_busy t ≡ true
      → let w = advance p m (db, s) t in (is_busy w.1 ≡ true) × (remaining w.1 ≤ remaining t - 1)
  unfolding advance
  advance-is_busy m db s (leasing id) b = (ground arith, ground arith)
  advance-is_busy m db s (settling id n ttl w) b = (ground arith, ground arith)
  advance-is_busy m db s (waking id res) b = (ground arith, ground arith)
  advance-is_busy m db s (spending id) b = (ground arith, ground arith)
  advance-is_busy m db s (dropping id) b = (refl, omega arith)
  advance-is_busy m db s (finished res) b = (refl, omega arith)
  advance-is_busy m db s (checking _) b = cc
  advance-is_busy m db s (claiming _) b = cc
  advance-is_busy m db s (arming _ _) b = cc
  advance-is_busy m db s (waiting _ _ _) b = cc

  module _ (home : ℕ → ℕ) (i : ℕ) where
    abbrev pub CanFinish : System p → Type 0
    CanFinish s =
        (u : System p) × (res : Result Error ℕ) × Reach p home s u × (u.tasks i ≡ finished res)

    abbrev pub mine : System p → (redis.Db × Store p) × Task
    mine s = advance p (moment p s) (s.db, s.stores (home i)) (s.tasks i)

    abbrev pub own : System p → System p
    own s = step p home s i (moment p s)

    own_task : (s : System p) → (own s).tasks i ≡ (mine s).1
    unfolding step
    own_task s = if_pos (ℕ_discrete i i) refl _ _

    own_store : (s : System p) → (own s).stores (home i) ≡ (mine s).0.1
    unfolding step
    own_store s = if_pos (ℕ_discrete (home i) (home i)) refl _ _

    pub own-Reach : (s : System p) → Reach p home s (own s)
    own-Reach s = next here i (moment p s) (omega arith)

    pub later : {s t : System p} → Reach p home s t → CanFinish t → CanFinish s
    later r (u, res, q, e) = (u, res, Reach-trans p home r q, e)

    finish_busy :
        (k : ℕ) (s : System p)
        → is_busy (s.tasks i) ≡ true
        → remaining (s.tasks i) ≤ k
        → CanFinish s
    finish_busy zero s b le =
        let (res, e) = busy_ends (s.tasks i) b (omega (arith, le)) in (s, res, here, e)
    finish_busy (suc k) s b le =
        let (b', less) = advance-is_busy (moment p s) s.db (s.stores (home i)) (s.tasks i) b in
        later (own-Reach s) (
          finish_busy k (own s) (ap is_busy (own_task s) ∙ b')
            (omega (arith, ap remaining (own_task s), less, le)))

    pub busy_now : (s : System p) → is_busy (s.tasks i) ≡ true → CanFinish s
    busy_now s b = finish_busy (remaining (s.tasks i)) s b (omega arith)

    -- What a task that checks its bucket goes on with.
    pub check_next :
        (m : Moment p) (db : redis.Db) (s : Store p) (id : BucketId)
        → let w = advance p m (db, s) (checking id) in
          (w.0.1 ≡ s) × ((is_busy w.1 ≡ true) ⊎ (w.1 ≡ claiming id))
    unfolding advance
    check_next m db s id = (
      refl,
      elim (Bool-cases (is_busy (advance p m (db, s) (checking id)).1)) [
        | inl e ↦ inl e
        | inr e ↦ inr (ground arith)
      ],
    )

    -- The own step of a call that stands at `t`.
    pub task_at :
        (s : System p) (t : Task)
        → s.tasks i ≡ t
        → (own s).tasks i ≡ (advance p (moment p s) (s.db, s.stores (home i)) t).1
    task_at s t e = own_task s ∙ ap (λ u. (advance p (moment p s) (s.db, s.stores (home i)) u).1) e

    pub store_at :
        (s : System p) (t : Task)
        → s.tasks i ≡ t
        → (own s).stores (home i) ≡ (advance p (moment p s) (s.db, s.stores (home i)) t).0.1
    store_at s t e =
        own_store s ∙ ap (λ u. (advance p (moment p s) (s.db, s.stores (home i)) u).0.1) e

    -- Nobody leads for the id: the call leads itself.
    claims :
        (m : Moment p) (db : redis.Db) (s : Store p) (id : BucketId)
        → get p s id ≡ none
        → (advance p m (db, s) (claiming id)).1 ≡ leasing id
    unfolding advance
    claims m db s id free = ground (arith, free)

    pub claim_free :
        (s : System p) (id : BucketId)
        → s.tasks i ≡ claiming id
        → get p (s.stores (home i)) id ≡ none
        → CanFinish s
    claim_free s id e free =
        let leads =
          task_at s (claiming id) e ∙ claims (moment p s) s.db (s.stores (home i)) id free in
        later (own-Reach s) (busy_now (own s) (ap is_busy leads))

    pub check_free :
        (s : System p) (id : BucketId)
        → s.tasks i ≡ checking id
        → get p (s.stores (home i)) id ≡ none
        → CanFinish s
    check_free s id e free =
        let (same, go) = check_next (moment p s) s.db (s.stores (home i)) id in
        later (own-Reach s) (elim go [
          | inl busy ↦ busy_now (own s) (ap is_busy (task_at s (checking id) e) ∙ busy)
          | inr goes ↦
              claim_free (own s) id (task_at s (checking id) e ∙ goes)
                (ap (λ (u : Store p). get p u id) (store_at s (checking id) e ∙ same) ∙ free)
        ])

    pub claim_freed :
        (s : System p) (id : BucketId) (n : ℕ) → CanClaim p home i id n s → CanFinish s
    claim_freed s id n (u, q, e, free) = later q (check_free u id e free)
