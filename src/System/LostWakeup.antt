-- ===== src/System/LostWakeup.antt =====
-- A wake-up that comes between a task's look into `refills` and its call of `notified()` is lost.
use that_limit.Prelude.{
  ℕ, ◌≤◌, ◌<◌, ◌≡◌, ◌≢◌, ap, sym, ◌∙◌, some, Result, if_pos, if_neg, ℕ_discrete, arith,
}
use mathlib.Core.Path.{subst, ap₂}
use that_limit.Bucket.{BucketId}
use that_limit.Bucket.Ids.{id_eq_iff}
use that_limit.Platform.{Platform}
use that_limit.Store.{Error, waking, arming, waiting, Store, Moment, advance}
use that_limit.System.{System, step, Reach, here, next}
use that_limit.System.Gone.{get, IsGone, arm, Reach-IsLost}

module _ (p : Platform) where
  open p use {redis, refills as refill_map}

  module _ (home : ℕ → ℕ) (j : ℕ) (id : BucketId) (n : ℕ) where
    -- The race: task `i` is about to take the `Notify` out of the map and to wake who waits on it,
    -- while task `j` has fetched it and has not called `notified()` yet.
    pub record IsRace (i : ℕ) (s : System p) : Type 0 where
      pub result : Result Error (Unit {0})
      pub same_home : home i ≡ home j
      pub leader : s.tasks i ≡ waking id result
      pub follower : s.tasks j ≡ arming id n
      pub listed : get p (s.stores (home j)) id ≡ some n
      pub once : (k : BucketId) → get p (s.stores (home j)) k ≡ some n → k ≡ id
      pub named : n < (s.stores (home j)).next

    race_apart : {res : Result Error (Unit {0})} → waking id res ≢ arming id n
    race_apart h = cc

    clock_after :
        (s : System p) (i : ℕ) (m m' : Moment p)
        → m.exchange.server_time ≤ m'.exchange.server_time
        → (step p home s i m).clock ≤ m'.exchange.server_time
    unfolding step
    clock_after s i m m' le = le

    woken :
        (m : Moment p) (db : redis.Db) (s : Store p) (res : Result Error (Unit {0}))
        → get p s id ≡ some n
        → ((k : BucketId) → get p s k ≡ some n → k ≡ id)
        → n < s.next
        → IsGone p n (advance p m (db, s) (waking id res)).0.1
    unfolding advance
    woken m db s res listed once named = record {
      unlisted = λ k h.
          ground (arith, listed, once k, refill_map.get-remove s.refills id k, id_eq_iff id k);
      named = ground (arith, listed);
    }

    race-IsGone :
        (i : ℕ) (s : System p) (m : Moment p)
        → IsRace i s
        → IsGone p n ((step p home s i m).stores (home j))
          × ((step p home s i m).tasks j ≡ arming id n)
    unfolding step
    race-IsGone i s m race =
        let gone = woken m s.db (s.stores (home j)) race.result race.listed race.once race.named in
        let other : i ≢ j = λ e. race_apart (sym race.leader ∙ ap s.tasks e ∙ race.follower) in
        (
          subst (IsGone p n)
              (sym (
                if_pos (ℕ_discrete (home i) (home j)) race.same_home _ _
                ∙ ap₂ (λ h t. (advance p m (s.db, s.stores h) t).0.1) race.same_home race.leader))
              gone,
          if_neg (ℕ_discrete i j) other _ _ ∙ race.follower,
        )

    -- If call `i` is about to remove the `Notify` of an id, which is that of no other id, and call
    -- `j` of its instance holds that `Notify` but has not yet called `notified()`, a step of `i`
    -- and then one of `j` leave `j` waiting in every state reached from there.
    pub wakeup_lost :
        (i : ℕ) (s : System p) (m m' : Moment p)
        → IsRace i s
        → s.clock ≤ m.exchange.server_time
        → m.exchange.server_time ≤ m'.exchange.server_time
        → let t = step p home (step p home s i m) j m' in
          Reach p home s t
          × ((u : System p)
              → Reach p home t u
              → u.tasks j ≡ waiting id n ((u.stores (home j)).wakes n))
    wakeup_lost i s m m' race le le' = (
      next (next here i m le) j m' (clock_after s i m m' le'),
      λ u r.
          (Reach-IsLost p home j id n _ u
            (arm p home j id n _ m' (race-IsGone i s m race).0 (race-IsGone i s m race).1)
            r).asleep,
    )
