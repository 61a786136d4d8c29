-- ===== src/System/Gone.antt =====
-- What becomes of a `Notify` that has left the map, and of who waits on it.
use that_limit.Prelude.{
  ℕ, ◌<◌, ◌≡◌, ◌≢◌, refl, ap, sym, ◌∙◌, Option, some, if_pos, if_neg, ℕ_discrete, arith,
}
use mathlib.Core.Path.{subst}
use that_limit.Prelude.Family.{update}
use that_limit.Bucket.{BucketId}
use that_limit.Platform.{Platform}
use that_limit.Store.{
  Task, claiming, settling, waking, arming, waiting, spending, dropping, Store, Moment, advance,
}
use that_limit.Store.Background.Worker.{Wake}
use that_limit.Store.Background.Frame.{work-KeepsRefills}
use that_limit.System.{System, step, tend, Reach, here, next, background}

module _ (p : Platform) where
  open p use {redis, refills as refill_map}

  abbrev pub get : Store p → BucketId → Option ℕ
  get s id = refill_map.get s.refills id

  -- Nobody will call `notify_waiters` on the `Notify` named `n` again: it has left the map.
  pub record IsGone (n : ℕ) (s : Store p) : Type 0 where
    pub unlisted : (id : BucketId) → get s id ≢ some n
    pub named : n < s.next

  advance-IsGone :
      (n : ℕ) (m : Moment p) (db : redis.Db) (s : Store p) (t : Task)
      → IsGone n s
      → let s' = (advance p m (db, s) t).0.1 in IsGone n s' × (s'.wakes n ≡ s.wakes n)
  unfolding advance
  advance-IsGone n m db s (claiming id) g = (
    record {
      unlisted = λ j h. ground (arith, g.unlisted j, refill_map.get-insert s.refills id j s.next);
      named = ground arith;
    },
    ground arith,
  )
  advance-IsGone n m db s (settling id l ttl w) g = (
    record { unlisted = λ j h. ground (arith, g.unlisted j); named = ground arith },
    ground arith,
  )
  advance-IsGone n m db s (waking id res) g = (
    record {
      unlisted = λ j h. ground (arith, g.unlisted j, refill_map.get-remove s.refills id j);
      named = ground arith;
    },
    ground (arith, g.unlisted id),
  )
  advance-IsGone n m db s (spending id) g = (
    record { unlisted = λ j h. ground (arith, g.unlisted j); named = ground arith },
    ground arith,
  )
  advance-IsGone n m db s (dropping id) g =
      (record { unlisted = g.unlisted; named = g.named }, refl)
  advance-IsGone n m db s _ g = (g, refl)

  module _ (home : ℕ → ℕ) (j : ℕ) (id : BucketId) (n : ℕ) where
    -- The task `j` waits for a call of `notify_waiters` that nobody will make.
    pub record IsLost (s : System p) : Type 0 where
      pub gone : IsGone n (s.stores (home j))
      pub asleep : s.tasks j ≡ waiting id n ((s.stores (home j)).wakes n)

    asleep-advance :
        (m : Moment p) (db : redis.Db) (s : Store p) (t : Task)
        → t ≡ waiting id n (s.wakes n)
        → advance p m (db, s) t ≡ ((db, s), t)
    unfolding advance
    asleep-advance m db s t e = rw e (ground arith)

    -- A step of any call leaves it gone, and calls it no more.
    pub step-IsGone :
        (s : System p) (i : ℕ) (m : Moment p)
        → IsGone n (s.stores (home j))
        → let s' = (step p home s i m).stores (home j) in
          IsGone n s' × (s'.wakes n ≡ (s.stores (home j)).wakes n)
    unfolding step
    step-IsGone s i m gone = elim (ℕ_discrete (home i) (home j)) [
      | yes e ↦
          let g : IsGone n (s.stores (home i)) = subst (λ h. IsGone n (s.stores h)) (sym e) gone in
          let (g', w) = advance-IsGone n m s.db (s.stores (home i)) (s.tasks i) g in
          rw (if_pos (ℕ_discrete (home i) (home j)) e) (g', w ∙ ap (λ h. (s.stores h).wakes n) e)
      | no ne ↦ rw (if_neg (ℕ_discrete (home i) (home j)) ne) (gone, refl)
    ]

    module _ (s : System p) (i : ℕ) (m : Moment p) (v : IsLost s) where
      open v use {gone, asleep}

      abbrev after : (redis.Db × Store p) × Task
      after = advance p m (s.db, s.stores (home i)) (s.tasks i)

      still_asleep : update s.tasks i after.1 j ≡ waiting id n ((s.stores (home j)).wakes n)
      still_asleep = elim (ℕ_discrete i j) [
        | yes e ↦
            let a : s.tasks i ≡ waiting id n ((s.stores (home i)).wakes n) =
              subst (λ h. s.tasks h ≡ waiting id n ((s.stores (home h)).wakes n)) (sym e) asleep in
            if_pos (ℕ_discrete i j) e _ _
            ∙ ap (λ w. w.1) (asleep-advance m s.db _ _ a)
            ∙ ap s.tasks e
            ∙ asleep
        | no ne ↦ if_neg (ℕ_discrete i j) ne _ _ ∙ asleep
      ]

      pub step-IsLost : IsLost (step p home s i m)
      unfolding step
      step-IsLost =
          let (gone', same) = step-IsGone s i m gone in
          record { gone = gone'; asleep = still_asleep ∙ ap (waiting id n) (sym same) }

    -- The background tasks leave it gone.
    pub tend-IsGone :
        (s : System p) (h : ℕ) (wake : Wake) (c : ℕ) (m : Moment p)
        → IsGone n (s.stores (home j))
        → IsGone n ((tend p home s h wake c m).stores (home j))
    unfolding tend
    tend-IsGone s h wake c m gone =
        let f = work-KeepsRefills p wake c m s.db (s.stores h) (s.workers h) in
        record {
          unlisted = λ k e. ground (arith, gone.unlisted k, ap (λ r. refill_map.get r k) f.refills);
          named = ground (arith, gone.named, f.next);
        }

    pub tend-IsLost :
        (s : System p) (h : ℕ) (wake : Wake) (c : ℕ) (m : Moment p)
        → IsLost s
        → IsLost (tend p home s h wake c m)
    unfolding tend
    tend-IsLost s h wake c m v =
        let f = work-KeepsRefills p wake c m s.db (s.stores h) (s.workers h) in
        record {
          gone = tend-IsGone s h wake c m v.gone;
          asleep = ground (arith, v.asleep, f.wakes);
        }

    -- Once lost, it waits for ever, whatever the other tasks do.
    pub Reach-IsLost : (s t : System p) → IsLost s → Reach p home s t → IsLost t
    Reach-IsLost s _ v here = v
    Reach-IsLost s _ v (next {t = u} r i m le) = step-IsLost u i m (Reach-IsLost s u v r)
    Reach-IsLost s _ v (background {t = u} r h wake c m le) =
        tend-IsLost u h wake c m (Reach-IsLost s u v r)

    pub arm :
        (s : System p) (m : Moment p)
        → IsGone n (s.stores (home j))
        → s.tasks j ≡ arming id n
        → IsLost (step p home s j m)
    unfolding step advance
    arm s m gone e =
        let same : (step p home s j m).stores (home j) ≡ s.stores (home j) =
          if_pos (ℕ_discrete (home j) (home j)) refl _ _
          ∙ ap (λ t. (advance p m (s.db, s.stores (home j)) t).0.1) e in
        record {
          gone = subst (IsGone n) (sym same) gone;
          asleep =
              if_pos (ℕ_discrete j j) refl _ _
              ∙ ap (λ t. (advance p m (s.db, s.stores (home j)) t).1) e
              ∙ ap (λ (c : Store p). waiting id n (c.wakes n)) (sym same);
        }
