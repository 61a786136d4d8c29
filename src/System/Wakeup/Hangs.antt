-- ===== src/System/Wakeup/Hangs.antt =====
-- Calls that have missed their wake-up, and calls that have not.
use that_limit.Prelude.{
  ℕ, zero, suc, ◌<◌, ◌≡◌, ◌≢◌, refl, ap, sym, ◌∙◌, ◌⊎◌, ◌↔◌, inl, inr, Result, if_neg, dec_lt,
  ℕ_discrete, arith,
}
use mathlib.Core.Path.{subst}
use that_limit.Bucket.{BucketId}
use that_limit.Config.{Config}
use that_limit.Platform.{Platform}
use that_limit.Store.{
  Error, Task, checking, claiming, leasing, settling, waking, arming, waiting, spending, dropping,
  finished, Store, Moment,
}
use that_limit.Store.Background.Worker.{Wake}
use that_limit.System.{System, init, step, tend, Reach, here, next, background}
use that_limit.System.Gone.{IsGone, IsLost, arm, step-IsGone, step-IsLost, tend-IsGone, tend-IsLost}
use that_limit.System.Wakeup.{IsOrdered}
use that_limit.System.Wakeup.Waits.{Hears, Listens, Reach-Listens}
use that_limit.System.Wakeup.Finishes.{IsOnTime, can_finish}

module _ (p : Platform) where
  was_named : (s : Store p) (n : ℕ) → IsOrdered p s → 0 < s.wakes n → n < s.next
  was_named s n o h = elim (dec_lt n s.next) [
    | yes lt ↦ lt
    | no ge ↦ absurd (omega (arith, o.unnamed n (omega arith)))
  ]

  called-IsGone : (s : Store p) (n : ℕ) → IsOrdered p s → 0 < s.wakes n → IsGone p n s
  called-IsGone s n o h = record {
    unlisted = λ k listed. omega (arith, h, (o.listed k n listed).1);
    named = was_named s n o h;
  }

  module _ (home : ℕ → ℕ) (i : ℕ) where
    module _ (id : BucketId) (n : ℕ) where
      -- The `Notify` that the call `i` is about to wait on, or waits on, has been called for the
      -- last time.
      abbrev IsLate : System p → Type 0
      IsLate s =
          (IsGone p n (s.stores (home i)) × (s.tasks i ≡ arming id n)) ⊎ IsLost p home i id n s

      step-IsLate : (s : System p) (k : ℕ) (m : Moment p) → IsLate s → IsLate (step p home s k m)
      unfolding step
      step-IsLate s k m (inr lost) = inr (step-IsLost p home i id n s k m lost)
      step-IsLate s k m (inl (gone, e)) = elim (ℕ_discrete k i) [
        | yes same ↦ inr (
            subst (λ a. IsLost p home i id n (step p home s a m)) (sym same)
              (arm p home i id n s m gone e))
        | no other ↦
            inl ((step-IsGone p home i id n s k m gone).0, if_neg (ℕ_discrete k i) other _ _ ∙ e)
      ]

      tend-IsLate :
          (s : System p) (h : ℕ) (wake : Wake) (c : ℕ) (m : Moment p)
          → IsLate s
          → IsLate (tend p home s h wake c m)
      unfolding tend
      tend-IsLate s h wake c m (inr lost) = inr (tend-IsLost p home i id n s h wake c m lost)
      tend-IsLate s h wake c m (inl (gone, e)) =
          inl (tend-IsGone p home i id n s h wake c m gone, e)

      Reach-IsLate : (s : System p) {t : System p} → IsLate s → Reach p home s t → IsLate t
      Reach-IsLate s v here = v
      Reach-IsLate s v (next r k m le) = step-IsLate _ k m (Reach-IsLate s v r)
      Reach-IsLate s v (background r h wake c m le) = tend-IsLate _ h wake c m (Reach-IsLate s v r)

      not_finished : (t : System p) (res : Result Error ℕ) → IsLate t → t.tasks i ≢ finished res
      not_finished t res (inl (gone, e)) f = cc
      not_finished t res (inr lost) f = ground (arith, lost.asleep, f)

    abbrev CanFinish : System p → Type 0
    CanFinish s =
        (u : System p) × (res : Result Error ℕ) × Reach p home s u × (u.tasks i ≡ finished res)

    module _ (c : Config) (db : p.redis.Db) (clock : ℕ) (ids : ℕ → BucketId) where
      on_time :
          {s : System p} (v : Listens p home s) (t : Task)
          → s.tasks i ≡ t
          → Hears p (s.stores (home i)) t
          → CanFinish s
          → IsOnTime p (s.stores (home i)) t
      on_time {s} v (arming id n) e h (u, res, r, f) =
          elim (dec_lt 0 ((s.stores (home i)).wakes n)) [
            | no zero_calls ↦ omega (arith, zero_calls)
            | yes called ↦ absurd (
                not_finished id n u res
                  (Reach-IsLate id n s
                    (inl (called-IsGone (s.stores (home i)) n (v.ordered (home i)) called, e)) r)
                  f)
          ]
      on_time {s} v (waiting id n zero) e h can = refl
      on_time {s} v (waiting id n (suc b)) e (told, le) (u, res, r, f) =
          let o = v.ordered (home i) in
          absurd (
            not_finished id n u res
              (Reach-IsLate id n s
                (inr (record {
                  gone = called-IsGone (s.stores (home i)) n o (omega (arith, le));
                  asleep = e ∙ ap (waiting id n) (omega (arith, le, o.once n));
                }))
                r)
              f)
      on_time v (checking _) e h can = tt
      on_time v (claiming _) e h can = tt
      on_time v (leasing _) e h can = tt
      on_time v (settling _ _ _ _) e h can = tt
      on_time v (waking _ _) e h can = tt
      on_time v (spending _) e h can = tt
      on_time v (dropping _) e h can = tt
      on_time v (finished _) e h can = tt

      -- In every state that the instances reach from their start, whatever has become of the calls
      -- of Redis, a call of `consume` can still finish exactly if it has not missed its wake-up:
      -- unless it is about to call `notified()`, or has called it, on a `Notify` whose
      -- `notify_waiters` came before.
      pub can_finish_iff :
          {s : System p}
          → Reach p home (init p c db clock ids) s
          → IsOnTime p (s.stores (home i)) (s.tasks i) ↔ (
              (u : System p) × (res : Result Error ℕ) × Reach p home s u
              × (u.tasks i ≡ finished res))
      can_finish_iff {s} r =
          let v = Reach-Listens p home r in
          (can_finish p home i c db clock ids r, on_time v (s.tasks i) refl (v.hears i))
