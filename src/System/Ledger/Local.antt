-- ===== src/System/Ledger/Local.antt =====
-- The books of one instance: what it has spent, has stored and holds is within what it has got, and so
-- is what it returns.
use mathlib.Core.Path.{subst}
use that_limit.Prelude.{
  ℕ, ◌+◌, ◌≤◌, ◌≡◌, ◌≢◌, refl, ap, sym, ◌∙◌, true, some, if◌then◌else◌, if_pos, if_neg, Bool-cases,
  inl, inr, ℕ_discrete, arith,
}
use that_limit.Bucket.{BucketId}
use that_limit.Platform.{Platform}
use that_limit.Store.{Task, Store, Moment, advance}
use that_limit.Store.Background.Worker.{Worker, Wake, work}
use that_limit.System.{System, step, tend}
use that_limit.System.SingleFlight.{leads}
use that_limit.System.Ledger.{held, received, stored, spent, pending, returned, gets, spends}
use that_limit.System.Ledger.Calls.{advance-balance}
use that_limit.System.Ledger.Returns.{
  is_serving, pending-serving, work-pending, work-stored, work-is_serving,
}
use that_limit.System.Ledger.Leads.{held-leads, leads_of_held, received-leads}

module _ (id : BucketId) (w : ℕ) where
  module _ (p : Platform) (home : ℕ → ℕ) (k : ℕ) where
    pub record IsBalanced (recv spen ret : ℕ) (s : System p) : Type 0 where
      pub owns : spen + stored p id w (s.stores k) ≤ recv
      pub owns_held :
          (i : ℕ) → home i ≡ k → spen + stored p id w (s.stores k) + held id w (s.tasks i) ≤ recv
      pub gives : ret + pending id w (s.workers k) ≤ recv
      pub gives_once : is_serving (s.workers k) ≡ true → ret ≡ 0

    module _ (recv spen ret : ℕ) (s : System p) (v : IsBalanced recv spen ret s) where
      module _ (i : ℕ) (m : Moment p)
          (alone : (j : ℕ)
            → home i ≡ home j
            → leads (s.tasks i) ≡ some id
            → leads (s.tasks j) ≡ some id
            → i ≡ j) where
        abbrev outcome : (p.redis.Db × Store p) × Task
        outcome = advance p m (s.db, s.stores (home i)) (s.tasks i)

        balance :
            home i ≡ k
            → spends p home id w s i m + stored p id w outcome.0.1 + held id w outcome.1
              ≤ stored p id w (s.stores k)
                + held id w (s.tasks i)
                + received id w (s.tasks i) outcome.1
        balance e =
            subst
              (λ h.
                spent p id w m (s.stores (home i)) (s.tasks i)
                  + stored p id w outcome.0.1
                  + held id w outcome.1
                ≤ stored p id w (s.stores h)
                  + held id w (s.tasks i)
                  + received id w (s.tasks i) outcome.1)
              e (advance-balance p id w m s.db (s.stores (home i)) (s.tasks i))

        store_here : home i ≡ k → (step p home s i m).stores k ≡ outcome.0.1
        unfolding step
        store_here e = if_pos (ℕ_discrete (home i) k) e _ _

        store_elsewhere : home i ≢ k → (step p home s i m).stores k ≡ s.stores k
        unfolding step
        store_elsewhere ne = if_neg (ℕ_discrete (home i) k) ne _ _

        task_here : (step p home s i m).tasks i ≡ outcome.1
        unfolding step
        task_here = if_pos (ℕ_discrete i i) refl _ _

        task_elsewhere : (j : ℕ) → i ≢ j → (step p home s i m).tasks j ≡ s.tasks j
        unfolding step
        task_elsewhere j ne = if_neg (ℕ_discrete i j) ne _ _

        same_worker : (step p home s i m).workers k ≡ s.workers k
        unfolding step
        same_worker = refl

        abbrev IsWithin : ℕ → Type 0
        IsWithin held_by =
            spen + spends p home id w s i m + stored p id w outcome.0.1 + held_by
            ≤ recv + received id w (s.tasks i) outcome.1

        -- Another task of the instance: if it leads for the id, then this one does not.
        beside : (e : home i ≡ k) (j : ℕ) → home j ≡ k → i ≢ j → IsWithin (held id w (s.tasks j))
        beside e j e' ne = elim (ℕ_discrete (held id w (s.tasks j)) 0) [
          | yes none_held ↦ omega (arith, balance e, v.owns_held i e)
          | no some_held ↦
              let not_me : leads (s.tasks i) ≢ some id =
                λ h. ne (alone j (e ∙ sym e') h (leads_of_held id w (s.tasks j) some_held)) in
              omega (
                arith,
                balance e,
                v.owns_held j e',
                held-leads id w (s.tasks i) not_me,
                received-leads id w p m s.db (s.stores (home i)) (s.tasks i) not_me,
              )
        ]

        pub step-IsBalanced_here :
            home i ≡ k
            → IsBalanced
                (recv + gets p home id w s i m)
                (spen + spends p home id w s i m)
                ret
                (step p home s i m)
        step-IsBalanced_here e = rw (task_here) (record {
          owns = rw (store_here e) (omega (arith, balance e, v.owns_held i e));
          owns_held = λ j e'. elim (ℕ_discrete i j) [
            | yes same ↦
                rw (store_here e, ← same, task_here) (omega (arith, balance e, v.owns_held i e))
            | no ne ↦ rw (store_here e, task_elsewhere j ne) (beside e j e' ne)
          ];
          gives = rw same_worker (omega (arith, v.gives));
          gives_once = rw same_worker v.gives_once;
        })

        pub step-IsBalanced_elsewhere : home i ≢ k → IsBalanced recv spen ret (step p home s i m)
        step-IsBalanced_elsewhere ne =
            let store_same : (step p home s i m).stores k ≡ s.stores k = store_elsewhere ne in
            record {
              owns = rw store_same v.owns;
              owns_held = λ j e'.
                  let other : i ≢ j = λ h. ne (ap home h ∙ e') in
                  rw (store_same, task_elsewhere j other) (v.owns_held j e');
              gives = rw same_worker v.gives;
              gives_once = rw same_worker v.gives_once;
            }

      module _ (wake : Wake) (c : ℕ) (m : Moment p) where
        abbrev tended : System p
        tended = tend p home s k wake c m

        abbrev effect : (p.redis.Db × Store p) × Worker
        effect = work p wake c m (s.db, s.stores k) (s.workers k)

        gives_more :
            returned id w c (s.workers k) + pending id w effect.1
              ≤ pending id w (s.workers k)
                + (if is_serving (s.workers k) then stored p id w (s.stores k) else 0)
            → ret + returned id w c (s.workers k) + pending id w effect.1 ≤ recv
        gives_more le = elim (Bool-cases (is_serving (s.workers k))) [
          | inl serving ↦ omega (
            arith,
            subst
                (λ b.
                  returned id w c (s.workers k) + pending id w effect.1
                  ≤ pending id w (s.workers k) + (if b then stored p id w (s.stores k) else 0))
                serving le,
            v.owns,
            v.gives_once serving,
            pending-serving id w (s.workers k) serving,
          )
          | inr past ↦ omega (
            arith,
            subst
                (λ b.
                  returned id w c (s.workers k) + pending id w effect.1
                  ≤ pending id w (s.workers k) + (if b then stored p id w (s.stores k) else 0))
                past le,
            v.gives,
          )
        ]

        pub tend-IsBalanced_here : IsBalanced recv spen (ret + returned id w c (s.workers k)) tended
        unfolding tend
        tend-IsBalanced_here =
            let fewer = work-stored id w p wake c m s.db (s.stores k) (s.workers k) in
            let store_same : tended.stores k ≡ effect.0.1 = if_pos (ℕ_discrete k k) refl _ _ in
            let worker_same : tended.workers k ≡ effect.1 = if_pos (ℕ_discrete k k) refl _ _ in
            record {
              owns = rw store_same (omega (arith, v.owns, fewer));
              owns_held = λ j e. rw store_same (omega (arith, v.owns_held j e, fewer));
              gives =
                  rw worker_same
                    (gives_more (work-pending id w p wake c m s.db (s.stores k) (s.workers k)));
              gives_once = rw worker_same (λ h.
                  let (serving, nothing) =
                    work-is_serving id w p wake c m s.db (s.stores k) (s.workers k) h in
                  omega (arith, nothing, v.gives_once serving));
            }

        pub tend-IsBalanced_elsewhere :
            (h : ℕ) → h ≢ k → IsBalanced recv spen ret (tend p home s h wake c m)
        unfolding tend
        tend-IsBalanced_elsewhere h ne =
            let store_same : (tend p home s h wake c m).stores k ≡ s.stores k =
              if_neg (ℕ_discrete h k) ne _ _ in
            let worker_same : (tend p home s h wake c m).workers k ≡ s.workers k =
              if_neg (ℕ_discrete h k) ne _ _ in
            record {
              owns = rw store_same v.owns;
              owns_held = λ j e. rw store_same (v.owns_held j e);
              gives = rw worker_same v.gives;
              gives_once = rw worker_same v.gives_once;
            }
