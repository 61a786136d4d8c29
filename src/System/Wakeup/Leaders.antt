-- ===== src/System/Wakeup/Leaders.antt =====
-- Who is on the way to take a `Notify` out of the map.
use that_limit.Prelude.{ℕ, ◌≡◌, ◌≢◌, ap, some, Bool-cases, inl, inr, ℕ_discrete, arith}
use that_limit.Prelude.Family.{update}
use that_limit.Bucket.{BucketId}
use that_limit.Bucket.Ids.{id_eq, id_eq_iff}
use that_limit.Config.{Config}
use that_limit.Platform.{Platform}
use that_limit.Store.{Task, Store, Moment}
use that_limit.Store.Background.Worker.{Wake}
use that_limit.Store.Background.Frame.{work-KeepsRefills}
use that_limit.System.{System, init, step, tend, Reach, here, next, background}
use that_limit.System.SingleFlight.{leads, get, Turn, keep, claim, leave, advance-Turn}

module _ (p : Platform) (home : ℕ → ℕ) where
  -- A call of the instance `h` that leases for an id.
  pub record Leader (tasks : ℕ → Task) (h : ℕ) (id : BucketId) : Type 0 where
    pub call : ℕ
    pub local : home call ≡ h
    pub leading : leads (tasks call) ≡ some id

  abbrev pub Led : (ℕ → Store p) → (ℕ → Task) → Type 0
  Led stores tasks =
      (h : ℕ) (id : BucketId) (n : ℕ) → get p (stores h) id ≡ some n → Leader tasks h id

  -- A leader that another call's step leaves alone.
  other_lead :
      {tasks : ℕ → Task} {h : ℕ} {id : BucketId} (i : ℕ) (t' : Task) (l : Leader tasks h id)
      → i ≢ l.call
      → Leader (update tasks i t') h id
  other_lead i t' l ne = record {
    call = l.call;
    local = l.local;
    leading = ground (arith, l.leading);
  }

  same_lead :
      {tasks : ℕ → Task} {h : ℕ} {id : BucketId} (i : ℕ) (t' : Task)
      → leads t' ≡ leads (tasks i)
      → Leader tasks h id
      → Leader (update tasks i t') h id
  same_lead {tasks} i t' e l = record {
    call = l.call;
    local = l.local;
    leading = ground (arith, l.leading);
  }

  Turn-Led :
      {s' : Store p} {t' : Task} (stores : ℕ → Store p) {tasks : ℕ → Task} (i : ℕ)
      → Turn p (stores (home i)) s' (tasks i) t'
      → Led stores tasks
      → Led (update stores (home i) s') (update tasks i t')
  Turn-Led {s'} {t'} stores i (keep same led) v h id n e =
      same_lead i t' led (v h id n (ground (arith, same id)))
  Turn-Led {s'} {t'} stores {tasks} i (claim c m idle new free law) v h id n e =
      elim (Bool-cases (id_eq c id)) [
        | inl is ↦ elim (ℕ_discrete (home i) h) [
          | yes local ↦ record {
            call = i;
            local = local;
            leading = ground (arith, new, id_eq_iff c id);
          }
          | no away ↦
              let l = v h id n (ground (arith, e, away)) in
              other_lead i t' l (λ k. ground (arith, ap (λ j. leads (tasks j)) k, idle, l.leading))
        ]
        | inr ne ↦
            let l = v h id n (ground (arith, e, law id)) in
            other_lead i t' l (λ k. ground (arith, ap (λ j. leads (tasks j)) k, idle, l.leading))
      ]
  Turn-Led {s'} {t'} stores {tasks} i (leave c led gone law) v h id n e =
      let l = v h id n (ground (arith, e, law id)) in
      other_lead i t' l (λ k. ground (
        arith,
        e,
        law id,
        id_eq_iff c id,
        ap (λ j. leads (tasks j)) k,
        ap home k,
        led,
        l.leading,
        l.local,
      ))

  step-Led :
      (s : System p) (i : ℕ) (m : Moment p)
      → Led s.stores s.tasks
      → Led (step p home s i m).stores (step p home s i m).tasks
  unfolding step
  step-Led s i m v = Turn-Led s.stores i (advance-Turn p m s.db (s.stores (home i)) (s.tasks i)) v

  tend-Led :
      (s : System p) (k : ℕ) (wake : Wake) (c : ℕ) (m : Moment p)
      → Led s.stores s.tasks
      → Led (tend p home s k wake c m).stores (tend p home s k wake c m).tasks
  unfolding tend
  tend-Led s k wake c m v h id n e =
      let f = work-KeepsRefills p wake c m s.db (s.stores k) (s.workers k) in
      v h id n (ground (arith, e, ap (λ r. p.refills.get r id) f.refills))

  Reach-keeps-Led :
      {s t : System p} → Led s.stores s.tasks → Reach p home s t → Led t.stores t.tasks
  Reach-keeps-Led v here = v
  Reach-keeps-Led v (next r i m le) = step-Led _ i m (Reach-keeps-Led v r)
  Reach-keeps-Led v (background r k wake c m le) = tend-Led _ k wake c m (Reach-keeps-Led v r)

  pub Reach-Led :
      {c : Config} {db : p.redis.Db} {clock : ℕ} {ids : ℕ → BucketId} {s : System p}
      → Reach p home (init p c db clock ids) s
      → Led s.stores s.tasks
  Reach-Led r = Reach-keeps-Led (λ h id n e. ground (arith, e, p.refills.get-empty id)) r
