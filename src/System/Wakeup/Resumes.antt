-- ===== src/System/Wakeup/Resumes.antt =====
-- A call that waits: whether it goes on depends on when it called `notified()`.
use that_limit.Prelude.{
  ℕ, zero, suc, ◌≤◌, ◌<◌, ◌≡◌, ◌≢◌, refl, ap, sym, ◌∙◌, ◌⊎◌, inl, inr, none, some, if_pos, if_neg,
  ℕ_discrete, arith,
}
use mathlib.Core.Path.{subst}
use that_limit.Bucket.{BucketId}
use that_limit.Bucket.Ids.{id_eq_iff}
use that_limit.Cache.{delivered}
use that_limit.Config.{Config}
use that_limit.Platform.{Platform}
use that_limit.Store.{
  Task, checking, claiming, leasing, settling, waking, arming, waiting, spending, dropping,
  finished, Store, Moment, advance,
}
use that_limit.System.{System, init, step, Reach, here, next, background}
use that_limit.System.SingleFlight.{leads}
use that_limit.System.Wakeup.{get}
use that_limit.System.Wakeup.Leaders.{Reach-Led}

-- The steps that a leader has before it calls `notify_waiters`.
abbrev left : Task → ℕ
left (leasing _) = 3
left (settling _ _ _ _) = 2
left (waking _ _) = 1
left _ = 0

leads-left : (t : Task) (id : BucketId) → leads t ≡ some id → 0 < left t
leads-left t id h = ground arith

module _ (p : Platform) where
  open p use {redis}

  -- A leader's step brings it nearer to its call of `notify_waiters`, or is that call.
  advance-leads :
      (m : Moment p) (db : redis.Db) (s : Store p) (t : Task) (id : BucketId) (n : ℕ)
      → leads t ≡ some id
      → get p s id ≡ some n
      → let w = advance p m (db, s) t in
        ((leads w.1 ≡ some id) × (get p w.0.1 id ≡ some n) × (left w.1 < left t))
        ⊎ ((0 < w.0.1.wakes n) × (get p w.0.1 id ≡ none))
  unfolding advance
  advance-leads m db s (leasing c) id n h e = inl (ground arith, ground arith, ground arith)
  advance-leads m db s (settling c l ttl w) id n h e =
      inl (ground arith, ground arith, ground arith)
  advance-leads m db s (waking c res) id n h e =
      let same : c ≡ id = cc in
      inr (ground arith, ground (arith, p.refills.get-remove s.refills c id, id_eq_iff c id))
  advance-leads m db s (checking _) id n h e = cc
  advance-leads m db s (claiming _) id n h e = cc
  advance-leads m db s (arming _ _) id n h e = cc
  advance-leads m db s (waiting _ _ _) id n h e = cc
  advance-leads m db s (spending _) id n h e = cc
  advance-leads m db s (dropping _) id n h e = cc
  advance-leads m db s (finished _) id n h e = cc

  pub advance-woken :
      (m : Moment p) (db : redis.Db) (s : Store p) (id : BucketId) (n b : ℕ)
      → b < s.wakes n
      → (advance p m (db, s) (waiting id n b)).1 ≡ checking id
  unfolding advance
  advance-woken m db s id n b h = ground arith

  -- Everything happens at the time that Redis has shown.
  abbrev pub moment : System p → Moment p
  moment s = record {
    now = 0;
    exchange = record { link = delivered; server_time = s.clock; started = 0; finished = 0 };
  }

  module _ (home : ℕ → ℕ) where
    pub Reach-trans : {s t u : System p} → Reach p home s t → Reach p home t u → Reach p home s u
    Reach-trans r here = r
    Reach-trans r (next q i m le) = next (Reach-trans r q) i m le
    Reach-trans r (background q h wake c m le) = background (Reach-trans r q) h wake c m le

    module _ (i : ℕ) (id : BucketId) (n : ℕ) where
      -- The call checks its bucket again in a state that can be reached.
      abbrev pub CanGoOn : System p → Type 0
      CanGoOn s = (u : System p) × Reach p home s u × (u.tasks i ≡ checking id)

      then_step : (s : System p) (j : ℕ) → CanGoOn (step p home s j (moment s)) → CanGoOn s
      then_step s j (u, r, e) = (u, Reach-trans (next here j (moment s) (omega arith)) r, e)

      awake :
          (s : System p)
          → s.tasks i ≡ waiting id n 0
          → 0 < (s.stores (home i)).wakes n
          → (step p home s i (moment s)).tasks i ≡ checking id
      unfolding step
      awake s e h =
          if_pos (ℕ_discrete i i) refl _ _
          ∙ ap (λ t. (advance p (moment s) (s.db, s.stores (home i)) t).1) e
          ∙ advance-woken (moment s) s.db (s.stores (home i)) id n 0 h

      pub go_on :
          (s : System p) → s.tasks i ≡ waiting id n 0 → 0 < (s.stores (home i)).wakes n → CanGoOn s
      go_on s e h = then_step s i (step p home s i (moment s), here, awake s e h)

      -- It has a leader, with so many steps left.
      pub record IsLed (k : ℕ) (s : System p) : Type 0 where
        pub call : ℕ
        pub local : home call ≡ home i
        pub leading : leads (s.tasks call) ≡ some id
        pub listed : get p (s.stores (home i)) id ≡ some n
        pub asleep : s.tasks i ≡ waiting id n 0
        pub short : left (s.tasks call) ≤ k

      -- It can check again while nobody leads for its id.
      abbrev pub CanClaim : System p → Type 0
      CanClaim s =
          (u : System p) × Reach p home s u
          × (u.tasks i ≡ checking id)
          × (get p (u.stores (home i)) id ≡ none)

      then_claim : (s : System p) (j : ℕ) → CanClaim (step p home s j (moment s)) → CanClaim s
      then_claim s j (u, r, e, free) =
          (u, Reach-trans (next here j (moment s) (omega arith)) r, e, free)

      claim_now :
          (s : System p)
          → s.tasks i ≡ waiting id n 0
          → 0 < (s.stores (home i)).wakes n
          → get p (s.stores (home i)) id ≡ none
          → CanClaim s
      unfolding step advance
      claim_now s e h free = then_claim s i (
        step p home s i (moment s),
        here,
        awake s e h,
        ap (λ (u : Store p). get p u id) (if_pos (ℕ_discrete (home i) (home i)) refl _ _)
            ∙ ap (λ t. get p (advance p (moment s) (s.db, s.stores (home i)) t).0.1 id) e
            ∙ free,
      )

      pub resume_led : (k : ℕ) (s : System p) → IsLed k s → CanClaim s
      unfolding step
      resume_led zero s v = absurd (omega (arith, v.short, leads-left _ id v.leading))
      resume_led (suc k) s v =
          let j = v.call in
          let store = s.stores (home j) in
          let listed : get p store id ≡ some n =
            subst (λ h. get p (s.stores h) id ≡ some n) (sym v.local) v.listed in
          let other : j ≢ i =
            λ e. ground (arith, ap (λ a. leads (s.tasks a)) e, v.leading, v.asleep) in
          let w = advance p (moment s) (s.db, store) (s.tasks j) in
          let there : (step p home s j (moment s)).stores (home i) ≡ w.0.1 =
            if_pos (ℕ_discrete (home j) (home i)) v.local _ _ in
          let mine : (step p home s j (moment s)).tasks j ≡ w.1 =
            if_pos (ℕ_discrete j j) refl _ _ in
          let asleep : (step p home s j (moment s)).tasks i ≡ waiting id n 0 =
            if_neg (ℕ_discrete j i) other _ _ ∙ v.asleep in
          then_claim s j
            (elim (advance-leads (moment s) s.db store (s.tasks j) id n v.leading listed) [
              | inl (led, stays, less) ↦ resume_led k _ (record {
                call = j;
                local = v.local;
                leading = ap leads mine ∙ led;
                listed = ap (λ (u : Store p). get p u id) there ∙ stays;
                asleep = asleep;
                short = omega (arith, ap left mine, less, v.short);
              })
              | inr (woken, free) ↦
                  claim_now _ asleep (omega (arith, ap (λ (u : Store p). u.wakes n) there, woken))
                    (ap (λ (u : Store p). get p u id) there ∙ free)
            ])

      module _ {c : Config} {db : redis.Db} {clock : ℕ} {ids : ℕ → BucketId} {s : System p}
          (r : Reach p home (init p c db clock ids) s) where
        -- It waits for a leader.
        pub listed_resumes :
            s.tasks i ≡ waiting id n 0 → get p (s.stores (home i)) id ≡ some n → CanClaim s
        listed_resumes e listed =
            let l = Reach-Led p home r (home i) id n listed in
            resume_led 3 s (record {
              call = l.call;
              local = l.local;
              leading = l.leading;
              listed = listed;
              asleep = e;
              short = ground arith;
            })
