-- ===== src/System/Quota/Leases.antt =====
-- A step of any task keeps the bounds on what has been taken.
use that_limit.Prelude.{
  ℕ, ◌+◌, ◌*◌, ◌≤◌, ◌≡◌, ◌≢◌, Option, none, some, refl, sym, ◌⊎◌, inl, inr, arith, Result, ok, err,
}
use that_limit.Prelude.Int.{ℤ}
use that_limit.Duration.{Duration, as_secs}
use that_limit.Bucket.{BucketId}
use mathlib.Core.Path.{subst}
use that_limit.Lease.{to_key, lease, Exchange}
use that_limit.Redis.{Entry, max_exact}
use that_limit.Lease.Script.{IsRegular}
use that_limit.System.Quota.Marks.{TaskMarked, advance-TaskMarked}
use that_limit.Lease.Calls.{window_end, lease_delivered, lease_lost, lease_refused}
use that_limit.Cache.{Link, refused, lost, delivered, io}
use that_limit.Cache
use that_limit.Config.{Config}
use that_limit.Platform.{Platform}
use that_limit.Store.{
  Task, checking, claiming, leasing, settling, waking, arming, waiting, spending, dropping,
  finished, Store, Moment, advance, cache,
}
use that_limit.System.Quota.{policy, IsSound, InTime, find}
use that_limit.System.Ledger.{received}
use that_limit.System.Quota.Bounds.{Bounded-fewer, Bounded-later}
use that_limit.System.Quota.Charges.{KeepsBounds, Charges, fits, regular, charged_keeps}

window_end-exact :
    (now secs : ℕ) (o : Option Entry)
    → now + 1000 * secs ≤ max_exact
    → IsRegular o
    → window_end now secs o ≤ max_exact
window_end-exact now secs none le r = le
window_end-exact now secs (some e) le (v, t, x, le') = ground arith

module _ (p : Platform) (config : Config) where
  open p use {redis, show_ip}

  pub advance-config :
      (m : Moment p) (db : redis.Db) (s : Store p) (t : Task)
      → (advance p m (db, s) t).0.1.config ≡ s.config
  unfolding advance
  advance-config m db s (checking id) = refl
  advance-config m db s (claiming id) = ground arith
  advance-config m db s (leasing id) = refl
  advance-config m db s (settling id n ttl w) = ground arith
  advance-config m db s (waking id res) = ground arith
  advance-config m db s (arming id n) = refl
  advance-config m db s (waiting id n b) = refl
  advance-config m db s (spending id) = ground arith
  advance-config m db s (dropping id) = refl
  advance-config m db s (finished res) = refl

  -- One call of Redis for `j`.
  module _ (sound : IsSound config) (x : Exchange redis) (db : redis.Db) (j : BucketId)
      (back counted : BucketId → ℕ → ℕ) (kept : KeepsBounds p config back counted db x.server_time)
      (in_time : InTime config x.server_time) where
    -- The step of a leasing task on an instance with the configuration.
    module _ (m : Moment p) (same_call : m.exchange ≡ x) (s : Store p)
        (configured : s.config ≡ config) where
      abbrev outcome : (redis.Db × Store p) × Task
      outcome = advance p m (db, s) (leasing j)

      abbrev KeptBounds : (redis.Db × Store p) × Task → Type 0
      KeptBounds o =
          KeepsBounds p config back (λ id w. counted id w + received id w (leasing j) o.1) o.0.0
            x.server_time

      abbrev after : redis.Db → Result Cache.Error (ℕ × Duration × ℤ) → (redis.Db × Store p) × Task
      after db' res = (
        (db', s),
        elim res [
          | err e ↦ waking j (err (cache e))
          | ok (leased, ttl, window) ↦ settling j leased ttl window
        ],
      )

      called : Exchange redis → redis.Db × Result Cache.Error (ℕ × Duration × ℤ)
      called y =
          lease redis show_ip y db j (policy config j).lease_size (policy config j).quota
            (policy config j).reset_in

      outcome-after :
          (db' : redis.Db) (res : Result Cache.Error (ℕ × Duration × ℤ))
          → called x ≡ (db', res)
          → outcome ≡ after db' res
      unfolding advance called
      outcome-after db' res h = ground (arith, h, configured, same_call)

      leasing_keeps : (l : Link) → x.link ≡ l → KeptBounds outcome
      unfolding called Charges
      leasing_keeps refused h =
          subst KeptBounds
            (sym (
              outcome-after db (err (Cache.redis io))
                (lease_refused p.redis show_ip x db j _ _ _ h)))
            (λ id w.
              Bounded-fewer (policy config id).quota (back id w) w (counted id w + 0) (counted id w)
                x.server_time (find p db x.server_time id) (omega arith) (kept id w))
      leasing_keeps lost h =
          let (db', ran, c) =
            lease_lost p.redis show_ip x db j _ _ _
              (fits p config sound x db j back counted kept in_time)
              (regular p config sound x db j back counted kept in_time) h in
          subst KeptBounds (sym (outcome-after db' (err (Cache.redis io)) ran)) (
            charged_keeps p config sound x db j back counted kept in_time db' (λ id w. 0) c
              (λ id w. omega arith))
      leasing_keeps delivered h =
          let (db', ran, c) =
            lease_delivered p.redis show_ip x db j _ _ _
              (fits p config sound x db j back counted kept in_time)
              (regular p config sound x db j back counted kept in_time) h in
          subst KeptBounds (sym (outcome-after db' _ ran)) (
            charged_keeps p config sound x db j back counted kept in_time db' _ c
              (λ id w. ground arith))

      leasing_marks : (l : Link) → x.link ≡ l → TaskMarked outcome.1
      unfolding called Charges
      leasing_marks refused h =
          subst (λ (o : (redis.Db × Store p) × Task). TaskMarked o.1)
            (sym (
              outcome-after db (err (Cache.redis io))
                (lease_refused p.redis show_ip x db j _ _ _ h)))
            tt
      leasing_marks lost h =
          let (db', ran, c) =
            lease_lost p.redis show_ip x db j _ _ _
              (fits p config sound x db j back counted kept in_time)
              (regular p config sound x db j back counted kept in_time) h in
          subst (λ (o : (redis.Db × Store p) × Task). TaskMarked o.1)
            (sym (outcome-after db' (err (Cache.redis io)) ran)) tt
      leasing_marks delivered h =
          let (db', ran, c) =
            lease_delivered p.redis show_ip x db j _ _ _
              (fits p config sound x db j back counted kept in_time)
              (regular p config sound x db j back counted kept in_time) h in
          subst (λ (o : (redis.Db × Store p) × Task). TaskMarked o.1)
            (sym (outcome-after db' _ ran))
            (record {
              end =
                  window_end x.server_time (as_secs (policy config j).reset_in)
                    (find p db x.server_time j);
              is = refl;
              exact =
                  window_end-exact x.server_time (as_secs (policy config j).reset_in)
                    (find p db x.server_time j) (in_time j)
                    (regular p config sound x db j back counted kept in_time);
            })

  -- A step of any other task gets nothing, and leaves Redis alone.
  Quiet : Moment p → redis.Db → Store p → Task → Type 0
  Quiet m db s t =
      ((advance p m (db, s) t).0.0 ≡ db)
      × ((id : BucketId) (w : ℕ) → received id w t (advance p m (db, s) t).1 ≡ 0)

  leasing_or_Quiet :
      (m : Moment p) (db : redis.Db) (s : Store p) (t : Task)
      → ((j : BucketId) × (t ≡ leasing j)) ⊎ Quiet m db s t
  unfolding advance Quiet
  leasing_or_Quiet m db s (checking id) = inr (refl, λ i w. refl)
  leasing_or_Quiet m db s (claiming id) = inr (refl, λ i w. refl)
  leasing_or_Quiet m db s (leasing id) = inl (id, refl)
  leasing_or_Quiet m db s (settling id n ttl w) = inr (refl, λ i w'. refl)
  leasing_or_Quiet m db s (waking id res) = inr (refl, λ i w. refl)
  leasing_or_Quiet m db s (arming id n) = inr (refl, λ i w. refl)
  leasing_or_Quiet m db s (waiting id n b) = inr (refl, λ i w. refl)
  leasing_or_Quiet m db s (spending id) = inr (refl, λ i w. refl)
  leasing_or_Quiet m db s (dropping id) = inr (refl, λ i w. refl)
  leasing_or_Quiet m db s (finished res) = inr (refl, λ i w. refl)

  leasing_or_not :
      (t : Task) → ((j : BucketId) × (t ≡ leasing j)) ⊎ ((j : BucketId) → t ≢ leasing j)
  leasing_or_not (leasing j) = inl (j, refl)
  leasing_or_not (checking j) = inr (λ i h. cc)
  leasing_or_not (claiming j) = inr (λ i h. cc)
  leasing_or_not (settling j n ttl w) = inr (λ i h. cc)
  leasing_or_not (waking j res) = inr (λ i h. cc)
  leasing_or_not (arming j n) = inr (λ i h. cc)
  leasing_or_not (waiting j n b) = inr (λ i h. cc)
  leasing_or_not (spending j) = inr (λ i h. cc)
  leasing_or_not (dropping j) = inr (λ i h. cc)
  leasing_or_not (finished res) = inr (λ i h. cc)

  module _ (sound : IsSound config) (m : Moment p) (db : redis.Db) (before : ℕ)
      (back counted : BucketId → ℕ → ℕ) (kept : KeepsBounds p config back counted db before)
      (later : before ≤ m.exchange.server_time) (in_time : InTime config m.exchange.server_time)
      (s : Store p) (configured : s.config ≡ config) where
    pub kept_later : KeepsBounds p config back counted db m.exchange.server_time
    kept_later id w =
        rw (redis.find_later db before m.exchange.server_time (to_key show_ip id) later) (
          Bounded-later redis (policy config id).quota (back id w) w (counted id w) before
            m.exchange.server_time (find p db before id) later (kept id w))

    pub advance_keeps :
        (t : Task)
        → KeepsBounds p config back
            (λ id w. counted id w + received id w t (advance p m (db, s) t).1)
            (advance p m (db, s) t).0.0
            m.exchange.server_time
    unfolding Quiet
    advance_keeps t = elim (leasing_or_Quiet m db s t) [
      | inl (j, e) ↦ rw e (
          leasing_keeps sound m.exchange db j back counted kept_later in_time m refl s configured
            m.exchange.link refl)
      | inr (same, nothing) ↦ λ id w.
          rw (nothing id w, same)
            (Bounded-fewer (policy config id).quota (back id w) w (counted id w + 0) (counted id w)
              m.exchange.server_time (find p db m.exchange.server_time id) (omega arith)
              (kept_later id w))
    ]

    pub advance_marks : (t : Task) → TaskMarked (advance p m (db, s) t).1
    advance_marks t = elim (leasing_or_not t) [
      | inl (j, e) ↦ rw e (
          leasing_marks sound m.exchange db j back counted kept_later in_time m refl s configured
            m.exchange.link refl)
      | inr ne ↦ advance-TaskMarked p m db s t ne
    ]
