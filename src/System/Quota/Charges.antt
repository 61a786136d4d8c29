-- ===== src/System/Quota/Charges.antt =====
-- One call of Redis keeps the bounds on what has been taken.
use text.Mathlib.TextEquality.{eq_iff}
use text.Mathlib.TextPositions.{eq_refl}
use that_limit.Prelude.{
  ℕ, ◌+◌, ◌≤◌, ◌≡◌, ◌≢◌, false, Bool-cases, inl, inr, Option, some, if◌then◌else◌, arith,
}
use that_limit.Duration.{as_secs}
use that_limit.Bucket.{BucketId}
use that_limit.Bucket.Ids.{id_eq, id_eq_iff, id_eq_refl}
use that_limit.Redis.{Entry}
use that_limit.Lease.Script.{Fits, IsRegular, entry_after}
use mathlib.Core.Path.{subst}
use native.Mathlib.Nat.{le_refl}
use that_limit.Lease.Keys.{to_key-injective}
use that_limit.Lease.{to_key, Exchange}
use that_limit.Lease.Calls.{Charged}
use that_limit.Config.{Config}
use that_limit.Platform.{Platform}
use that_limit.System.Quota.{policy, IsSound, InTime, find}
use that_limit.System.Quota.Bounds.{
  Bounded, Bounded-IsRegular, Bounded-fewer, Bounded-later, added, Bounded-after,
}

module _ (p : Platform) (config : Config) where
  open p use {redis, show_ip}

  abbrev pub KeepsBounds : (BucketId → ℕ → ℕ) → (BucketId → ℕ → ℕ) → redis.Db → ℕ → Type 0
  KeepsBounds back counted db now =
      (id : BucketId) (w : ℕ)
      → Bounded (policy config id).quota (back id w) w (counted id w) now (find p db now id)

  -- One call of Redis for `j`.
  module _ (sound : IsSound config) (x : Exchange redis) (db : redis.Db) (j : BucketId)
      (back counted : BucketId → ℕ → ℕ) (kept : KeepsBounds back counted db x.server_time)
      (in_time : InTime config x.server_time) where
    open sound use {leases_some, quota_exact, resets}

    abbrev now : ℕ
    now = x.server_time

    abbrev entry : Option Entry
    entry = find p db now j

    abbrev gained : ℕ → ℕ
    gained w = added w now (policy config j).lease_size (as_secs (policy config j).reset_in) entry

    unfoldable pub Charges : redis.Db → Type 0
    Charges =
        Charged redis show_ip x db j (policy config j).lease_size (policy config j).quota
          (policy config j).reset_in

    pub fits :
        Fits now
          (policy config j).lease_size
          (policy config j).quota
          (as_secs (policy config j).reset_in)
    fits = record {
      size_exact = omega (arith, leases_some j, quota_exact j);
      quota_exact = quota_exact j;
      ttl_pos = resets j;
      end_exact = in_time j;
    }

    pub regular : IsRegular entry
    regular =
        Bounded-IsRegular (policy config j).quota (back j 0) 0 (counted j 0) now entry
          (quota_exact j) (kept j 0)

    charged_here :
        (db' : redis.Db) (w : ℕ)
        → Charges db'
        → Bounded
            (policy config j).quota
            (back j w)
            w
            (counted j w + gained w)
            now
            (find p db' now j)
    unfolding Charges
    charged_here db' w c =
        rw (c now (to_key show_ip j) (le_refl now), eq_refl (to_key show_ip j))
          (Bounded-later redis (policy config j).quota (back j w) w (counted j w + gained w) now now
            (some (
              entry_after now (policy config j).lease_size (policy config j).quota
                (as_secs (policy config j).reset_in) entry))
            (le_refl now)
            (Bounded-after (policy config j).quota (back j w) w (counted j w) now
              (policy config j).lease_size (as_secs (policy config j).reset_in) entry
              (leases_some j) (resets j) (in_time j) (kept j w)))

    charged_elsewhere :
        (db' : redis.Db) (id : BucketId)
        → Charges db'
        → id_eq j id ≡ false
        → find p db' now id ≡ find p db now id
    unfolding Charges
    charged_elsewhere db' id c other =
        let apart : to_key show_ip j ≢ to_key show_ip id = λ e.
          ground
            (arith, other, id_eq_iff j id, to_key-injective show_ip p.show_ip-injective j id e) in
        ground (
          arith,
          eq_iff (to_key show_ip j) (to_key show_ip id),
          c now (to_key show_ip id) (le_refl now),
          apart,
        )

    -- The bounds stay if no more is counted than the script gave.
    pub charged_keeps :
        (db' : redis.Db) (n : BucketId → ℕ → ℕ)
        → Charges db'
        → ((id : BucketId) (w : ℕ) → n id w ≤ (if id_eq j id then gained w else 0))
        → KeepsBounds back (λ id w. counted id w + n id w) db' now
    charged_keeps db' n c le id w = elim (Bool-cases (id_eq j id)) [
      | inl same ↦
          let at_most : n j w ≤ gained w =
            subst (λ b. n j w ≤ (if b then gained w else 0)) (id_eq_refl j) (le j w) in
          let few : counted j w + n j w ≤ counted j w + gained w = omega arith in
          subst
            (λ i.
              Bounded (policy config i).quota (back i w) w (counted i w + n i w) now
                (find p db' now i))
            ((id_eq_iff j id).0 same)
            (Bounded-fewer (policy config j).quota (back j w) w (counted j w + n j w)
              (counted j w + gained w) now (find p db' now j) few (charged_here db' w c))
      | inr other ↦
          let nothing : n id w ≤ 0 =
            subst (λ b. n id w ≤ (if b then gained w else 0)) other (le id w) in
          rw (charged_elsewhere db' id c other) (
            Bounded-fewer (policy config id).quota (back id w) w (counted id w + n id w)
              (counted id w) now (find p db now id) (omega arith) (kept id w))
    ]
