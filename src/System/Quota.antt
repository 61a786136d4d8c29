-- ===== src/System/Quota.antt =====
-- What all instances together get from one window in Redis, over any interleaving of their calls.
pub mod Bounds
pub mod Charges
pub mod Leases
pub mod Gives
pub mod Marks
pub mod WorkMarks
pub mod Works
pub mod Total
use text.Mathlib.Text.{◌==◌ as str_eq}
use text.Mathlib.TextEquality.{eq_iff}
use text.Mathlib.TextPositions.{eq_refl}
use that_limit.Prelude.{
  ℕ, ◌+◌, ◌-◌, ◌*◌, ◌==◌, ◌≤◌, ◌<◌, ◌≡◌, ◌≢◌, refl, ap, sym, ◌∙◌, Bool, true, false, ◌&&◌,
  Bool-cases, ◌⊎◌, inl, inr, Option, none, some, if◌then◌else◌, min, arith, Result, ok, err,
}
use that_limit.Prelude.Int.{ℤ, pos, eqb_ℤ}
use that_limit.Duration.{Duration, as_secs}
use that_limit.Bucket.{BucketId}
use that_limit.Bucket.Ids.{id_eq, id_eq_iff, id_eq_refl}
use that_limit.Redis.{Redis, Entry, IsExact, max_exact, still}
use that_limit.Lease.Script.{Fits, IsRegular, granted, entry_after}
use mathlib.Core.Path.{subst}
use native.Mathlib.Nat.{le_refl}
use that_limit.Lease.Keys.{to_key-injective}
use that_limit.Lease.{to_key, lease, Exchange}
use that_limit.Lease.Calls.{window_end, Charged, lease_delivered, lease_lost, lease_refused}
use that_limit.Cache.{Link, refused, lost, delivered, io}
use that_limit.Cache
use that_limit.Config.{Config, Policy}
use that_limit.Platform.{Platform}
use that_limit.Store.{
  Task, checking, claiming, leasing, settling, waking, arming, waiting, spending, dropping,
  finished, Store, Moment, advance, cache, criteria,
}
use that_limit.System.{System, init, step, Reach, here, next}

-- An entry of a window that ends at `t`, with `v` tokens.
abbrev pub holding : ℕ → ℕ → Entry
holding v t = record { value = pos v; expires = some t }

-- What Redis may hold for an id at the start: nothing, or a window with at most the quota.
abbrev pub IsWithin : ℕ → Option Entry → Type 0
IsWithin quota none = Unit
IsWithin quota (some e) = (v : ℕ) × (t : ℕ) × (e ≡ holding v t) × (v ≤ quota) × (t ≤ max_exact)

module _ (config : Config) where
  abbrev pub policy : BucketId → Policy
  policy id = criteria config id

  -- The policies lease at most the quota, reset after a second or more, and have exact numbers.
  pub record IsSound : Type 0 where
    pub leases_some : (id : BucketId) → (policy id).lease_size ≤ (policy id).quota
    pub quota_exact : (id : BucketId) → (policy id).quota ≤ max_exact
    pub resets : (id : BucketId) → 0 < as_secs (policy id).reset_in

  -- All windows that have been opened at `now` end at an exact time.
  abbrev pub InTime : ℕ → Type 0
  InTime now = (id : BucketId) → now + 1000 * as_secs (policy id).reset_in ≤ max_exact

module _ (p : Platform) where
  open p use {redis, show_ip}

  abbrev pub find : redis.Db → ℕ → BucketId → Option Entry
  find db now id = redis.find db now (to_key show_ip id)
