-- ===== src/Lease/Clock.antt =====
-- A local bucket against the window in Redis that its tokens come from.
use Prim.Native.String.{String}
use mathlib.Core.Path.{subst}
use native.Mathlib.Nat.{le_refl}
use that_limit.Prelude.{
  ℕ, ◌+◌, ◌-◌, ◌/◌, ◌≤◌, ◌≡◌, refl, ap, sym, ◌∙◌, false, Option, none, some, Result, ok, dec_lt,
  arith,
}
use that_limit.Prelude.Int.{ℤ, pos}
use that_limit.Duration.{
  Duration, as_secs, from_millis, saturating_sub, duration_since, nanos_per_ms,
}
use that_limit.Bucket.{BucketId, IpAddr, Bucket, is_expired}
use that_limit.Bucket
use that_limit.Redis.{Redis, Entry}
use that_limit.Cache.{delivered}
use that_limit.Lease.{Exchange, lease, to_key}
use that_limit.Lease.Script.{Fits, IsRegular}
use that_limit.Lease.Calls.{window_end, entry, lease_delivered}

-- One lease on two clocks that run at the same rate: the server shows `offset` nanoseconds more
-- than the instance, in whole ms. The script runs between the two readings of the instance's clock,
-- and the bucket is made at `created`, after the second.
pub record IsTimed (offset started executed finished created server_time : ℕ) : Type 0 where
  pub sent : started ≤ executed
  pub answered : executed ≤ finished
  pub later : finished ≤ created
  pub shown : server_time ≡ (executed + offset) / nanos_per_ms

module _ {offset started executed finished created server_time : ℕ} where
  -- The time left, as `lease` answers it.
  by_clock :
      (w tokens now : ℕ) (window : ℤ)
      → IsTimed offset started executed finished created server_time
      → server_time ≤ w
      → created ≤ now
      → is_expired now (
          Bucket.new created tokens
            (saturating_sub (from_millis (w - server_time)) (duration_since finished started))
            window)
        ≡ false
      → (now + offset - (created - finished)) / nanos_per_ms ≤ w
  unfolding is_expired Bucket.new
  by_clock w tokens now window t le after alive = ground arith

same_answer {ℓ κ} :
    {D : Type ℓ} {E : Type κ} {db db' : D} {a a' l l' w w' : ℕ}
    → ◌≡◌ {A = D × Result E (ℕ × Duration × ℤ)} (db, ok (a, l, pos w)) (db', ok (a', l', pos w'))
    → (l ≡ l') × (w ≡ w')
same_answer h = (cc, cc)

module _ (r : Redis) (show_ip : IpAddr → String) (x : Exchange r) (db : r.Db) (id : BucketId)
    (size quota : ℕ) (ttl : Duration) where
  open r use {Db, find, is_over}

  abbrev end : ℕ
  end = window_end x.server_time (as_secs ttl) (entry r show_ip x db id size quota ttl)

  -- A window that is there has not ended.
  open_yet :
      (o : Option Entry)
      → find db x.server_time (to_key show_ip id) ≡ o
      → IsRegular o
      → x.server_time ≤ window_end x.server_time (as_secs ttl) o
  open_yet none f regular = omega arith
  open_yet (some e) f (v, t, expires, le) = elim (dec_lt t x.server_time) [
    | yes over ↦ ground (
      arith,
      f,
      expires,
      r.is_over-after x.server_time t over,
      r.find_later db x.server_time x.server_time (to_key show_ip id) (le_refl x.server_time),
    )
    | no open_still ↦ ground (arith, expires)
  ]

  module _ (fits : Fits x.server_time size quota (as_secs ttl))
      (regular : IsRegular (entry r show_ip x db id size quota ttl)) (link : x.link ≡ delivered)
      (offset executed created now : ℕ)
      (timed : IsTimed offset x.started executed x.finished created x.server_time) where
    -- If a lease with exact numbers is delivered, on a regular entry or none, between two readings
    -- of an instance's clock that runs at the rate of the server's, and a bucket is made of what it
    -- answers, then, while that bucket counts as unexpired, the server's clock, less the time from
    -- the reply to the making of the bucket, has not passed the end of the window that the lease
    -- names.
    pub new-is_expired :
        (db' : Db) (leased : ℕ) (time_left : Duration) (w : ℕ)
        → lease r show_ip x db id size quota ttl ≡ (db', ok (leased, time_left, pos w))
        → created ≤ now
        → is_expired now (Bucket.new created leased time_left (pos w)) ≡ false
        → (now + offset - (created - x.finished)) / nanos_per_ms ≤ w
    new-is_expired db' leased time_left w answer after alive =
        let ran = (lease_delivered r show_ip x db id size quota ttl fits regular link).1 in
        let (same_left, same_end) = same_answer (sym ran ∙ answer) in
        subst (λ e. (now + offset - (created - x.finished)) / nanos_per_ms ≤ e) same_end
          (by_clock end leased now (pos w) timed (open_yet _ refl regular) after
            (ap (λ l. is_expired now (Bucket.new created leased l (pos w))) same_left ∙ alive))
