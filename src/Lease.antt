-- ===== src/Lease.antt =====
-- crates/core/src/cache.rs: the keys, the two Lua scripts and the calls of them.
pub mod Keys
pub mod Script
pub mod Calls
pub mod Release
pub mod Clock
pub mod RoundTrip
pub mod Gives
pub mod Windows
use Prim.Native.String
use that_limit.Prelude.{
  ℕ, ◌-◌, ◌*◌, ◌==◌, leb, Bool, true, false, Option, none, some, String, List, [], ◌∷◌, Result, ok,
  err, if◌then◌else◌,
}
use that_limit.Prelude.Int.{ℤ, pos, negsuc, ◌-ℤ◌, leb_ℤ, min_ℤ, eqb_ℤ}
use that_limit.Duration.{Duration, Instant, from_millis, as_secs, saturating_sub, duration_since}
use that_limit.Bucket.{BucketId, IpAddr, public, protected}
use that_limit.Redis.{Redis}
use that_limit.Cache.{Error, Reply, int, array, Link, new, key, arg, eval}

-- `Key for bucket::Id`, over the text of an address.
unfoldable pub to_key : (IpAddr → String) → BucketId → String
to_key show_ip (public ip) = String.◌++◌ "ip:" (show_ip ip)
to_key show_ip (protected sub) = String.◌++◌ "sub:" sub

infixl 5 ◌>>=◌
abbrev ◌>>=◌ {ℓ κ} : {A : Type ℓ} {B : Type κ} → Option A → (A → Option B) → Option B
none >>= f = none
some a >>= f = f a

module _ (r : Redis) where
  open r use {Db, number, get, pttl, pexpiretime, setex, decrby, incrby}

  -- `{leased, redis.call('PTTL', key), redis.call('PEXPIRETIME', key)}`
  reply : Db → ℕ → String → ℤ → Db × Reply
  reply db now k leased =
      (db, array (leased ∷ number (pttl db now k) ∷ number (pexpiretime db now k) ∷ []))

  open_window : Db → ℕ → String → ℤ → ℤ → ℤ → Option (Db × Reply)
  unfolding reply
  open_window db now k lease_size quota default_ttl = do
    db' ← setex db now k default_ttl (number (quota -ℤ lease_size))
    some (reply db' now k lease_size)

  take_tokens : Db → ℕ → String → ℤ → ℤ → Option (Db × Reply)
  unfolding reply
  take_tokens db now k lease_size tokens =
      let to_lease = min_ℤ tokens lease_size in
      if leb_ℤ tokens (pos 0)
      then some (reply db now k (pos 0))
      else (do db' ← decrby db now k to_lease; some (reply db' now k to_lease))

  -- `LEASE_SCRIPT`; without its key or an argument it fails.
  unfoldable pub lease_script : Db → ℕ → List String → List ℤ → Option (Db × Reply)
  unfolding open_window take_tokens
  lease_script db now (k ∷ _) (size ∷ limit ∷ ttl ∷ _) =
      let lease_size = number size in
      let quota = number limit in
      let default_ttl = number ttl in
      elim (get db now k) [
        | none ↦ open_window db now k lease_size quota default_ttl
        | some current ↦ take_tokens db now k lease_size (number current)
      ]
  lease_script db now _ _ = none

  -- `RELEASE_SCRIPT`
  unfoldable pub release_script : Db → ℕ → List String → List ℤ → Option (Db × Reply)
  release_script db now (k ∷ _) (count ∷ id ∷ _) =
      let tokens = number count in
      let window = number id in
      if eqb_ℤ (number (pexpiretime db now k)) window
      then (do db' ← incrby db now k tokens; some (db', int (pos 1)))
      else some (db, int (pos 0))
  release_script db now _ _ = none

  -- The conversion to `(u64, u64, i64)` refuses a negative number in the first two places.
  abbrev to_lease : Reply → Option (ℕ × ℕ × ℤ)
  to_lease (array (pos leased ∷ pos left ∷ window ∷ [])) = some (leased, left, window)
  to_lease _ = none

  abbrev to_u8 : Reply → Option ℕ
  to_u8 (int (pos n)) = if leb n 255 then some n else none
  to_u8 _ = none

  -- One call of Redis: what becomes of it, the server's time in ms, and the instants at which the
  -- caller started to wait and had the reply.
  pub record Exchange : Type 0 where
    pub link : Link
    pub server_time : ℕ
    pub started : Instant
    pub finished : Instant

  -- `lease`
  unfoldable pub lease :
      (IpAddr → String)
      → Exchange
      → Db
      → BucketId
      → ℕ
      → ℕ
      → Duration
      → Db × Result Error (ℕ × Duration × ℤ)
  lease show_ip x db id size quota ttl =
      let call =
        arg r
          (arg r (arg r (key r (new r lease_script to_lease) (to_key show_ip id)) (pos size))
            (pos quota))
          (pos (as_secs ttl)) in
      let (db', res) = eval r x.link x.server_time db call in
      (
        db',
        elim res [
          | err e ↦ err e
          | ok (leased, left, window) ↦ ok (
            leased,
            saturating_sub (from_millis left) (duration_since x.finished x.started),
            window,
          )
        ],
      )

  -- `release`
  unfoldable pub release :
      (IpAddr → String) → Exchange → Db → BucketId → ℕ → ℤ → Db × Result Error Bool
  release show_ip x db id tokens window =
      let call =
        arg r (arg r (key r (new r release_script to_u8) (to_key show_ip id)) (pos tokens))
          window in
      let (db', res) = eval r x.link x.server_time db call in
      (db', elim res [ err e ↦ err e | ok released ↦ ok (released == 1) ])
