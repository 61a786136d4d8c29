-- ===== src/Session/Fetch.antt =====
-- A delivered call of `lease` by an instance with a given configuration, by the entry of the id.
use native.Mathlib.Nat.{le_refl}
use text.Mathlib.TextPositions.{eq_refl}
use that_limit.Prelude.{ℕ, ◌-◌, ◌≡◌, ap, ◌∙◌, Option, some, ok, arith}
use mathlib.Core.Path.{subst, sym}
use that_limit.Prelude.Int.{pos}
use that_limit.Duration.{as_secs, from_millis, duration_since}
use that_limit.Bucket.{BucketId}
use that_limit.Redis.{Entry, still}
use that_limit.Cache.{delivered}
use that_limit.Config.{Config, Policy}
use that_limit.Lease
use that_limit.Lease.{Exchange, to_key}
use that_limit.Lease.Script.{Fits, IsRegular, granted, entry_after}
use that_limit.Lease.Calls.{lease_delivered, window_end}
use that_limit.Platform.{Platform}
use that_limit.Store.{Store, criteria}

module _ (p : Platform) (id : BucketId) (config : Config) (x : Exchange p.redis) (db : p.redis.Db)
    (s : Store p) (same : s.config ≡ config) where
  open p use {redis, show_ip}

  abbrev pub policy : Policy
  policy = criteria config id

  abbrev at : ℕ
  at = x.server_time

  abbrev pub secs : ℕ
  secs = as_secs policy.reset_in

  -- The call gives these tokens of the window that ends at `w`, and leaves this entry.
  abbrev pub Fetches : ℕ → ℕ → Option Entry → Type 0
  Fetches tokens w left =
      (db' : redis.Db) × (Lease.lease redis show_ip x db id (criteria s.config id).lease_size
          (criteria s.config id).quota (criteria s.config id).reset_in
        ≡ (db', ok (tokens, from_millis (w - at) - duration_since x.finished x.started, pos w)))
      × (redis.find db' at (to_key show_ip id) ≡ still redis.is_over at left)

  pub fetched :
      (o : Option Entry)
      → redis.find db at (to_key show_ip id) ≡ o
      → IsRegular o
      → Fits at policy.lease_size policy.quota secs
      → x.link ≡ delivered
      → Fetches
          (granted policy.lease_size o)
          (window_end at secs o)
          (some (entry_after at policy.lease_size policy.quota secs o))
  fetched o here regular fits link =
      let (db', ran, charged) =
        lease_delivered redis show_ip x db id policy.lease_size policy.quota policy.reset_in fits
          (subst IsRegular (sym here) regular) link in
      (
        db',
        ap
              (λ c.
                Lease.lease redis show_ip x db id (criteria c id).lease_size (criteria c id).quota
                  (criteria c id).reset_in)
              same
            ∙ ran
            ∙ ap
                (λ e. (
                  db',
                  ok (
                    granted policy.lease_size e,
                    from_millis (window_end at secs e - at) - duration_since x.finished x.started,
                    pos (window_end at secs e),
                  ),
                ))
                here,
        charged at (to_key show_ip id) (le_refl at)
            ∙ ground (arith, eq_refl (to_key show_ip id), here),
      )
