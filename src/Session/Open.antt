-- ===== src/Session/Open.antt =====
-- What a call meets: when it is made, and what the store and Redis hold, against the counter.
use that_limit.Prelude.{
  ℕ, ◌+◌, ◌-◌, ◌*◌, ◌≤◌, ◌<◌, ◌≡◌, refl, ◌∙◌, ◌⊎◌, true, false, none, some, List, [], ◌∷◌, sym, ap,
  Result,
}
use that_limit.Duration.{Instant, as_secs, from_millis, duration_since}
use that_limit.Bucket.{BucketId, Bucket}
use that_limit.Redis.{max_exact}
use that_limit.Cache.{delivered}
use that_limit.Config.{Config, Policy}
use that_limit.Lease.{to_key}
use that_limit.Platform.{Platform}
use that_limit.Store.{Error, Task, checking, finished, Store, Moment, run, criteria}
use that_limit.Store.Answers.{run-finished}
use that_limit.System.Quota.{holding}
use that_limit.System.Quota.Leases.{advance-config}
use that_limit.Session.{Limit, Visit, consume_once}

module _ (p : Platform) (id : BucketId) (config : Config) where
  open p use {redis, buckets as bucket_map, refills as refill_map, show_ip}

  abbrev pub policy : Policy
  policy = criteria config id

  -- The window ends at `w`, and no bucket of it expires before the local instant `until`. Redis
  -- answers the call, if there is one, between `clock` and the end of the window.
  pub record IsTimely (w : ℕ) (until : Instant) (clock : ℕ) (v : Visit p id) : Type 0 where
    pub link : v.m₃.exchange.link ≡ delivered
    pub after : clock ≤ v.m₃.exchange.server_time
    pub before : v.m₃.exchange.server_time < w
    pub first : v.m₁.now < until
    pub second : v.m₂.now < until
    pub last : v.m₆.now < until
    pub lasts :
        until
        ≤ v.m₄.now
          + (from_millis (w - v.m₃.exchange.server_time)
              - duration_since v.m₃.exchange.finished v.m₃.exchange.started)

  -- The store and Redis hold what the counter holds.
  pub record IsOpen (w : ℕ) (until : Instant) (clock : ℕ) (l : Limit) (db : redis.Db) (s : Store p)
      : Type 0 where
    pub same : s.config ≡ config
    pub free : refill_map.get s.refills id ≡ none
    pub entry : redis.find db clock (to_key show_ip id) ≡ some (holding l.in_redis w)
    pub bucket : Bucket
    pub found : bucket_map.get s.buckets id ≡ some bucket
    pub tokens : bucket.tokens ≡ l.in_bucket
    pub lasts : until ≤ bucket.expires_at
    pub marked :
        (bucket.exhausted ≡ false)
        ⊎ ((bucket.exhausted ≡ true) × (l.in_redis ≡ 0) × (l.in_bucket ≡ 0))

  pub record IsSteady (w : ℕ) (l : Limit) : Type 0 where
    pub size_pos : 0 < policy.lease_size
    pub leases_some : policy.lease_size ≤ policy.quota
    pub quota_exact : policy.quota ≤ max_exact
    pub within : l.in_redis ≤ policy.quota
    pub resets : 0 < as_secs policy.reset_in
    pub end_exact : w + 1000 * as_secs policy.reset_in ≤ max_exact

  pub run-config :
      (ms : List (Moment p)) (db : redis.Db) (s : Store p) (t : Task)
      → (run p ms (db, s) t).0.1.config ≡ s.config
  unfolding run
  run-config [] db s t = refl
  run-config (m ∷ ms) db s t = run-config ms _ _ _ ∙ advance-config p config m db s t

  -- The first six steps of a call.
  abbrev pub six : Visit p id → redis.Db × Store p → (redis.Db × Store p) × Task
  six v w = run p (v.m₁ ∷ v.m₂ ∷ v.m₃ ∷ v.m₄ ∷ v.m₅ ∷ v.m₆ ∷ []) w (checking id)

  -- A call that has ended stays as it is.
  pub consume_once-six :
      (v : Visit p id) (w : redis.Db × Store p) (res : Result Error ℕ)
      → (six v w).1 ≡ finished res
      → consume_once p id v w ≡ six v w
  unfolding run
  consume_once-six v w res e =
      ap (λ t. run p (v.m₇ ∷ []) (six v w).0 t) e
      ∙ run-finished p (v.m₇ ∷ []) (six v w).0 res
      ∙ ap (λ t. ((six v w).0, t)) (sym e)
