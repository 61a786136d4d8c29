-- ===== src/Server/Start.antt =====
-- crates/server/src/main.rs: `main` from the environment to the start of the server, and what the
-- configuration that it has loaded means for the calls that it serves.
use Prim.Native.String.{String}
use mathlib.Core.Path.{subst}
use that_limit.Prelude.{
  ℕ, ◌+◌, ◌≤◌, ◌<◌, ◌≡◌, ◌↔◌, refl, ap, sym, ◌∙◌, Option, none, some, List, Result, ok, ◌>>=◌,
  ok_or, map_err, >>=-eq-ok, ok_or-eq-ok, map_err-eq-ok, ok-inv,
}
use that_limit.Duration.{as_secs}
use that_limit.Bucket.{BucketId, public, protected}
use that_limit.Broadcast.{Broadcast}
use that_limit.Redis.{max_exact}
use that_limit.Cache.{CacheConfig}
use that_limit.Cache
use that_limit.Config.{Config, RawConfig, get}
use that_limit.Config.{Error as ConfigError}
use that_limit.Config.Laws.{get_iff, InRange, as_config}
use that_limit.Platform.{Platform}
use that_limit.Store.{criteria}
use that_limit.System.Quota.{policy, IsWithin, InTime, find}
use that_limit.System.Ledger.{total_spent}
use that_limit.System.Ledger.Regained.{total_regained}
use that_limit.System.Spending.{spent-le-quota}
use that_limit.Server.{Command, Server, main, Reach}
use that_limit.Server.History.{history}

-- `Error` of main.rs
pub data Error : Type 0 where
  var_error : Error
  config_error : ConfigError → Error

leases_within :
    (raw : RawConfig)
    → InRange raw.protected
    → InRange raw.public
    → (id : BucketId)
    → (criteria (as_config raw) id).lease_size ≤ (criteria (as_config raw) id).quota
unfolding criteria
leases_within raw prot publ (public ip) = publ.1
leases_within raw prot publ (protected sub) = prot.1

module _ (var : String → Option String) (read : String → Option (List ℕ))
    (from_slice : List ℕ → Result String RawConfig) where
  -- `that_limit_core::get(&env::var("CFG_PATH")?)?`
  unfoldable pub load : Result Error Config
  load = do path ← ok_or (var "CFG_PATH") var_error; map_err config_error (get read from_slice path)

  -- The environment names a file that is a configuration whose policies are in range.
  abbrev pub Loads : Config → Type 0
  Loads config =
      (path : String) × (content : List ℕ) × (raw : RawConfig) × (var "CFG_PATH" ≡ some path)
      × (read path ≡ some content)
      × (from_slice content ≡ ok raw)
      × InRange raw.protected
      × InRange raw.public
      × (config ≡ as_config raw)

  pub load_iff : (config : Config) → (load ≡ ok config) ↔ Loads config
  unfolding load
  load_iff config = (
    λ h.
        let (path, h', e) = >>=-eq-ok _ (ok_or (var "CFG_PATH") var_error) h in
        let (content, raw, e', e'', prot, publ, same) =
          (get_iff read from_slice path config).0 (map_err-eq-ok _ _ h') in
        (path, content, raw, ok_or-eq-ok _ _ e, e', e'', prot, publ, same),
    λ (path, content, raw, e, e', e'', prot, publ, same).
        rw (e, (get_iff read from_slice path config).1 (content, raw, e', e'', prot, publ, same))
          refl,
  )

  load-leases :
      (config : Config)
      → load ≡ ok config
      → (id : BucketId) → (criteria config id).lease_size ≤ (criteria config id).quota
  load-leases config h id =
      let (path, content, raw, e, e', e'', prot, publ, same) = (load_iff config).0 h in
      rw same (leases_within raw prot publ id)

  -- `CacheConfig::env().unwrap_or_default()`
  unfoldable pub redis_config : (String → Option ℕ) → CacheConfig
  redis_config parse_u16 = elim (Cache.env var parse_u16) [ none ↦ Cache.default | some c ↦ c ]

  module _ (p : Platform) (b : Broadcast Command) (parse_u16 : String → Option ℕ)
      (connect : CacheConfig → p.redis.Db) (clock : ℕ) (ids : ℕ → BucketId) where
    -- `main` up to the start of the server: an error of the variable or of the configuration ends it.
    unfoldable pub start : Result Error (Server p b)
    unfolding load redis_config
    start = do config ← load; ok (main p b config (connect (redis_config parse_u16)) clock ids)

    start-main :
        (config : Config) (s : Server p b)
        → load ≡ ok config
        → start ≡ ok s
        → main p b config (connect (redis_config parse_u16)) clock ids ≡ s
    unfolding start
    start-main config s h e = ok-inv (
        sym (ap (λ c. c >>= (λ d. ok (main p b d (connect (redis_config parse_u16)) clock ids))) h)
        ∙ e)

    module _ (home : ℕ → ℕ) (n : ℕ) (few : (i : ℕ) → home i < n) (h : ℕ) (config : Config)
        (quota_exact : (id : BucketId) → (policy config id).quota ≤ max_exact)
        (resets : (id : BucketId) → 0 < as_secs (policy config id).reset_in)
        (within : (id : BucketId)
          → IsWithin
              (policy config id).quota
              (find p (connect (redis_config parse_u16)) clock id)) where
      loaded-spent :
          {t : Server p b}
          → load ≡ ok config
          → (r : Reach p b home h (main p b config (connect (redis_config parse_u16)) clock ids) t)
          → InTime config t.system.clock
          → (id : BucketId) (w : ℕ)
          → total_spent p home id w (history p b home h r)
            ≤ (policy config id).quota + total_regained p home id w (history p b home h r)
      unfolding main
      loaded-spent loaded r in_time id w =
          spent-le-quota p home config (connect (redis_config parse_u16)) clock ids
            (record {
              leases_some = load-leases config loaded;
              quota_exact = quota_exact;
              resets = resets;
            })
            within n few (history p b home h r) in_time id w

      abbrev Keeps : Server p b → Type 0
      Keeps s =
          (t : Server p b) (r : Reach p b home h s t)
          → InTime config t.system.clock
          → (id : BucketId) (w : ℕ)
          → total_spent p home id w (history p b home h r)
            ≤ (policy config id).quota + total_regained p home id w (history p b home h r)

      -- If a server has started, with a configuration that it has loaded and whose policies have
      -- exact quotas and reset after a second or more, the Redis that it connects to starts with
      -- at most the quota for each id, the instances are finitely many, and all windows opened so
      -- far end at an exact time, then in every history of the server, its shutdown included, the
      -- calls of `consume` on all instances together spend at most the quota of an id from each of
      -- its windows, and the tokens by which the background tasks' calls have made its entry grow
      -- while it was of that window.
      pub started-spent-le-quota :
          (s : Server p b)
          → load ≡ ok config
          → start ≡ ok s
          → (t : Server p b) (r : Reach p b home h s t) → InTime config t.system.clock
          → (id : BucketId) (w : ℕ)
          → total_spent p home id w (history p b home h r)
            ≤ (policy config id).quota + total_regained p home id w (history p b home h r)
      started-spent-le-quota s loaded started =
          subst Keeps (start-main config s loaded started)
            (λ t r in_time id w. loaded-spent loaded r in_time id w)
