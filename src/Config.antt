-- ===== src/Config.antt =====
-- crates/core/src/config.rs: the policies, their validation, and loading them.
pub mod Laws
use that_limit.Prelude.{
  ℕ, ◌==◌, ltb, Bool, true, false, ◌||◌, Option, none, some, String, List, [], ◌∷◌, if◌then◌else◌,
  Result, ok, err, ◌>>=◌, ok_or, map_err,
}
use that_limit.Duration.{Duration, from_secs}
use that_limit.Bucket.{BucketId}

pub data Criteria : Type 0 where
  sub ip : Criteria

pub record Policy : Type 0 where
  pub criteria : Criteria
  pub quota : ℕ
  pub lease_size : ℕ
  pub reset_in : Duration

pub record UncheckedPolicy : Type 0 where
  pub criteria : Criteria
  pub quota : ℕ
  pub lease_size : ℕ
  pub reset_in : Duration

-- `TryFrom<UncheckedPolicy> for Policy`
unfoldable pub try_from : UncheckedPolicy → Result String Policy
try_from p =
    if p.lease_size == 0 || ltb p.quota p.lease_size
    then err "lease_size must be in 1..=quota"
    else ok (record {
      criteria = p.criteria;
      quota = p.quota;
      lease_size = p.lease_size;
      reset_in = p.reset_in;
    })

pub record Cleanup : Type 0 where
  pub enabled : Bool
  pub interval : Duration

pub record Config : Type 0 where
  pub domains : List String
  pub cleanup : Cleanup
  pub protected : Policy
  pub public : Policy

-- The configuration as `serde_json` reads it, before its policies are converted.
pub record RawConfig : Type 0 where
  pub domains : List String
  pub cleanup : Cleanup
  pub protected : UncheckedPolicy
  pub public : UncheckedPolicy

pub data Error : Type 0 where
  io : Error
  json : String → Error

unfoldable pub try_into : RawConfig → Result Error Config
try_into raw = do
  protected ← map_err json (try_from raw.protected)
  public ← map_err json (try_from raw.public)
  ok (record {
    domains = raw.domains;
    cleanup = raw.cleanup;
    protected = protected;
    public = public;
  })

-- `get`, over what `fs::read` and `serde_json::from_slice` give: a file's bytes, and the raw
-- configuration in them or a message.
unfoldable pub get :
    (String → Option (List ℕ)) → (List ℕ → Result String RawConfig) → String → Result Error Config
get read from_slice path = do
  content ← ok_or (read path) io
  raw ← map_err json (from_slice content)
  try_into raw

-- `Default for Config`
abbrev pub default : Config
default = record {
  domains = [];
  cleanup = record { enabled = false; interval = 0 };
  protected = record { criteria = sub; quota = 10000; lease_size = 2000; reset_in = from_secs 60 };
  public = record { criteria = ip; quota = 500; lease_size = 100; reset_in = from_secs 3600 };
}

-- the helpers of the tests
unfoldable pub with_cleanup : Config → Cleanup → Config
with_cleanup c cleanup = record c { cleanup = cleanup }

unfoldable pub with_protected_reset_in : Config → Duration → Config
with_protected_reset_in c reset_in = record c {
  protected = record (c.protected) { reset_in = reset_in };
}

unfoldable pub quota : Config → BucketId → ℕ
quota c (BucketId.public _) = c.public.quota
quota c (BucketId.protected _) = c.protected.quota

unfoldable pub reset_in : Config → BucketId → Duration
reset_in c (BucketId.public _) = c.public.reset_in
reset_in c (BucketId.protected _) = c.protected.reset_in

-- `ConfigExt`
unfoldable pub with_domain : Config → String → Config
with_domain c domain = record c { domains = domain ∷ [] }

unfoldable pub with_protected_quota : Config → ℕ → Config
with_protected_quota c quota = record c { protected = record (c.protected) { quota = quota } }

unfoldable pub with_protected_lease_size : Config → ℕ → Config
with_protected_lease_size c lease_size = record c {
  protected = record (c.protected) { lease_size = lease_size };
}
