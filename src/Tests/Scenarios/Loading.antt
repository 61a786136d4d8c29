-- ===== src/Tests/Scenarios/Loading.antt =====
-- crates/core/src/config.rs: the tests of loading a configuration, over their fixtures.
use Prim.Native.String.{String}
use text.Mathlib.Text.{◌==◌ as str_eq}
use that_limit.Prelude.{
  ℕ, zero, suc, ◌≡◌, refl, true, Option, none, some, List, [], ◌∷◌, Result, ok, err, if◌then◌else◌,
}
use that_limit.Duration.{from_secs}
use that_limit.Config.{RawConfig, Error, io, json, sub, ip, get, try_into, try_from}

-- A fixture's bytes, which only `from_slice` looks at, are its number here.
abbrev pub read : String → Option (List ℕ)
read path =
    if str_eq path "tests/fixtures/valid.json"
    then some (0 ∷ [])
    else if str_eq path "tests/fixtures/invalid_type.json"
    then some (1 ∷ [])
    else if str_eq path "tests/fixtures/invalid_lease_size.json"
    then some (2 ∷ [])
    else none

abbrev with_lease_size : ℕ → RawConfig
with_lease_size n = record {
  domains = "test-app" ∷ "mock-api" ∷ [];
  cleanup = record { enabled = true; interval = from_secs 5 };
  protected = record { criteria = sub; quota = 10000; lease_size = 2000; reset_in = from_secs 600 };
  public = record { criteria = ip; quota = 500; lease_size = n; reset_in = from_secs 3600 };
}

-- What `serde_json` makes of the fixtures.
abbrev pub from_slice : List ℕ → Result String RawConfig
from_slice (zero ∷ []) = ok (with_lease_size 100)
from_slice (suc (suc zero) ∷ []) = ok (with_lease_size 501)
from_slice _ = err "invalid type: string \"600\", expected u64"

abbrev ShouldCreateConfigFromFile : Type 0
ShouldCreateConfigFromFile =
    get read from_slice "tests/fixtures/valid.json"
    ≡ ok (record {
      domains = "test-app" ∷ "mock-api" ∷ [];
      cleanup = record { enabled = true; interval = from_secs 5 };
      protected = record {
        criteria = sub;
        quota = 10000;
        lease_size = 2000;
        reset_in = from_secs 600;
      };
      public = record { criteria = ip; quota = 500; lease_size = 100; reset_in = from_secs 3600 };
    })

abbrev FailsWith : Error → String → Type 0
FailsWith e path = get read from_slice path ≡ err e

abbrev ShouldFailWhenFileDoesNotExist : Type 0
ShouldFailWhenFileDoesNotExist = FailsWith io "tests/fixtures/unknown.json"

abbrev ShouldFailWhenConfigHasInvalidFormat : Type 0
ShouldFailWhenConfigHasInvalidFormat =
    FailsWith (json "invalid type: string \"600\", expected u64") "tests/fixtures/invalid_type.json"

abbrev ShouldFailWhenLeaseSizeExceedsQuota : Type 0
ShouldFailWhenLeaseSizeExceedsQuota =
    FailsWith (json "lease_size must be in 1..=quota") "tests/fixtures/invalid_lease_size.json"

all_pass :
    ShouldCreateConfigFromFile × ShouldFailWhenFileDoesNotExist
    × ShouldFailWhenConfigHasInvalidFormat × ShouldFailWhenLeaseSizeExceedsQuota
unfolding get try_into try_from
all_pass = (refl, refl, refl, refl)
