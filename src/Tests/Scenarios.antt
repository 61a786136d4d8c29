-- ===== src/Tests/Scenarios.antt =====
-- The repository's own tests, run on the model over a platform in memory. A test is a Boolean, the
-- conjunction of what it asserts; a call makes all its steps within its millisecond.
mod OverHttp
mod OverEnvoy
mod OverCore
pub mod Loading
use Prim.Native.String.{String}
use text.Mathlib.Text.{◌==◌ as str_eq}
use that_limit.Prelude.{ℕ, Option, none, some, List, [], ◌∷◌, if◌then◌else◌}
use that_limit.Bucket.{IpAddr, v4, v6}
use that_limit.Config.{Config}
use that_limit.Platform.InMemory.{memory}
use that_limit.Redis.InMemory.{in_memory}
use that_limit.Store.{Store, Moment}
use that_limit.System
use that_limit.Tests.Data.{empty_db, moment}

-- Redis and one instance.
abbrev pub World : Type 0
World = in_memory.Db × Store memory

-- `init_store` of test-utils: a new Redis and a new store.
abbrev pub init_store : Config → World
init_store cfg = (empty_db, System.new memory cfg)

abbrev pub at : ℕ → List (Moment memory)
at t = moment t ∷ moment t ∷ moment t ∷ moment t ∷ moment t ∷ moment t ∷ []

abbrev pub test_domain : String
test_domain = "test-app"

-- `IpAddr::from_str`, on the addresses that the tests know to be well formed.
abbrev pub from_str : String → Option IpAddr
from_str s =
    if str_eq s "89.28.75.89"
    then some (v4 0x591C4B59)
    else if str_eq s "89.75.28.89"
    then some (v4 0x594B1C59)
    else if str_eq s "28.75.89.89"
    then some (v4 0x1C4B5959)
    else if str_eq s "::ffff:192.0.2.128"
    then some (v6 0xFFFFC0000280)
    else if str_eq s "fe80::1"
    then some (v6 0xFE800000000000000000000000000001)
    else none
