-- ===== src/Tests/Program.antt =====
-- How `main` ends.
use Prim.Native.String.{String}
use text.Mathlib.Text.{◌==◌ as str_eq}
use that_limit.Prelude.{
  ℕ, ◌==◌, ◌≡◌, refl, Bool, true, Option, none, some, Result, ok, false, if◌then◌else◌,
}
use that_limit.Broadcast.InMemory.{in_memory}
use that_limit.Redis.InMemory
use that_limit.Cache
use that_limit.Platform.InMemory.{memory}
use that_limit.Server.Start.{Error, load, redis_config}
use that_limit.Server.Program.{Feature, http, envoy, init_logger, adapter, run_main}
use that_limit.Envoy.App.{start_envoy}
use that_limit.Http.App.{Exit, start_http}
use that_limit.Config.{get, try_into, try_from}
use that_limit.Http.App.{shut_down, panicked}
use that_limit.Tests.Data.{alice, empty_db}
use that_limit.Tests.Scenarios.Loading.{read, from_slice}
use that_limit.Tests.Start.{var, parse_u16}

abbrev to_string : ℕ → String
to_string n = if n == 6379 then "6379" else "0"

-- Redis is at the default address, and new.
abbrev open_client : String → Option String
open_client url = if str_eq url "redis://127.0.0.1:6379" then some url else none

abbrev get_connection_manager : String → Option InMemory.in_memory.Db
get_connection_manager client = some empty_db

abbrev bind : String → Option String
bind address = if str_eq address "0.0.0.0:8000" then some address else none

abbrev level_from_str : String → Option ℕ
level_from_str s = if str_eq s "info" then some 3 else none

-- An address is read whatever its port; the second port cannot be bound.
abbrev parse : String → Option String
parse address = some address

abbrev run : Feature → (String → Bool) → Result Error Exit
run feature serve_at =
    run_main var bind parse read from_slice memory in_memory parse_u16 0 (λ _. alice) to_string
      open_client get_connection_manager feature (λ s l. true) (λ s a. serve_at a) level_from_str 0
      (λ level. level == 3)

all_ends :
    (run http (λ a. true) ≡ ok shut_down)
    × (run envoy (λ a. str_eq a "0.0.0.0:50051") ≡ ok shut_down)
    × (run envoy (λ a. false) ≡ ok panicked)
unfolding run_main init_logger load get try_into try_from Cache.connect redis_config Cache.env
    adapter start_http start_envoy
all_ends = (refl, refl, refl)
