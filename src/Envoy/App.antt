-- ===== src/Envoy/App.antt =====
-- crates/envoy-adapter/src/app.rs: `start_envoy`, over the server of the framework.
use Prim.Native.String
use Prim.Native.String.{String}
use that_limit.Prelude.{Bool, Option}
use that_limit.Http.App.{Exit, unwrap_or, run_server}

-- `parse` reads a socket address.
unfoldable pub start_envoy {ℓ} :
    {A : Type ℓ} → (String → Option String) → (String → Option A) → (A → Bool) → Exit
start_envoy var parse serve =
    run_server serve (parse (String.◌++◌ "0.0.0.0:" (unwrap_or (var "ENVOY_PORT") "50051")))
