-- ===== src/Http/App.antt =====
-- crates/http-adapter/src/app.rs: `start_http`, over the socket and the server of the framework.
use Prim.Native.String
use Prim.Native.String.{String}
use that_limit.Prelude.{Bool, Option, none, some, if◌then◌else◌}

-- How a server ends: by the signal, or by a panic.
pub data Exit : Type 0 where
  shut_down panicked : Exit

abbrev pub unwrap_or : Option String → String → String
unwrap_or none s = s
unwrap_or (some t) s = t

-- `serve` tells whether the framework serves without an error until the signal.
abbrev pub run_server {ℓ} : {L : Type ℓ} → (L → Bool) → Option L → Exit
run_server serve none = panicked
run_server serve (some l) = if serve l then shut_down else panicked

-- `bind` gives the listener for an address.
unfoldable pub start_http {ℓ} :
    {L : Type ℓ} → (String → Option String) → (String → Option L) → (L → Bool) → Exit
start_http var bind serve =
    run_server serve (bind (String.◌++◌ "0.0.0.0:" (unwrap_or (var "HTTP_PORT") "8000")))
