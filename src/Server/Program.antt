-- ===== src/Server/Program.antt =====
-- crates/server/src/main.rs: `main` from the first line to the last, and how it ends.
use Prim.Native.String.{String}
use that_limit.Prelude.{ℕ, Bool, true, false, Option, none, some, List, Result, ok, ◌>>=◌}
use that_limit.Bucket.{BucketId}
use that_limit.Broadcast.{Broadcast}
use that_limit.Cache.{connect}
use that_limit.Config.{Config, RawConfig}
use that_limit.Platform.{Platform}
use that_limit.Http.App.{Exit, panicked, unwrap_or, start_http}
use that_limit.Envoy.App.{start_envoy}
use that_limit.Server.{Command, Server, main}
use that_limit.Server.Start.{Error, load, redis_config}

-- The adapter that the program is built with.
pub data Feature : Type 0 where
  http envoy : Feature

-- `LevelFilter`, by what the program uses of it.
abbrev pub or_info : {L : Type 0} → Option L → L → L
or_info none info = info
or_info (some level) info = level

module _ (var : String → Option String) where
  -- `init_logger`, which expects `TermLogger::init` to succeed.
  unfoldable pub init_logger : {L : Type 0} → (String → Option L) → L → (L → Bool) → Bool
  init_logger level_from_str info init =
      init (or_info (level_from_str (unwrap_or (var "RUST_LOG") "info")) info)

  -- The adapter that is built in. `bind` gives the listener for an address, and `parse` reads an
  -- address; the server of Envoy's framework binds it itself.
  module _ {L A : Type 0} (bind : String → Option L) (parse : String → Option A) where
    unfoldable pub adapter : Feature → (L → Bool) → (A → Bool) → Exit
    adapter http serve serve_at = start_http var bind serve
    adapter envoy serve serve_at = start_envoy var parse serve_at

    module _ (read : String → Option (List ℕ)) (from_slice : List ℕ → Result String RawConfig)
        (p : Platform) (b : Broadcast Command) (parse_u16 : String → Option ℕ) (clock : ℕ)
        (ids : ℕ → BucketId) (to_string : ℕ → String) {C : Type 0} (open_client : String → Option C)
        (get_connection_manager : C → Option p.redis.Db) (feature : Feature)
        (serve : Server p b → L → Bool) (serve_at : Server p b → A → Bool) where
      -- What `main` does with Redis: `connect` panics if there is none. A server gets the store
      -- and, with it, the state of `shutdown_signal`, the future that it waits for.
      with_redis : Config → Option p.redis.Db → Exit
      with_redis config none = panicked
      with_redis config (some db) =
          let server = main p b config db clock ids in
          adapter feature (serve server) (serve_at server)

      abbrev connected : Option p.redis.Db
      connected =
          connect to_string open_client get_connection_manager
            (redis_config var read from_slice parse_u16)

      -- After `init_logger`.
      with_logger : Bool → Result Error Exit
      unfolding with_redis
      with_logger false = ok panicked
      with_logger true = do config ← load var read from_slice; ok (with_redis config connected)

      -- `var` is the environment after `dotenv`.
      unfoldable pub run_main :
          {L : Type 0} → (String → Option L) → L → (L → Bool) → Result Error Exit
      unfolding with_logger init_logger
      run_main level_from_str info init = with_logger (init_logger level_from_str info init)
