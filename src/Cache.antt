-- ===== src/Cache.antt =====
-- crates/cache: the client of Redis that runs Lua scripts (action.rs, lib.rs, config.rs).
use Prim.Native.String
use that_limit.Prelude.{ℕ, Option, none, some, String, List, [], ◌∷◌, ◌++◌, Result, ok, err}
use that_limit.Prelude.Int.{ℤ}
use that_limit.Redis.{Redis}

-- `redis::RedisError`, by kind: no connection or no reply, an error that the script raised, a reply
-- of the wrong type.
pub data RedisError : Type 0 where
  io response unexpected_type : RedisError

pub data Error : Type 0 where
  redis : RedisError → Error
  key_does_not_exist no_expiration unexpected not_found : String → Error

-- What a script returns.
pub data Reply : Type 0 where
  int : ℤ → Reply
  array : List ℤ → Reply

-- What becomes of one call: it never reaches the server, its reply is lost, or neither.
pub data Link : Type 0 where
  refused lost delivered : Link

module _ (r : Redis) where
  open r use {Db}

  -- The text of a script, as what it does: at the server's time, from `KEYS` and `ARGV`. It fails
  -- by an error of Lua or of a command, before it has written anything.
  abbrev pub Source : Type 0
  Source = Db → ℕ → List String → List ℤ → Option (Db × Reply)

  -- The arguments of our scripts are all integers, and stand for their decimal text.
  pub record Script (T : Type 0) : Type 0 where
    pub src : Source
    pub keys : List String
    pub args : List ℤ
    pub from_reply : Reply → Option T

  module _ {T : Type 0} where
    unfoldable pub new : Source → (Reply → Option T) → Script T
    new src from_reply = record { src = src; keys = []; args = []; from_reply = from_reply }

    unfoldable pub key : Script T → String → Script T
    key s k = record s { keys = s.keys ++ k ∷ [] }

    unfoldable pub arg : Script T → ℤ → Script T
    arg s a = record s { args = s.args ++ a ∷ [] }

    abbrev convert : Option T → Result Error T
    convert none = err (redis unexpected_type)
    convert (some t) = ok t

    abbrev receive : Script T → Db → Option (Db × Reply) → Db × Result Error T
    receive s db none = (db, err (redis response))
    receive s db (some (db', reply)) = (db', convert (s.from_reply reply))

    abbrev lose : Db → Option (Db × Reply) → Db × Result Error T
    lose db none = (db, err (redis io))
    lose db (some (db', reply)) = (db', err (redis io))

    -- `Redis::eval`, which is `Script::execute`: the server runs the script at the time `now`.
    unfoldable pub eval : Link → ℕ → Db → Script T → Db × Result Error T
    eval refused now db s = (db, err (redis io))
    eval lost now db s = lose db (s.src db now s.keys s.args)
    eval delivered now db s = receive s db (s.src db now s.keys s.args)

-- `CacheConfig`: where Redis is.
pub record CacheConfig : Type 0 where
  pub host : String
  pub port : ℕ

abbrev pub default : CacheConfig
default = record { host = "127.0.0.1"; port = 6379 }

abbrev port_or_default : Option ℕ → ℕ
port_or_default none = 6379
port_or_default (some p) = p

abbrev and_then {ℓ κ} : {A : Type ℓ} {B : Type κ} → Option A → (A → Option B) → Option B
and_then none f = none
and_then (some a) f = f a

-- `CacheConfig::env`, over `env::var` and the parser of `u16`.
unfoldable pub env : (String → Option String) → (String → Option ℕ) → Option CacheConfig
env var parse_u16 =
    let port = port_or_default (and_then (var "REDIS_PORT") parse_u16) in
    elim (var "REDIS_HOST") [ none ↦ none | some host ↦ some (record { host = host; port = port }) ]

-- `CacheConfig::connect`, over the two calls of the client library and the text of a port. Where
-- the code panics there is no connection.
unfoldable pub connect {ℓ κ} :
    {C : Type ℓ} {D : Type κ}
    → (ℕ → String)
    → (String → Option C)
    → (C → Option D)
    → CacheConfig
    → Option D
connect to_string open_client get_connection_manager c =
    let url = String.◌++◌ "redis://" (String.◌++◌ c.host (String.◌++◌ ":" (to_string c.port))) in
    and_then (open_client url) get_connection_manager
