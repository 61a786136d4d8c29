-- ===== src/Lib.antt =====
-- that-limit: a rate limit service. Each request counts against a bucket; an instance leases tokens
-- for it from Redis and spends them locally.
--
-- Parts of the program, and the files that model them:
-- * crates/core/src/bucket.rs (`Id`, here `BucketId`, and `Bucket`): Bucket.antt,
--   Bucket/Laws.antt; the equality of ids: Bucket/Ids.antt.
-- * crates/core/src/config.rs (`Policy`, `Config`, `get`): Config.antt, Config/Laws.antt.
-- * crates/cache (`Script`, `Redis::eval`, `CacheConfig::env`, `connect`): Cache.antt. A script
--   is the function that its Lua text computes; its arguments are integers and stand for their
--   decimal text.
-- * crates/core/src/cache.rs (`to_key`, `LEASE_SCRIPT`, `RELEASE_SCRIPT`, `lease`, `release`):
--   Lease.antt. Lease/Keys, Script, Calls, Release, RoundTrip and Clock.antt are about the keys,
--   the first script, `lease`, the second script, both in turn, and the two clocks;
--   Lease/Gives.antt is about `release` whatever becomes of the call; Lease/Windows.antt with
--   Windows/ is the specification of the scripts, windows of tokens by key, and any runs of them
--   against it.
-- * crates/core/src/store.rs. `Store::consume`, `ensure_refilled`, `lease` and `check` are in
--   Store.antt one machine, `advance`, whose states (`Task`) are the points between two accesses to
--   shared memory: `check` (checking), `refills.entry` (claiming), the call of Redis (leasing), the
--   change of `buckets` (settling), `refills.remove` and `notify_waiters` (waking), `notified()`
--   (arming) and its `await` (waiting), the rest of `consume` (spending, dropping). Store/Alone,
--   Answers and Window.antt are about one call at a time; Session.antt with Session/ is about any
--   number of calls of one instance for one id against a counter. Store/Background.antt is the task
--   that `Store::new` spawns, Store/Background/Cleanup.antt is about the branch of a tick as a
--   whole, and Store/Background/Worker.antt makes the task a machine too, `work`, whose states
--   (`Worker`) are the points between two accesses: `select!` (selecting), the chunks of
--   `buckets.remove` (removing) and of `release` (returning), and the end of the loop (reporting).
--   Store/Background/Frame.antt is about what it leaves alone.
-- * The same code with any number of instances and calls, interleaved in any order: System.antt;
--   `step` is a step of a call and `tend` one of a background task. System/SingleFlight, Gone,
--   LostWakeup and Race.antt are about calls that meet, System/Wakeup.antt with Wakeup/ about calls
--   that wait for the leader of their id, and whether they can finish, System/ZeroReset.antt about
--   a policy that resets at once, System/Dropped.antt about a bucket that is removed too late,
--   System/Stuck.antt about an exhausted bucket that is never removed;
--   System/Ledger.antt with Ledger/ counts the tokens of a window that the calls get and spend,
--   that the background tasks send back, and that the entry in Redis gets back from them;
--   System/Quota.antt with Quota/ holds them against the quota, and System/Spending.antt joins the
--   two.
-- * crates/server/src/main.rs (`main`, `shutdown_signal`) and crates/core/src/integration.rs
--   (`Command`): Server.antt, one server of the system with its channel. `signal_step` is a step of
--   `shutdown_signal`, whose states (`Signal`) are the points at which it waits, and `work_step`
--   one of the background task that gets its commands from the channel. Server/Channel.antt is
--   about the messages, Server/Phases, Moves and Order.antt about the order of a shutdown,
--   Server/Chunks.antt and Stops.antt with Stops/ about its end, Server/Panics.antt about an
--   interval of 0, and Server/History.antt relates it to System.antt; Server/Start.antt is `main`
--   from the environment to the start of the server, and Server/Program.antt the whole of `main`.
-- * crates/http-adapter (extractor.rs, middleware.rs, store.rs, lib.rs, app.rs): Http.antt and
--   Http/. crates/envoy-adapter (store.rs, lib.rs, app.rs): Envoy.antt and Envoy/. Both take what
--   the store does as an argument; Serving.antt with Serving/ puts the store behind them, and is
--   about whole sequences of requests, Serving/Agree.antt about the same ones over both.
--   Http/App.antt and Envoy/App.antt are `start_http` and `start_envoy`.
-- * Prelude.antt and Prelude/: numbers, integers, results, families; Duration.antt: durations and
--   instants in nanoseconds. Tests.antt and Tests/: tests, and the theorems at concrete inputs;
--   Tests/Scenarios.antt with Scenarios/: the tests of crates/core, http-adapter and envoy-adapter,
--   with the helpers of crates/test-utils, run on the model over a platform in memory. The parser
--   of an address is there a table of the well-formed addresses of these tests, and the decoder
--   knows their token.
--
-- What is not in the repository is a parameter. Redis (Redis.antt): its commands and Lua's numbers,
-- with their documented behaviour as laws over the live entry of a key; numbers above 2^53, which
-- Lua does not hold exactly, are left open, and so is the very millisecond of an expiry. DashMap
-- (DashMap.antt): lookup, insertion, removal, a write through a guard, iteration, each one atomic
-- access. Platform.antt joins them with the text of an address. tokio's broadcast channel
-- (Broadcast.antt): each receiver gets what is sent after it subscribed, in order, as long as it
-- does not lag behind by more than the capacity. Redis/InMemory, DashMap/Assoc, Platform/InMemory
-- and Broadcast/InMemory.antt meet these laws. The parser of an address, the decoder of a token and
-- the readers of a file and of JSON are function arguments, as are in Server/Program.antt the
-- environment (after dotenv), the logger, the client of Redis, the socket and the framework's
-- server, by whether they succeed. `notified().await` goes on exactly if `notify_waiters` was
-- called after `notified()`, as tokio documents it.
--
-- Time and the fate of each call of Redis are inputs of each step. Counters are natural numbers:
-- the code never lets `tokens` wrap, and `Instant` arithmetic is taken not to overflow. No
-- definition runs on fuel: `run` goes through a list of moments, and `advance` makes one step.
--
-- Not modelled: logging, metrics of the shards, what the frameworks' servers do with a connection
-- and with bodies, `Display` for an id (only logged), the getters (they are fields). That a server
-- answers no more after `shutdown_signal` has returned is up to its framework. The iteration over a
-- map is one access. In the branch of a tick as a whole the chunks, which only remove keys, go one
-- after another; in Store/Background/Worker.antt all chunks run side by side. A request whose
-- `Authorization` header the framework itself refuses does not reach the modelled code.
pub mod Prelude
pub mod Duration
pub mod Bucket
pub mod Broadcast
pub mod Server
pub mod Session
pub mod Serving
pub mod Config
pub mod Redis
pub mod Cache
pub mod Lease
pub mod DashMap
pub mod Platform
pub mod Store
pub mod System
pub mod Http
pub mod Envoy
pub mod Tests
