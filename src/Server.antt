-- ===== src/Server.antt =====
-- crates/server/src/main.rs: the task that waits for a signal of the operating system, tells the
-- background task to shut down, and lets the server stop; crates/core/src/integration.rs: the
-- commands between the two. One server of the system, among the others.
pub mod History
pub mod Start
pub mod Program
pub mod Channel
pub mod Phases
pub mod Moves
pub mod Order
pub mod Panics
pub mod Chunks
pub mod Stops
use that_limit.Prelude.{ℕ, zero, suc, ◌≤◌, ◌≡◌, ◌≢◌, Option, none, some, if◌then◌else◌}
use that_limit.Bucket.{BucketId}
use that_limit.Broadcast.{Broadcast}
use that_limit.Config.{Config}
use that_limit.DashMap.{map_some}
use that_limit.Platform.{Platform}
use that_limit.Store.{Moment}
use that_limit.Store.Background.Worker.{
  Worker, selecting, removing, returning, reporting, ended, tick, shut_down, Wake,
}
use that_limit.System.{System, init, step, tend}

-- `Command`
pub data Command : Type 0 where
  shutdown cleanup_complete : Command

-- Where `shutdown_signal` stands. Once it is `stopped`, the server shuts down.
pub data Signal : Type 0 where
  subscribing : Signal
  listening : Signal  -- in `select!` for a signal of the operating system
  announcing : Signal  -- before it sends `Shutdown`
  awaiting : Signal  -- in the loop
  ticking : Signal  -- in the loop, where `recv` has given another command: only the interval is left
  stopped : Signal

-- The branch of a `select!` that is ready: the interval, or what else it waits for.
pub data Ready : Type 0 where
  ticked received : Ready

module _ (p : Platform) (b : Broadcast Command) where
  -- The sender of the instance is there if cleanup is enabled.
  pub record Server : Type 0 where
    pub system : System p
    pub tx : Option b.Channel
    pub signal : Signal

  -- `main` up to the start of the server: the background task of `Store::new` has subscribed.
  unfoldable pub main : Config → p.redis.Db → ℕ → (ℕ → BucketId) → Server
  main config db clock ids = record {
    system = init p config db clock ids;
    tx = if config.cleanup.enabled then some (b.subscribe (b.channel 10)) else none;
    signal = subscribing;
  }

  after_recv : Option Command → Signal
  after_recv none = awaiting
  after_recv (some shutdown) = ticking
  after_recv (some cleanup_complete) = stopped

  -- A step of `shutdown_signal` with a sender. Its receiver is the second one.
  pub shutdown_signal : b.Channel → Ready → Signal → b.Channel × Signal
  unfolding after_recv
  shutdown_signal c ready subscribing = (b.subscribe c, listening)
  shutdown_signal c received listening = (c, announcing)
  shutdown_signal c ticked listening = (c, listening)
  shutdown_signal c ready announcing = (b.send c shutdown, awaiting)
  shutdown_signal c received awaiting = let (command, c') = b.recv c 1 in (c', after_recv command)
  shutdown_signal c ticked awaiting = (c, awaiting)
  shutdown_signal c ticked ticking = (c, awaiting)
  shutdown_signal c received ticking = (c, ticking)
  shutdown_signal c ready stopped = (c, stopped)

  -- Without a sender it returns at once.
  signal_with : Option b.Channel → Ready → Signal → Option b.Channel × Signal
  unfolding shutdown_signal
  signal_with none ready signal = (none, stopped)
  signal_with (some c) ready signal =
      let (c', signal') = shutdown_signal c ready signal in (some c', signal')

  unfoldable pub signal_step : Server → Ready → Server
  unfolding signal_with
  signal_step s ready =
      let (tx', signal') = signal_with s.tx ready s.signal in
      record s { tx = tx'; signal = signal' }

  -- What the background task's `select!` goes on with, when its receiver has been polled.
  pub heard : Option Command → Option Wake
  heard (some shutdown) = some shut_down
  heard _ = none

  module _ (home : ℕ → ℕ) (h : ℕ) where
    abbrev tended : Server → Wake → ℕ → Moment p → System p
    tended s wake c m = tend p home s.system h wake c m

    -- Another command, or none, leaves the task in its `select!`.
    go_on : Server → ℕ → Moment p → b.Channel → Option Wake → Server
    go_on s c m ch none = record s { tx = some ch }
    go_on s c m ch (some wake) = record s { system = tended s wake c m; tx = some ch }

    select : Server → Ready → ℕ → Moment p → b.Channel → Server
    unfolding go_on heard
    select s ticked c m ch = record s { system = tended s tick c m }
    select s received c m ch = let (command, ch') = b.recv ch 0 in go_on s c m ch' (heard command)

    work_at : Server → Ready → ℕ → Moment p → b.Channel → Worker → Server
    unfolding select
    work_at s ready c m ch selecting = select s ready c m ch
    work_at s ready c m ch reporting = record s {
      system = tended s tick c m;
      tx = some (b.send ch cleanup_complete);
    }
    work_at s ready c m ch _ = record s { system = tended s tick c m }

    -- Without a sender there is no background task.
    work_with : Server → Ready → ℕ → Moment p → Option b.Channel → Server
    unfolding work_at
    work_with s ready c m none = s
    work_with s ready c m (some ch) = work_at s ready c m ch (s.system.workers h)

    -- A step of the background task of this server, over the commands. Its receiver is the first.
    unfoldable pub work_step : Server → Ready → ℕ → Moment p → Server
    unfolding work_with
    work_step s ready c m = work_with s ready c m s.tx

    -- Any call of any instance, the background task of any other one, or one of the two tasks of
    -- this server may be next.
    pub data Reach (s : Server) : Server → Type 0 where
      here : Reach s s
      call :
          {t : Server}
          → Reach s t
          → (i : ℕ) (m : Moment p) → t.system.clock ≤ m.exchange.server_time
          → Reach s (record t { system = step p home t.system i m })
      elsewhere :
          {t : Server}
          → Reach s t
          → (k : ℕ) → h ≢ k
          → (wake : Wake) (c : ℕ) (m : Moment p) → t.system.clock ≤ m.exchange.server_time
          → Reach s (record t { system = tend p home t.system k wake c m })
      background :
          {t : Server}
          → Reach s t
          → (ready : Ready) (c : ℕ) (m : Moment p) → t.system.clock ≤ m.exchange.server_time
          → Reach s (work_step t ready c m)
      signalling : {t : Server} → Reach s t → (ready : Ready) → Reach s (signal_step t ready)
