-- ===== src/System.antt =====
-- Several instances of the service over one Redis, with any number of calls of `consume` on each,
-- interleaved in any order: `Store::ensure_refilled` and `Store::consume` of
-- crates/core/src/store.rs under concurrency.
pub mod SingleFlight
pub mod Gone
pub mod LostWakeup
pub mod Wakeup
pub mod ZeroReset
pub mod Dropped
pub mod Stuck
pub mod Race
pub mod Ledger
pub mod Quota
pub mod Spending
use that_limit.Prelude.{ℕ, ◌≤◌, if◌then◌else◌, Option, none, List, []}
use that_limit.Prelude.Family.{update}
use that_limit.Bucket.{BucketId}
use that_limit.Config.{Config}
use that_limit.Platform.{Platform}
use that_limit.Store.{Task, checking, Store, Moment, advance}
use that_limit.Store.Background.Worker.{Worker, Wake, work}
use that_limit.Store.Background.Worker

module _ (p : Platform) where
  open p use {redis}

  -- `clock` is the latest time that Redis has shown, in ms.
  pub record System : Type 0 where
    pub db : redis.Db
    pub clock : ℕ
    pub stores : ℕ → Store p
    pub tasks : ℕ → Task
    pub workers : ℕ → Worker

  -- An instance as `Store::new` makes it.
  abbrev pub new : Config → Store p
  new config = record {
    config = config;
    buckets = p.buckets.empty;
    refills = p.refills.empty;
    wakes = λ _. 0;
    next = 0;
  }

  -- All instances have one configuration; the call `i` asks for the bucket `ids i`. Without cleanup
  -- there is no background task.
  abbrev pub init : Config → redis.Db → ℕ → (ℕ → BucketId) → System
  init config db clock ids = record {
    db = db;
    clock = clock;
    stores = λ _. new config;
    tasks = λ i. checking (ids i);
    workers = λ _. Worker.first config.cleanup;
  }

  -- `home i` is the instance that serves the call `i`.
  module _ (home : ℕ → ℕ) where
    unfoldable pub step : System → ℕ → Moment p → System
    step s i m =
        let ((db', store'), task') = advance p m (s.db, s.stores (home i)) (s.tasks i) in
        record {
          db = db';
          clock = m.exchange.server_time;
          stores = update s.stores (home i) store';
          tasks = update s.tasks i task';
          workers = s.workers;
        }

    -- A step of the background task of the instance `h`.
    unfoldable pub tend : System → ℕ → Wake → ℕ → Moment p → System
    tend s h wake c m =
        let ((db', store'), worker') = work p wake c m (s.db, s.stores h) (s.workers h) in
        record {
          db = db';
          clock = m.exchange.server_time;
          stores = update s.stores h store';
          tasks = s.tasks;
          workers = update s.workers h worker';
        }

    -- Any call or background task may be next; the time of Redis does not go back.
    pub data Reach (s : System) : System → Type 0 where
      here : Reach s s
      next :
          {t : System}
          → Reach s t
          → (i : ℕ) (m : Moment p) → t.clock ≤ m.exchange.server_time
          → Reach s (step t i m)
      background :
          {t : System}
          → Reach s t
          → (h : ℕ) (wake : Wake) (c : ℕ) (m : Moment p) → t.clock ≤ m.exchange.server_time
          → Reach s (tend t h wake c m)
