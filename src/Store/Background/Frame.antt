-- ===== src/Store/Background/Frame.antt =====
-- What a step of the background task leaves as it was.
use that_limit.Prelude.{ℕ, ◌≡◌, arith}
use that_limit.Platform.{Platform}
use that_limit.Store.{Store, Moment}
use that_limit.Store.Background.Worker.{Worker, Wake, work}

module _ (p : Platform) where
  open p use {redis}

  -- The refills, the calls of `notify_waiters` and the configuration.
  pub record KeepsRefills (s s' : Store p) : Type 0 where
    pub refills : s'.refills ≡ s.refills
    pub wakes : s'.wakes ≡ s.wakes
    pub next : s'.next ≡ s.next
    pub config : s'.config ≡ s.config

  -- Every step of the background task leaves these as they were.
  pub work-KeepsRefills :
      (wake : Wake) (c : ℕ) (m : Moment p) (db : redis.Db) (s : Store p) (v : Worker)
      → KeepsRefills s (work p wake c m (db, s) v).0.1
  unfolding work
  work-KeepsRefills wake c m db s v = record {
    refills = ground arith;
    wakes = ground arith;
    next = ground arith;
    config = ground arith;
  }
