-- ===== src/System/Ledger/Shutdown.antt =====
-- What the background task returns between the command to shut down and its report.
use that_limit.Prelude.{ℕ, ◌+◌, Bool, true, false, Option, none, some, List, [], ◌∷◌, if◌then◌else◌}
use that_limit.Duration.{Instant}
use that_limit.Bucket.{BucketId, Bucket, is_expired}
use that_limit.Platform.{Platform}
use that_limit.Store.{Store, Moment}
use that_limit.Store.Background.Worker.{
  Worker, selecting, returning, reporting, ended, Wake, shut_down, work,
}
use that_limit.System.Ledger.{of_window, returned}

-- The task has had the command.
abbrev is_closing : Worker → Bool
is_closing (returning _) = true
is_closing reporting = true
is_closing ended = true
is_closing _ = false

-- It has gone through all its chunks.
abbrev pub is_done : Worker → Bool
is_done reporting = true
is_done ended = true
is_done _ = false

-- What is due to the window that ends at `w`, of a bucket at a time.
abbrev pub due : ℕ → Instant → Option Bucket → ℕ
due w now none = 0
due w now (some b) = if is_expired now b then 0 else of_window w b.window b.tokens

module _ (id : BucketId) (w : ℕ) where
  module _ (p : Platform) where
    open p use {redis, buckets as bucket_map}

    -- A step of the task: the chunk that makes it, the moment, and what the other tasks have made
    -- of Redis and of the store by then.
    pub record Turn : Type 0 where
      pub wake : Wake
      pub chunk : ℕ
      pub moment : Moment p
      pub world : redis.Db × Store p

    abbrev pub turned : Turn → Worker → Worker
    turned t v = (work p t.wake t.chunk t.moment t.world v).1

    abbrev pub drain : List Turn → Worker → Worker
    drain [] v = v
    drain (t ∷ ts) v = drain ts (turned t v)

    -- What it sends back for the id and the window.
    abbrev pub sent : List Turn → Worker → ℕ
    sent [] v = 0
    sent (t ∷ ts) v = returned id w t.chunk v + sent ts (turned t v)

    module _ (c : ℕ) (m : Moment p) (db : redis.Db) (s : Store p) where
      abbrev pub commanded : Worker
      commanded = (work p shut_down c m (db, s) selecting).1
