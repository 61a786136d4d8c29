-- ===== src/Lease/Windows/Replay.antt =====
-- Any sequence of runs of the two scripts against the windows.
use that_limit.Redis.{Redis}
use that_limit.Lease.Windows.{Windows}
