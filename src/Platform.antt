-- ===== src/Platform.antt =====
-- The third-party code that the store stands on, as one parameter: the Redis server, the two
-- `DashMap`s, and the text of an address.
pub mod InMemory
use that_limit.Prelude.{ℕ, ◌≡◌, String}
use that_limit.Bucket.{Bucket, IpAddr}
use that_limit.Redis.{Redis}
use that_limit.DashMap.{DashMap}

pub record Platform : Type 1 where
  pub redis : Redis
  pub buckets : DashMap Bucket
  pub refills : DashMap ℕ
  pub show_ip : IpAddr → String
  pub show_ip-injective : (a b : IpAddr) → show_ip a ≡ show_ip b → a ≡ b
