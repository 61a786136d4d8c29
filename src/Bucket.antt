-- ===== src/Bucket.antt =====
-- crates/core/src/bucket.rs: the identity of a limit and its local tokens.
pub mod Ids
pub mod Laws
use that_limit.Prelude.{
  ℕ, zero, suc, ◌+◌, ◌-◌, Bool, true, false, Option, none, some, String, leb, ◌==◌,
}
use that_limit.Prelude.Int.{ℤ}
use that_limit.Duration.{Duration, Instant}

-- `std::net::IpAddr`: the 32 or 128 bits of the address.
pub data IpAddr : Type 0 where
  v4 : ℕ → IpAddr
  v6 : ℕ → IpAddr

pub data BucketId : Type 0 where
  public : IpAddr → BucketId
  protected : String → BucketId

pub record Bucket : Type 0 where
  pub tokens : ℕ
  pub expires_at : Instant
  pub window : ℤ
  pub exhausted : Bool

-- `Bucket::new`, `now` being what `Instant::now()` gives.
unfoldable pub new : Instant → ℕ → Duration → ℤ → Bucket
new now tokens ttl window = record {
  tokens = tokens;
  expires_at = now + ttl;
  window = window;
  exhausted = false;
}

unfoldable pub is_empty : Bucket → Bool
is_empty b = b.tokens == 0

unfoldable pub is_expired : Instant → Bucket → Bool
is_expired now b = leb b.expires_at now

unfoldable pub set_exhausted : Bucket → Bucket
set_exhausted b = record b { exhausted = true }

-- `u64::checked_sub(1)`
abbrev pub checked_sub_one : ℕ → Option ℕ
checked_sub_one zero = none
checked_sub_one (suc n) = some n

-- `AtomicU64::try_update`: the old value if the function gives a new one, which is then stored.
try_update : (ℕ → Option ℕ) → Bucket → Bucket × Option ℕ
try_update f b = elim (f b.tokens) [
  | some n ↦ (record b { tokens = n }, some b.tokens)
  | none ↦ (b, none)
]

-- `Bucket::consume`: one atomic update of `tokens`, and what it returns.
unfoldable pub consume : Bucket → Bucket × ℕ
unfolding try_update
consume b =
    let (b', old) = try_update checked_sub_one b in (b', elim old [ none ↦ 0 | some n ↦ n - 1 ])
