-- ===== src/Bucket/Ids.antt =====
-- `bucket::Id` as a key: its derived equality decides paths.
use text.Mathlib.Text.{◌==◌ as str_eq}
use text.Mathlib.TextEquality.{eq_iff}
use that_limit.Prelude.{◌≡◌, ◌↔◌, refl, ◌==◌, Bool, true, false, arith}
use that_limit.Bucket.{BucketId, public, protected, IpAddr, v4, v6}

-- `#[derive(PartialEq)]` of `IpAddr` and of bucket ids
abbrev pub ip_eq : IpAddr → IpAddr → Bool
ip_eq (v4 a) (v4 b) = a == b
ip_eq (v6 a) (v6 b) = a == b
ip_eq _ _ = false

unfoldable pub id_eq : BucketId → BucketId → Bool
id_eq (public a) (public b) = ip_eq a b
id_eq (protected s) (protected t) = str_eq s t
id_eq _ _ = false

pub ip_eq_iff : (a b : IpAddr) → (ip_eq a b ≡ true) ↔ (a ≡ b)
ip_eq_iff (v4 a) (v4 b) = ground arith
ip_eq_iff (v6 a) (v6 b) = ground arith
ip_eq_iff (v4 a) (v6 b) = ground arith
ip_eq_iff (v6 a) (v4 b) = ground arith

pub id_eq_iff : (a b : BucketId) → (id_eq a b ≡ true) ↔ (a ≡ b)
unfolding id_eq
id_eq_iff (public a) (public b) = ground (arith, ip_eq_iff a b)
id_eq_iff (protected s) (protected t) = ground (arith, eq_iff s t)
id_eq_iff (public a) (protected t) = ground arith
id_eq_iff (protected s) (public b) = ground arith

pub id_eq_refl : (a : BucketId) → id_eq a a ≡ true
id_eq_refl a = (id_eq_iff a a).1 refl
