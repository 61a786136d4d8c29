-- ===== src/Platform/InMemory.antt =====
-- A platform in memory: the assumptions of `Platform` can be met, and the tests run on it.
use Prim.Native.Char.{Char, code}
use Prim.Native.String.{String, [], ◌∷◌}
use text.Mathlib.TextLemmas.{head-eq_of_cons-eq, tail-eq_of_cons-eq, nil≢cons, cons≢nil}
use that_limit.Prelude.{ℕ, zero, suc, ◌%◌, ◌/◌, ◌+◌, ◌<◌, ◌≡◌, refl, ap, arith}
use that_limit.Bucket.{Bucket, IpAddr, v4, v6}
use that_limit.Redis.InMemory.{in_memory}
use that_limit.DashMap.Assoc.{assoc}
use that_limit.Platform.{Platform}

-- A text for every number, different for different ones: its low 128 bits, the lowest first, and
-- what is above them in unary.
abbrev strokes : ℕ → String
strokes zero = []
strokes (suc n) = "|" ∷ strokes n

strokes-injective : (m n : ℕ) → strokes m ≡ strokes n → m ≡ n
strokes-injective zero zero h = refl
strokes-injective zero (suc n) h = absurd (nil≢cons h)
strokes-injective (suc m) zero h = absurd (cons≢nil h)
strokes-injective (suc m) (suc n) h = ap suc (strokes-injective m n (tail-eq_of_cons-eq h))

abbrev digit : ℕ → Char
digit zero = "0"
digit (suc n) = "1"

code-digit : (n : ℕ) → n < 2 → code (digit n) ≡ 48 + n
code-digit zero h = refl
code-digit (suc zero) h = refl
code-digit (suc (suc n)) h = absurd (omega (arith, h))

abbrev bits : ℕ → ℕ → String
bits zero n = strokes n
bits (suc k) n = digit (n % 2) ∷ bits k (n / 2)

bits-injective : (k m n : ℕ) → bits k m ≡ bits k n → m ≡ n
bits-injective zero m n h = strokes-injective m n h
bits-injective (suc k) m n h = omega (
  arith,
  code-digit (m % 2) (omega arith),
  code-digit (n % 2) (omega arith),
  ap code (head-eq_of_cons-eq h),
  bits-injective k (m / 2) (n / 2) (tail-eq_of_cons-eq h),
)

abbrev pub show : IpAddr → String
show (v4 n) = "4" ∷ bits 128 n
show (v6 n) = "6" ∷ bits 128 n

pub show-injective : (a b : IpAddr) → show a ≡ show b → a ≡ b
show-injective (v4 m) (v4 n) h = ap v4 (bits-injective 128 m n (tail-eq_of_cons-eq h))
show-injective (v6 m) (v6 n) h = ap v6 (bits-injective 128 m n (tail-eq_of_cons-eq h))
show-injective (v4 m) (v6 n) h = absurd (omega (arith, ap code (head-eq_of_cons-eq h)))
show-injective (v6 m) (v4 n) h = absurd (omega (arith, ap code (head-eq_of_cons-eq h)))

abbrev pub memory : Platform
memory = record {
  redis = in_memory;
  buckets = assoc Bucket;
  refills = assoc ℕ;
  show_ip = show;
  show_ip-injective = show-injective;
}
