-- ===== src/Prelude/Family.antt =====
-- Families indexed by numbers, and their replacement at one index.
use Prim.Native.Nat.{ℕ}
use mathlib.Core.Path.{sym, subst}
use mathlib.Core.Logic.{ite, if_pos, if_neg}
use native.Mathlib.Decide.{ℕ_discrete}

module _ {ℓ} {A : Type ℓ} (family : ℕ → A) (at : ℕ) (new : A) where
  -- The family with `new` at the index `at`.
  abbrev pub update : ℕ → A
  update i = ite (ℕ_discrete at i) new (family i)

pub update-all {ℓ κ} :
    {A : Type ℓ} (P : A → Type κ) (f : ℕ → A) (k : ℕ) (a : A)
    → ((i : ℕ) → P (f i))
    → P a
    → (i : ℕ) → P (update f k a i)
update-all P f k a all new i = elim (ℕ_discrete k i) [
  | yes e ↦ subst P (sym (if_pos (ℕ_discrete k i) e a (f i))) new
  | no e ↦ subst P (sym (if_neg (ℕ_discrete k i) e a (f i))) (all i)
]
