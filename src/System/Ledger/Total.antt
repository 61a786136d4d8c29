-- ===== src/System/Ledger/Total.antt =====
-- The books of all instances together.
use mathlib.Core.Path.{subst}
use that_limit.Prelude.{
  sym, ap, ◌∙◌, ℕ, zero, suc, ◌+◌, ◌≤◌, ◌<◌, ◌==◌, ◌≡◌, ◌≢◌, refl, true, false, if◌then◌else◌,
  ℕ_discrete, dec_lt, arith,
}
use that_limit.Bucket.{BucketId}
use that_limit.Config.{Config}
use that_limit.Platform.{Platform}
use that_limit.Store.{Moment}
use that_limit.Store.Background.Worker.{Wake}
use that_limit.System.{System, init, tend, Reach, here, next, background}
use that_limit.System.SingleFlight.{single_flight}
use that_limit.System.Ledger.{
  tally, tally_at, gets, spends, returns, no_call, no_return, total_taken, total_spent,
  total_returned,
}
use that_limit.System.Ledger.Local.{
  IsBalanced, step-IsBalanced_here, step-IsBalanced_elsewhere, tend-IsBalanced_here,
  tend-IsBalanced_elsewhere,
}

eq→== : (a b : ℕ) → a ≡ b → (a == b) ≡ true
eq→== a b h = ground arith

ne→== : (a b : ℕ) → a ≢ b → (a == b) ≡ false
ne→== a b h = ground arith

-- The sum over the first `n` instances.
abbrev sum_below : ℕ → (ℕ → ℕ) → ℕ
sum_below zero f = 0
sum_below (suc n) f = sum_below n f + f n

sum_below-le : (n : ℕ) (f g : ℕ → ℕ) → ((k : ℕ) → f k ≤ g k) → sum_below n f ≤ sum_below n g
sum_below-le zero f g h = omega arith
sum_below-le (suc n) f g h = omega (arith, sum_below-le n f g h, h n)

-- A step of the instance `h` is counted once.
sum_below-add_outside :
    (n : ℕ) (f : ℕ → ℕ) (h x : ℕ)
    → n ≤ h
    → sum_below n (λ k. f k + (if h == k then x else 0)) ≡ sum_below n f
sum_below-add_outside zero f h x le = refl
sum_below-add_outside (suc n) f h x le = ground (arith, sum_below-add_outside n f h x)

sum_below_zero : (n : ℕ) → sum_below n (λ _. 0) ≡ 0
sum_below_zero zero = refl
sum_below_zero (suc n) = omega (arith, sum_below_zero n)

sum_below-add_zero :
    (n : ℕ) (f : ℕ → ℕ) (h : ℕ) → sum_below n (λ k. f k + (if h == k then 0 else 0)) ≡ sum_below n f
sum_below-add_zero zero f h = refl
sum_below-add_zero (suc n) f h = ground (arith, sum_below-add_zero n f h)

sum_below-add :
    (n : ℕ) (f : ℕ → ℕ) (h x : ℕ)
    → h < n
    → sum_below n (λ k. f k + (if h == k then x else 0)) ≡ sum_below n f + x
sum_below-add zero f h x lt = absurd (omega arith)
sum_below-add (suc n) f h x lt = elim (ℕ_discrete h n) [
  | yes e ↦ ground (arith, sum_below-add_outside n f h x)
  | no ne ↦ ground (arith, sum_below-add n f h x)
]

module _ (p : Platform) (home : ℕ → ℕ) where
  -- What the calls add up to is the sum over the instances.
  tally-calls :
      (n : ℕ) (call : System p → ℕ → Moment p → ℕ) {s t : System p} (r : Reach p home s t)
      → ((i : ℕ) → home i < n)
      → sum_below n (λ k. tally_at p home k call (no_return p home) r)
        ≡ tally p home call (no_return p home) r
  unfolding tally
  tally-calls n call here few = sum_below_zero n
  tally-calls n call (next {t} r i m le) few =
      sum_below-add n (λ k. tally_at p home k call (no_return p home) r) (home i) (call t i m)
        (few i)
      ∙ ap (λ x. x + call t i m) (tally-calls n call r few)
  tally-calls n call (background {t} r h wake c m le) few =
      sum_below-add_zero n (λ k. tally_at p home k call (no_return p home) r) h
      ∙ tally-calls n call r few
      ∙ sym (omega arith)

  module _ (id : BucketId) (w : ℕ) (config : Config) (db : p.redis.Db) (clock : ℕ)
      (ids : ℕ → BucketId) where
    init-IsBalanced : (k : ℕ) → IsBalanced id w p home k 0 0 0 (init p config db clock ids)
    init-IsBalanced k = record {
      owns = ground (arith, p.buckets.get-empty id);
      owns_held = λ i e. ground (arith, p.buckets.get-empty id);
      gives = ground arith;
      gives_once = λ h. refl;
    }

    at_counts :
        (k : ℕ) {recv recv' spen spen' ret ret' : ℕ} {s : System p}
        → IsBalanced id w p home k recv spen ret s
        → recv ≡ recv'
        → spen ≡ spen'
        → ret ≡ ret'
        → IsBalanced id w p home k recv' spen' ret' s
    at_counts k v e e' e'' = rw (← e, ← e', ← e'') v

    pub Reach-IsBalanced :
        (k : ℕ) {s : System p} (r : Reach p home (init p config db clock ids) s)
        → IsBalanced id w p home k
            (tally_at p home k (gets p home id w) (no_return p home) r)
            (tally_at p home k (spends p home id w) (no_return p home) r)
            (tally_at p home k (no_call p home) (returns p home id w) r)
            s
    unfolding tally
    Reach-IsBalanced k here = init-IsBalanced k
    Reach-IsBalanced k (next {t} r i m le) =
        let v = Reach-IsBalanced k r in
        elim (ℕ_discrete (home i) k) [
          | yes e ↦
              at_counts k
                (step-IsBalanced_here id w p home k _ _ _ t v i m
                  (λ j. single_flight p home r i j id) e)
                (ground arith) (ground arith) (ground arith)
          | no ne ↦
              at_counts k
                (step-IsBalanced_elsewhere id w p home k _ _ _ t v i m
                  (λ j. single_flight p home r i j id) ne)
                (ground arith) (ground arith) (ground arith)
        ]
    Reach-IsBalanced k (background {t} r h wake c m le) =
        let v = Reach-IsBalanced k r in
        elim (ℕ_discrete h k) [
          | yes e ↦
              at_counts k
                (subst
                  (λ j.
                    IsBalanced id w p home k
                      (tally_at p home k (gets p home id w) (no_return p home) r)
                      (tally_at p home k (spends p home id w) (no_return p home) r)
                      (tally_at p home k (no_call p home) (returns p home id w) r
                        + returns p home id w t k c)
                      (tend p home t j wake c m))
                  (sym e) (tend-IsBalanced_here id w p home k _ _ _ t v wake c m))
                (ground arith) (ground arith) (ground arith)
          | no ne ↦
              at_counts k (tend-IsBalanced_elsewhere id w p home k _ _ _ t v wake c m h ne)
                (ground arith) (ground arith) (ground arith)
        ]

    -- An instance that serves no call gets nothing, and so returns nothing.
    nothing_got :
        (h : ℕ) {s t : System p} (r : Reach p home s t)
        → ((i : ℕ) → home i ≢ h)
        → tally_at p home h (gets p home id w) (no_return p home) r ≡ 0
    unfolding tally
    nothing_got h here ne = refl
    nothing_got h (next {t} r i m le) ne = ground (arith, nothing_got h r ne, ne i)
    nothing_got h (background {t} r k wake c m le) ne = ground (arith, nothing_got h r ne)

    nothing_returned :
        {s : System p} (r : Reach p home (init p config db clock ids) s) (h : ℕ) (wake : Wake)
        (c : ℕ) (m : Moment p)
        → ((i : ℕ) → home i ≢ h)
        → returns p home id w s h c ≡ 0
    nothing_returned {s} r h wake c m ne =
        let v = Reach-IsBalanced h r in
        let v' = tend-IsBalanced_here id w p home h _ _ _ s v wake c m in
        omega (arith, v'.gives, nothing_got h r ne)

    tally-returns :
        (n : ℕ) {s : System p} (r : Reach p home (init p config db clock ids) s)
        → ((i : ℕ) → home i < n)
        → sum_below n (λ k. tally_at p home k (no_call p home) (returns p home id w) r)
          ≡ tally p home (no_call p home) (returns p home id w) r
    unfolding tally
    tally-returns n here few = sum_below_zero n
    tally-returns n (next {t} r i m le) few =
        sum_below-add_zero n (λ k. tally_at p home k (no_call p home) (returns p home id w) r)
          (home i)
        ∙ tally-returns n r few
        ∙ sym (omega arith)
    tally-returns n (background {t} r h wake c m le) few = elim (dec_lt h n) [
      | yes lt ↦
          sum_below-add n (λ k. tally_at p home k (no_call p home) (returns p home id w) r) h
            (returns p home id w t h c) lt
          ∙ ap (λ x. x + returns p home id w t h c) (tally-returns n r few)
      | no far ↦
          let nothing = nothing_returned r h wake c m (λ i. omega (arith, few i)) in
          sum_below-add_outside n (λ k. tally_at p home k (no_call p home) (returns p home id w) r)
            h (returns p home id w t h c) (omega arith)
          ∙ tally-returns n r few
          ∙ omega (arith, nothing)
    ]

    -- If the instances are finitely many, then in every history, cleanup and shutdown included, the
    -- calls of all instances together spend at most the tokens of a window that they have got.
    pub spent-le-taken :
        (n : ℕ) {s : System p} (r : Reach p home (init p config db clock ids) s)
        → ((i : ℕ) → home i < n)
        → total_spent p home id w r ≤ total_taken p home id w r
    spent-le-taken n r few = omega (
      arith,
      tally-calls n (spends p home id w) r few,
      tally-calls n (gets p home id w) r few,
      sum_below-le n (λ k. tally_at p home k (spends p home id w) (no_return p home) r)
          (λ k. tally_at p home k (gets p home id w) (no_return p home) r)
          (λ k. omega (arith, (Reach-IsBalanced k r).owns)),
    )

    pub returned-le-taken :
        (n : ℕ) {s : System p} (r : Reach p home (init p config db clock ids) s)
        → ((i : ℕ) → home i < n)
        → total_returned p home id w r ≤ total_taken p home id w r
    returned-le-taken n r few = omega (
      arith,
      tally-returns n r few,
      tally-calls n (gets p home id w) r few,
      sum_below-le n (λ k. tally_at p home k (no_call p home) (returns p home id w) r)
          (λ k. tally_at p home k (gets p home id w) (no_return p home) r)
          (λ k. omega (arith, (Reach-IsBalanced k r).gives)),
    )
