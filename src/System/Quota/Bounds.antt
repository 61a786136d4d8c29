-- ===== src/System/Quota/Bounds.antt =====
-- What is left in the entry of an id, and what has been taken from one of its windows.
use that_limit.Prelude.{
  ℕ, ◌+◌, ◌-◌, ◌*◌, ◌==◌, ◌≤◌, ◌<◌, ◌≡◌, ◌≢◌, refl, Bool-cases, inl, inr, Option, none, some,
  if◌then◌else◌, min, arith,
}
use that_limit.Prelude.Int.{pos, ◌+ℤ◌}
use that_limit.Redis.{Redis, Entry, max_exact, still}
use that_limit.Lease.Script.{IsRegular, granted, entry_after}
use that_limit.Lease.Calls.{window_end}
use that_limit.System.Quota.{holding, IsWithin}

-- From the window that ends at `w`, `n` tokens have been taken: together with those that are left
-- they are within the quota, and a window that has not begun has given none.
pub record Holds (quota back w n now : ℕ) (e : Entry) : Type 0 where
  pub tokens : ℕ
  pub end : ℕ
  pub is_holding : e ≡ holding tokens end
  pub exact : end ≤ max_exact
  pub within : tokens ≤ quota
  pub same : end ≡ w → tokens + n ≤ quota + back
  pub other : end ≢ w → now < w → n ≡ 0
  pub all : n ≤ quota + back

abbrev pub Bounded : ℕ → ℕ → ℕ → ℕ → ℕ → Option Entry → Type 0
Bounded quota back w n now none = (n ≤ quota + back) × (now < w → n ≡ 0)
Bounded quota back w n now (some e) = Holds quota back w n now e

pub Bounded-IsRegular :
    (quota back w n now : ℕ) (o : Option Entry)
    → quota ≤ max_exact
    → Bounded quota back w n now o
    → IsRegular o
Bounded-IsRegular quota back w n now none q b = tt
Bounded-IsRegular quota back w n now (some e) q b =
    rw b.is_holding (record { above = omega arith; below = omega arith }, b.end, refl, b.exact)

-- Fewer tokens than have been taken are within the bound too.
pub Bounded-fewer :
    (quota back w n n' now : ℕ) (o : Option Entry)
    → n ≤ n'
    → Bounded quota back w n' now o
    → Bounded quota back w n now o
Bounded-fewer quota back w n n' now none le b = (omega arith, λ h. omega (arith, b.1 h))
Bounded-fewer quota back w n n' now (some e) le b = record {
  tokens = b.tokens;
  end = b.end;
  is_holding = b.is_holding;
  exact = b.exact;
  within = b.within;
  same = λ h. omega (arith, b.same h);
  other = λ h k. omega (arith, b.other h k);
  all = omega (arith, b.all);
}

module _ (r : Redis) where
  open r use {is_over}

  -- Time passes.
  pub Bounded-later :
      (quota back w n before now : ℕ) (o : Option Entry)
      → before ≤ now
      → Bounded quota back w n before o
      → Bounded quota back w n now (still is_over now o)
  Bounded-later quota back w n before now none le b = (b.0, λ h. b.1 (omega arith))
  Bounded-later quota back w n before now (some e) le b =
      rw b.is_holding (elim (Bool-cases (is_over now b.end)) [
        | inl over ↦ rw over (b.all, λ h. ground (arith, b.other, r.is_over-before now b.end))
        | inr open_yet ↦ rw open_yet (record {
          tokens = b.tokens;
          end = b.end;
          is_holding = b.is_holding;
          exact = b.exact;
          within = b.within;
          same = b.same;
          other = λ h k. b.other h (omega arith);
          all = b.all;
        })
      ])

-- What a script that is run adds to the count of the window that ends at `w`.
abbrev pub added : ℕ → ℕ → ℕ → ℕ → Option Entry → ℕ
added w now size secs o = if window_end now secs o == w then granted size o else 0

pub Bounded-after :
    (quota back w n now size secs : ℕ) (o : Option Entry)
    → size ≤ quota
    → 0 < secs
    → now + 1000 * secs ≤ max_exact
    → Bounded quota back w n now o
    → Bounded quota back w
        (n + added w now size secs o)
        now
        (some (entry_after now size quota secs o))
Bounded-after quota back w n now size secs none s t x b = record {
  tokens = quota - size;
  end = now + 1000 * secs;
  is_holding = ground arith;
  exact = x;
  within = omega arith;
  same = λ h. ground (arith, b);
  other = λ h k. ground (arith, b);
  all = ground (arith, b);
}
Bounded-after quota back w n now size secs (some e) s t x b = rw b.is_holding (record {
  tokens = b.tokens - min b.tokens size;
  end = b.end;
  is_holding = ground arith;
  exact = b.exact;
  within = omega arith;
  same = λ h. ground (arith, b.same);
  other = λ h k. ground (arith, b.other);
  all = ground (arith, b.same, b.all);
})

-- Before anything has been taken.
pub Bounded-start :
    (quota w now : ℕ) (o : Option Entry) → IsWithin quota o → Bounded quota 0 w 0 now o
Bounded-start quota w now none h = (omega arith, λ k. refl)
Bounded-start quota w now (some e) (v, t, same, le, exact) = record {
  tokens = v;
  end = t;
  is_holding = same;
  exact = exact;
  within = le;
  same = λ h. omega arith;
  other = λ h k. refl;
  all = omega arith;
}

pub Bounded-all :
    (quota back w n now : ℕ) (o : Option Entry) → Bounded quota back w n now o → n ≤ quota + back
Bounded-all quota back w n now none b = b.0
Bounded-all quota back w n now (some e) b = b.all

-- Tokens that come back to the window that ends at `v`.
pub Bounded-more :
    (quota back back' w n now : ℕ) (o : Option Entry)
    → back ≤ back'
    → Bounded quota back w n now o
    → Bounded quota back' w n now o
Bounded-more quota back back' w n now none le b = (omega arith, b.1)
Bounded-more quota back back' w n now (some e) le b = record {
  tokens = b.tokens;
  end = b.end;
  is_holding = b.is_holding;
  exact = b.exact;
  within = b.within;
  same = λ h. omega (arith, b.same h);
  other = b.other;
  all = omega (arith, b.all);
}

-- They fit if no more come back than have been taken.
pub Bounded-give :
    (quota back w n back_v n_v v t now : ℕ) (e : Entry)
    → e.expires ≡ some v
    → back_v + t ≤ n_v
    → Bounded quota back_v v n_v now (some e)
    → Bounded quota back w n now (some e)
    → Bounded quota
        (back + (if v == w then t else 0))
        w
        n
        now
        (some (record e { value = e.value +ℤ pos t }))
Bounded-give quota back w n back_v n_v v t now e x le bv b = record {
  tokens = b.tokens + t;
  end = b.end;
  is_holding = ground (arith, b.is_holding, x);
  exact = b.exact;
  within = ground (arith, b.is_holding, bv.is_holding, bv.same, x);
  same = λ h. ground (arith, b.is_holding, b.same h, x);
  other = λ h k. b.other h k;
  all = omega (arith, b.all);
}
