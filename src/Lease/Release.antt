-- ===== src/Lease/Release.antt =====
-- `RELEASE_SCRIPT`: tokens go back to the window they came from, or nowhere.
use text.Mathlib.Text.{◌==◌ as str_eq}
use that_limit.Prelude.{
  ℕ, ◌≤◌, ◌≡◌, ◌≢◌, Option, none, some, Option-cases, inl, inr, String, [], ◌∷◌, if◌then◌else◌,
  arith,
}
use that_limit.Prelude.Int.{pos, ◌+ℤ◌, eqb_ℤ→eq}
use that_limit.Redis.{Redis, Entry, IsExact, max_exact, expiry_of, still}
use that_limit.Cache.{int}
use that_limit.Lease.{release_script}
use that_limit.Lease.Script.{IsRegular}

module _ (r : Redis) (db : r.Db) (now : ℕ) (k : String) (tokens w : ℕ) where
  open r use {Db, find, is_over, number}

  -- The window is still open: the tokens are added to it, and it keeps its expiry.
  abbrev pub Returns : Entry → Type 0
  Returns e =
      (db' : Db) × (release_script r db now (k ∷ []) (pos tokens ∷ pos w ∷ [])
        ≡ some (db', int (pos 1)))
      × ((later : ℕ) (j : String)
          → now ≤ later
          → find db' later j ≡ (
              if str_eq k j
              then still is_over later (some (record e { value = e.value +ℤ pos tokens }))
              else find db later j))

  module _ (t_exact : tokens ≤ max_exact) (w_exact : w ≤ max_exact) where
    number_pos : (n : ℕ) → n ≤ max_exact → number (pos n) ≡ pos n
    number_pos n h = r.number_exact (pos n) (record { above = h; below = omega arith })

    number_expiry : (o : Option Entry) → IsRegular o → number (expiry_of o) ≡ expiry_of o
    number_expiry none _ = r.number_exact _ (record { above = omega arith; below = omega arith })
    number_expiry (some e) (v, t, x, le) = ground (arith, x, number_pos t le)

    -- If both numbers are exact and the key still has the expiry that the caller recorded, the script
    -- answers 1, adds the tokens to the key, keeps its expiry, and changes no other key.
    pub release_open :
        (e : Entry) → find db now k ≡ some e → IsExact e.value → e.expires ≡ some w → Returns e
    unfolding release_script
    release_open e f v x = elim (Option-cases (r.incrby db now k (pos tokens))) [
      | inl bad ↦ absurd (r.incrby-some db now k tokens e f v t_exact bad)
      | inr (db', i) ↦ (
        db',
        ground (
          arith,
          f,
          x,
          i,
          r.pexpiretime_lem db now k,
          number_pos w w_exact,
          number_pos tokens t_exact,
        ),
        λ later j le. r.find-incrby db now k tokens e later j f i le,
      )
    ]

    -- If the key's expiry is not the one that the caller recorded (the window is gone, or a newer one
    -- is open), the script answers 0 and changes nothing.
    pub release_gone :
        IsRegular (find db now k)
        → expiry_of (find db now k) ≢ pos w
        → release_script r db now (k ∷ []) (pos tokens ∷ pos w ∷ []) ≡ some (db, int (pos 0))
    unfolding release_script
    release_gone reg ne = ground (
      arith,
      ne,
      r.pexpiretime_lem db now k,
      number_expiry (find db now k) reg,
      number_pos w w_exact,
      eqb_ℤ→eq (expiry_of (find db now k)) (pos w),
    )
