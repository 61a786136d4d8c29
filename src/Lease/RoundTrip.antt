-- ===== src/Lease/RoundTrip.antt =====
-- `LEASE_SCRIPT`, then `RELEASE_SCRIPT` with what it granted.
use text.Mathlib.TextEquality.{eq_iff}
use text.Mathlib.TextPositions.{eq_refl}
use mathlib.Core.Path.{subst}
use that_limit.Prelude.{ℕ, ◌≤◌, ◌<◌, min, ◌≡◌, ◌∙◌, some, String, [], ◌∷◌, arith}
use that_limit.Prelude.Int.{pos, pos_part, ◌-ℤ◌, ◌+ℤ◌}
use that_limit.Redis.{Redis, Entry, IsExact, max_exact, time_left}
use that_limit.Cache.{int, array}
use that_limit.Lease.{lease_script, release_script}
use that_limit.Lease.Script.{Fits, granted, lease_script_lem, Leases}
use that_limit.Lease.Release.{release_open}

-- An open window, from which a lease has just been taken.
minus-IsExact :
    (e : Entry) (size : ℕ)
    → IsExact e.value
    → IsExact (e.value -ℤ pos (min (pos_part e.value) size))
minus-IsExact e size v = ground arith

give_back :
    (e : Entry) (size : ℕ)
    → (e.value -ℤ pos (min (pos_part e.value) size)) +ℤ pos (min (pos_part e.value) size) ≡ e.value
give_back e size = ground arith

module _ (r : Redis) (db : r.Db) (now later_on : ℕ) (k : String) (size quota ttl w : ℕ)
    (e : Entry) where
  open r use {Db, find, is_over}

  abbrev g : ℕ
  g = granted size (some e)

  abbrev pub IsUndone : Type 0
  IsUndone =
      (leased : Db) × (released : Db) × (lease_script r db now (k ∷ [])
          (pos size ∷ pos quota ∷ pos ttl ∷ [])
        ≡ some (leased, array (pos g ∷ time_left now (some e) ∷ pos w ∷ [])))
      × (release_script r leased later_on (k ∷ []) (pos g ∷ pos w ∷ [])
          ≡ some (released, int (pos 1)))
      × ((later : ℕ) (j : String) → later_on ≤ later → find released later j ≡ find db later j)

  -- If the arguments are exact and the key has an exact value and an exact expiry, a lease and then
  -- the return of the tokens that it granted, before the window is over, leave every key as it was.
  pub lease-release :
      Fits now size quota ttl
      → find db now k ≡ some e
      → IsExact e.value
      → e.expires ≡ some w
      → w ≤ max_exact
      → now ≤ later_on
      → later_on < w
      → IsUndone
  lease-release fits f v x w_exact le before =
      let taken : Leases r db now k size quota ttl (some e) =
        subst (Leases r db now k size quota ttl) f
          (lease_script_lem r db now k size quota ttl fits (rw f (v, w, x, w_exact))) in
      let (leased, ran, law) = taken in
      let rest : Entry = record e { value = e.value -ℤ pos g } in
      let here : find leased later_on k ≡ some rest =
        law later_on k le
        ∙ rw (eq_refl k) (ground (arith, x, r.is_over-before later_on w before)) in
      let few : g ≤ max_exact = omega (arith, fits.size_exact) in
      let (released, gave, law') =
        release_open r leased later_on k g w few w_exact rest here (minus-IsExact e size v) x in
      (
        leased,
        released,
        ground (arith, ran, x),
        gave,
        λ later j le'. ground (
          arith,
          law' later j le',
          law later j (omega arith),
          give_back e size,
          eq_iff k j,
          r.find_later db now later k (omega arith),
          f,
        ),
      )
