-- ===== src/Lease/Windows/Step.antt =====
-- One run of a script against one step of the windows.
use text.Mathlib.Text.{◌==◌ as str_eq}
use text.Mathlib.TextEquality.{eq_iff}
use mathlib.Core.Path.{subst}
use that_limit.Prelude.{
  ℕ, ◌+◌, ◌-◌, ◌*◌, ◌==◌, ◌≤◌, ◌≡◌, ◌≢◌, refl, ap, ◌∙◌, false, Bool-cases, Option, none, some, inl,
  inr, String, [], ◌∷◌, if◌then◌else◌, min, arith,
}
use that_limit.Prelude.Int.{pos, ◌-ℤ◌, ◌+ℤ◌}
use that_limit.Redis.{Redis, Entry, max_exact, still, expiry_of}
use that_limit.Cache.{array}
use that_limit.Lease.Script.{Fits, IsRegular, Leases, lease_script_lem}
use that_limit.Lease.Release.{release_open, release_gone}
use that_limit.Lease.Windows.{
  Window, Windows, Op, lease, release, Run, Answer, released, alive, act, after, said, InRange,
  to_reply, run_op,
}

abbrev pub entry_of : Option Window → Option Entry
entry_of none = none
entry_of (some w) = some (record { value = pos w.left; expires = some w.ends })

-- The numbers of a window are exact.
abbrev pub IsBounded : Option Window → Type 0
IsBounded none = Unit
IsBounded (some w) = (w.left ≤ max_exact) × (w.ends ≤ max_exact)

pos_sub : (a b : ℕ) → b ≤ a → pos a -ℤ pos b ≡ pos (a - b)
pos_sub a b le = ground arith

pos_add : (a b : ℕ) → pos a +ℤ pos b ≡ pos (a + b)
pos_add a b = ground arith

entry_of-IsRegular : (o : Option Window) → IsBounded o → IsRegular (entry_of o)
entry_of-IsRegular none b = tt
entry_of-IsRegular (some w) (l, e) = (record { above = l; below = omega arith }, w.ends, refl, e)

module _ (r : Redis) where
  open r use {Db, find, is_over}

  -- From a time on, Redis holds the windows.
  pub record Holds (clock : ℕ) (db : Db) (ws : Windows) : Type 0 where
    pub entries :
        (later : ℕ) (k : String)
        → clock ≤ later
        → find db later k ≡ still is_over later (entry_of (ws k))
    pub bounded : (k : String) → IsBounded (ws k)

  entry-alive :
      (now : ℕ) (o : Option Window)
      → still is_over now (entry_of o) ≡ entry_of (alive is_over now o)
  entry-alive now none = refl
  entry-alive now (some w) = ground arith

  alive-IsBounded : (now : ℕ) (o : Option Window) → IsBounded o → IsBounded (alive is_over now o)
  alive-IsBounded now none b = tt
  alive-IsBounded now (some w) b = elim (Bool-cases (is_over now w.ends)) [
    | inl e ↦ rw e tt
    | inr e ↦ rw e b
  ]

  -- A run that replies with `a` and leaves `o` at the key, and nothing else changed.
  abbrev pub Does : Db → ℕ → String → Op → Option Window → Answer → Type 0
  Does db now k op o a =
      (db' : Db) × (run_op r db now k op ≡ some (db', to_reply a))
      × ((later : ℕ) (j : String)
          → now ≤ later
          → find db' later j
            ≡ (if str_eq k j then still is_over later (entry_of o) else find db later j))

  module _ (db : Db) (now : ℕ) (k : String) where
    leases :
        (size quota ttl : ℕ) (o : Option Window)
        → find db now k ≡ entry_of o
        → IsBounded o
        → Fits now size quota ttl × (size ≤ quota)
        → Does db now k
            (lease size quota ttl)
            (act is_over now (lease size quota ttl) o).0
            (act is_over now (lease size quota ttl) o).1
    leases size quota ttl none here b (fits, le) =
        let (db', ran, law) =
          subst (Leases r db now k size quota ttl) here
            (lease_script_lem r db now k size quota ttl fits (rw here tt)) in
        (
          db',
          ran
              ∙ ap (λ t. some (db', array (pos size ∷ pos t ∷ pos (now + 1000 * ttl) ∷ [])))
                  (omega arith),
          λ later j before.
              law later j before
              ∙ ap
                  (λ v.
                    if str_eq k j
                    then still is_over later
                        (some (record { value = v; expires = some (now + 1000 * ttl) }))
                    else find db later j)
                  (pos_sub quota size le),
        )
    leases size quota ttl (some w) here b (fits, le) =
        let (db', ran, law) = subst (Leases r db now k size quota ttl) here (
          lease_script_lem r db now k size quota ttl fits
            (rw here (entry_of-IsRegular (some w) b))) in
        (
          db',
          ran,
          λ later j before.
              law later j before
              ∙ ap
                  (λ v.
                    if str_eq k j
                    then still is_over later (some (record { value = v; expires = some w.ends }))
                    else find db later j)
                  (pos_sub w.left (min w.left size) (omega arith)),
        )

    -- A release that finds another window, or none.
    refuses :
        (tokens window : ℕ) (o : Option Window)
        → find db now k ≡ entry_of o
        → IsBounded o
        → (tokens ≤ max_exact) × (window ≤ max_exact)
        → expiry_of (entry_of o) ≢ pos window
        → Does db now k (release tokens window) o (released false)
    refuses tokens window o here b (t, w) other = (
      db,
      release_gone r db now k tokens window t w (rw here (entry_of-IsRegular o b)) (rw here other),
      λ later j before. ground (arith, eq_iff k j, r.find_later db now later k before, here),
    )

    releases :
        (tokens window : ℕ) (o : Option Window)
        → find db now k ≡ entry_of o
        → IsBounded o
        → InRange is_over now (release tokens window) o
        → Does db now k
            (release tokens window)
            (act is_over now (release tokens window) o).0
            (act is_over now (release tokens window) o).1
    releases tokens window none here b range = refuses tokens window none here b range (λ h. cc)
    releases tokens window (some w) here (l, e) (sum, exact) =
        elim (Bool-cases (w.ends == window)) [
          | inl is ↦
              let (db', ran, law) =
                release_open r db now k tokens window (omega arith) exact _ here
                  (record { above = l; below = omega arith }) (ap some (ground arith)) in
              rw is (
                db',
                ran,
                λ later j before.
                    law later j before
                    ∙ ap
                        (λ v.
                          if str_eq k j
                          then still is_over later
                              (some (record { value = v; expires = some w.ends }))
                          else find db later j)
                        (pos_add w.left tokens),
              )
          | inr ne ↦
              rw ne (refuses tokens window (some w) here (l, e) (omega arith, exact) (ground arith))
        ]

    does :
        (op : Op) (o : Option Window)
        → find db now k ≡ entry_of o
        → IsBounded o
        → InRange is_over now op o
        → Does db now k op (act is_over now op o).0 (act is_over now op o).1
    does (lease size quota ttl) o here b range = leases size quota ttl o here b range
    does (release tokens window) o here b range = releases tokens window o here b range

  act-IsBounded :
      (now : ℕ) (op : Op) (o : Option Window)
      → IsBounded o
      → InRange is_over now op o
      → IsBounded (act is_over now op o).0
  act-IsBounded now (lease size quota ttl) none b (fits, le) =
      (omega (arith, fits.quota_exact), fits.end_exact)
  act-IsBounded now (lease size quota ttl) (some w) (l, e) (fits, le) = (omega arith, e)
  act-IsBounded now (release tokens window) none b range = tt
  act-IsBounded now (release tokens window) (some w) (l, e) (sum, exact) =
      elim (Bool-cases (w.ends == window)) [ inl is ↦ rw is (sum, e) | inr ne ↦ rw ne (l, e) ]

  pub run_op-Holds :
      (x : Run) (clock : ℕ) (db : Db) (ws : Windows)
      → Holds clock db ws
      → clock ≤ x.now
      → InRange is_over x.now x.op (alive is_over x.now (ws x.key))
      → (db' : Db) × (run_op r db x.now x.key x.op ≡ some (db', to_reply (said is_over x ws)))
        × Holds x.now db' (after is_over x ws)
  run_op-Holds x clock db ws h le range =
      let o = alive is_over x.now (ws x.key) in
      let b = alive-IsBounded x.now (ws x.key) (h.bounded x.key) in
      let (db', ran, law) =
        does db x.now x.key x.op o (h.entries x.now x.key le ∙ entry-alive x.now (ws x.key)) b
          range in
      (
        db',
        ran,
        record {
          entries = λ later j before. law later j before ∙ elim (Bool-cases (str_eq x.key j)) [
            | inl e ↦ rw e refl
            | inr e ↦ rw e (h.entries later j (omega arith))
          ];
          bounded = λ j. elim (Bool-cases (str_eq x.key j)) [
            | inl e ↦ rw e (act-IsBounded x.now x.op o b range)
            | inr e ↦ rw e (h.bounded j)
          ];
        },
      )
