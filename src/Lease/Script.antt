-- ===== src/Lease/Script.antt =====
-- What `LEASE_SCRIPT` does, in the range in which Lua's numbers are exact: the tokens that it
-- grants, and the entry that it leaves.
use native.Mathlib.Nat.{le_refl}
use text.Mathlib.Text.{◌==◌ as str_eq}
use text.Mathlib.TextEquality.{eq_iff}
use text.Mathlib.TextPositions.{eq_refl}
use that_limit.Prelude.{
  ℕ, ◌+◌, ◌-◌, ◌*◌, ◌≤◌, ◌<◌, min, ◌≡◌, refl, ap, sym, ◌∙◌, true, false, Option, none, some,
  Option-cases, inl, inr, String, [], ◌∷◌, if◌then◌else◌, dec_lt, arith,
}
use that_limit.Prelude.Int.{ℤ, pos, pos_part, ◌-ℤ◌, leb_ℤ, min_ℤ}
use that_limit.Redis.{
  Redis, Entry, IsExact, max_exact, value_of, expiry_of, time_left, still, leased_for,
}
use that_limit.Cache.{array}
use that_limit.Lease.{lease_script, reply}

-- The arguments of a lease are exact, and so are the times up to the end of a window opened now.
pub record Fits (now size quota ttl : ℕ) : Type 0 where
  pub size_exact : size ≤ max_exact
  pub quota_exact : quota ≤ max_exact
  pub ttl_pos : 0 < ttl
  pub end_exact : now + 1000 * ttl ≤ max_exact

-- An entry as the scripts write it: an exact value and an expiry.
abbrev pub IsRegular : Option Entry → Type 0
IsRegular none = Unit
IsRegular (some e) = IsExact e.value × (t : ℕ) × (e.expires ≡ some t) × (t ≤ max_exact)

-- All of a new window, or what an open one still has, up to the lease size.
abbrev pub granted : ℕ → Option Entry → ℕ
granted size none = size
granted size (some e) = min (pos_part e.value) size

abbrev pub entry_after : ℕ → ℕ → ℕ → ℕ → Option Entry → Entry
entry_after now size quota ttl none = leased_for now ttl (pos quota -ℤ pos size)
entry_after now size quota ttl (some e) = record e {
  value = e.value -ℤ pos (granted size (some e));
}

module _ (r : Redis) (db : r.Db) (now : ℕ) (k : String) (size quota ttl : ℕ) where
  open r use {Db, find, is_over, number}

  -- The script succeeds, replies with the tokens granted, the time left and the window, and
  -- changes the entry of its key only.
  abbrev pub Leases : Option Entry → Type 0
  Leases o =
      let e = entry_after now size quota ttl o in
      (db' : Db) × (lease_script r db now (k ∷ []) (pos size ∷ pos quota ∷ pos ttl ∷ [])
        ≡ some
            (db', array (pos (granted size o) ∷ time_left now (some e) ∷ expiry_of (some e) ∷ [])))
      × ((later : ℕ) (j : String)
          → now ≤ later
          → find db' later j
            ≡ (if str_eq k j then still is_over later (some e) else find db later j))

  module _ (fits : Fits now size quota ttl) where
    open fits use {size_exact, quota_exact, ttl_pos, end_exact}

    IsExact-sub : IsExact (pos quota -ℤ pos size)
    IsExact-sub = ground arith

    number_pos : (n : ℕ) → n ≤ max_exact → number (pos n) ≡ pos n
    number_pos n h = r.number_exact (pos n) (record { above = h; below = omega arith })

    number_sub : number (pos quota -ℤ pos size) ≡ pos quota -ℤ pos size
    number_sub = r.number_exact _ IsExact-sub

    -- The reply about a live entry.
    reply_lem :
        (db' : Db) (g t : ℕ) (e : Entry)
        → find db' now k ≡ some e
        → e.expires ≡ some t
        → t ≤ max_exact
        → reply r db' now k (pos g)
          ≡ (db', array (pos g ∷ time_left now (some e) ∷ expiry_of (some e) ∷ []))
    unfolding reply
    reply_lem db' g t e f x le = ground (
      arith,
      r.pttl_lem db' now k,
      r.pexpiretime_lem db' now k,
      number_pos t le,
      number_pos (t - now) (omega arith),
    )

    alive_now :
        (e : Entry) → e.expires ≡ some (now + 1000 * ttl) → still is_over now (some e) ≡ some e
    alive_now e h = ground (arith, r.is_over-before now (now + 1000 * ttl) (omega arith))

    pub opens : find db now k ≡ none → Leases none
    unfolding lease_script
    opens h = elim (Option-cases (r.setex db now k (pos ttl) (pos quota -ℤ pos size))) [
      | inl e ↦ absurd (r.setex-some db now k ttl _ ttl_pos end_exact IsExact-sub e)
      | inr (db', e) ↦
          let here : find db' now k ≡ some (leased_for now ttl (pos quota -ℤ pos size)) =
            r.find-setex db now k ttl _ now k e (le_refl now)
            ∙ rw (eq_refl k) (alive_now (leased_for now ttl (pos quota -ℤ pos size)) refl) in
          let new = reply_lem db' size (now + 1000 * ttl) _ here refl end_exact in
          (
            db',
            ground (
              arith,
              r.get_lem db now k,
              h,
              e,
              new,
              number_sub,
              number_pos ttl (omega arith),
              number_pos size size_exact,
              number_pos quota quota_exact,
            ),
            λ later j le. r.find-setex db now k ttl _ later j e le,
          )
    ]

    module _ (e : Entry) (f : find db now k ≡ some e) (t : ℕ) (x : e.expires ≡ some t)
        (t_exact : t ≤ max_exact) (v_exact : IsExact e.value) where
      get_value : r.get db now k ≡ some e.value
      get_value = r.get_lem db now k ∙ ap value_of f

      -- A live entry is still there at once.
      alive : still is_over now (some e) ≡ some e
      alive = ap (still is_over now) (sym f) ∙ sym (r.find_later db now now k (le_refl now)) ∙ f

      alive_with :
          (v : ℤ)
          → still is_over now (some (record e { value = v })) ≡ some (record e { value = v })
      alive_with v = ground (arith, alive)

      minus_zero : e.value -ℤ pos 0 ≡ e.value
      minus_zero = ground arith

      unchanged :
          (later : ℕ) (j : String)
          → now ≤ later
          → find db later j ≡ (if str_eq k j then still is_over later (some e) else find db later j)
      unchanged later j le = ground (arith, eq_iff k j, r.find_later db now later k le, f)

      keeps : pos_part e.value ≡ 0 → Leases (some e)
      unfolding lease_script
      keeps z =
          let same : e.value -ℤ pos (min (pos_part e.value) size) ≡ e.value = ground arith in
          let no_tokens : leb_ℤ e.value (pos 0) ≡ true = ground arith in
          (
            db,
            ground (
              arith,
              get_value,
              r.number_exact e.value v_exact,
              no_tokens,
              same,
              reply_lem db 0 t e f x t_exact,
              number_pos ttl (omega arith),
              number_pos size size_exact,
              number_pos quota quota_exact,
            ),
            λ later j le. rw same (unchanged later j le),
          )

      least : 0 < pos_part e.value → min_ℤ e.value (pos size) ≡ pos (min (pos_part e.value) size)
      least p = ground arith

      takes : 0 < pos_part e.value → Leases (some e)
      unfolding lease_script
      takes p =
          let g = min (pos_part e.value) size in
          let some_tokens : leb_ℤ e.value (pos 0) ≡ false = ground arith in
          elim (Option-cases (r.decrby db now k (pos g))) [
            | inl bad ↦ absurd (r.decrby-some db now k g e f v_exact (omega arith) bad)
            | inr (db', d) ↦
                let rest : Entry = record e { value = e.value -ℤ pos g } in
                let here : find db' now k ≡ some rest =
                  r.find-decrby db now k g e now k f d (le_refl now)
                  ∙ rw (eq_refl k) (alive_with (e.value -ℤ pos g)) in
                (
                  db',
                  ground (
                    arith,
                    get_value,
                    r.number_exact e.value v_exact,
                    some_tokens,
                    least p,
                    d,
                    reply_lem db' g t rest here x t_exact,
                    number_pos ttl (omega arith),
                    number_pos size size_exact,
                    number_pos quota quota_exact,
                  ),
                  λ later j le. r.find-decrby db now k g e later j f d le,
                )
          ]

    lease_script-by_entry : (o : Option Entry) → find db now k ≡ o → IsRegular o → Leases o
    lease_script-by_entry none h _ = opens h
    lease_script-by_entry (some e) h (v, t, x, le) = elim (dec_lt 0 (pos_part e.value)) [
      | yes p ↦ takes e h t x le v p
      | no p ↦ keeps e h t x le v (omega arith)
    ]

    -- If the arguments are exact, the time to live is positive, and the key's entry is absent or is
    -- an exact value with an expiry, the script succeeds: it grants the whole lease size in a new
    -- window, or what is left up to the lease size in an open one, replies with the time left and
    -- the expiry, takes just the granted tokens from the entry, and changes no other key.
    pub lease_script_lem : IsRegular (find db now k) → Leases (find db now k)
    lease_script_lem = lease_script-by_entry (find db now k) refl
