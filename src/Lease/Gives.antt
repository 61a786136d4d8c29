-- ===== src/Lease/Gives.antt =====
-- What a call of `release` leaves in Redis, whatever becomes of it.
use text.Mathlib.Text.{◌==◌ as str_eq}
use that_limit.Prelude.{
  ℕ, ◌≤◌, ◌≡◌, ◌≢◌, refl, ap, ◌∙◌, ◌⊎◌, inl, inr, Option, none, some, String, [], ◌∷◌,
  if◌then◌else◌, arith,
}
use that_limit.Prelude.Int.{pos, ◌+ℤ◌}
use that_limit.Bucket.{BucketId, IpAddr}
use that_limit.Redis.{Redis, Entry, IsExact, max_exact, expiry_of, still}
use that_limit.Cache.{Link, Reply, int, refused, lost, delivered, eval, new, key, arg}
use that_limit.Lease.{Exchange, release, release_script, to_key}
use that_limit.Lease.Script.{IsRegular}
use that_limit.Lease.Release.{release_open, release_gone}
use native.Mathlib.Decide.{ℕ_discrete}

module _ (r : Redis) (show_ip : IpAddr → String) (x : Exchange r) (db : r.Db) (id : BucketId)
    (tokens w : ℕ) where
  open r use {Db, find, is_over}

  abbrev now : ℕ
  now = x.server_time

  abbrev k : String
  k = to_key show_ip id

  abbrev pub after : Db
  after = (release r show_ip x db id tokens (pos w)).0

  -- The window is open and has got the tokens; no other key has changed.
  pub record HasGiven : Type 0 where
    pub entry : Entry
    pub was : find db now k ≡ some entry
    pub open_yet : entry.expires ≡ some w
    pub is :
        (later : ℕ) (j : String)
        → now ≤ later
        → find after later j ≡ (
            if str_eq k j
            then still is_over later (some (record entry { value = entry.value +ℤ pos tokens }))
            else find db later j)

  module _ (t_exact : tokens ≤ max_exact) (w_exact : w ≤ max_exact)
      (regular : IsRegular (find db now k)) where
    -- The reply does not matter for what the script leaves.
    by_script :
        (l : Link) (db' : Db) (reply : Reply)
        → x.link ≡ l
        → release_script r db now (k ∷ []) (pos tokens ∷ pos w ∷ []) ≡ some (db', reply)
        → (after ≡ db) ⊎ (after ≡ db')
    unfolding release eval new key arg
    by_script refused db' reply e h = inl (ground (arith, e, h))
    by_script lost db' reply e h = inr (ground (arith, e, h))
    by_script delivered db' reply e h = inr (ground (arith, e, h))

    unchanged : expiry_of (find db now k) ≢ pos w → after ≡ db
    unchanged ne =
        elim (by_script x.link db (int (pos 0)) refl
          (release_gone r db now k tokens w t_exact w_exact regular ne)) [ inl e ↦ e | inr e ↦ e ]

    given :
        (e : Entry)
        → find db now k ≡ some e
        → IsExact e.value
        → e.expires ≡ some w
        → (after ≡ db) ⊎ HasGiven
    given e f v y =
        let (db', ran, law) = release_open r db now k tokens w t_exact w_exact e f v y in
        elim (by_script x.link db' (int (pos 1)) refl ran) [
          | inl same ↦ inl same
          | inr same ↦ inr (record { entry = e; was = f; open_yet = y; is = rw same law })
        ]

    release_from : (o : Option Entry) → find db now k ≡ o → IsRegular o → (after ≡ db) ⊎ HasGiven
    release_from none f _ = inl (unchanged (λ h. cc))
    release_from (some e) f (v, t, y, le) = elim (ℕ_discrete t w) [
      | yes same ↦ given e f v (y ∙ ap some same)
      | no ne ↦ inl (unchanged (λ h. ne (ground (arith, f, y, h))))
    ]

    -- If the numbers are exact and the id's entry is absent or has an exact value and an exact expiry,
    -- a call of `release` either changes nothing, whatever becomes of it, or finds the window open that
    -- the tokens came from, adds just them to its entry, keeps its expiry and changes no other key.
    pub release_effect : (after ≡ db) ⊎ HasGiven
    release_effect = release_from (find db now k) refl regular
