-- ===== src/Lease/Calls.antt =====
-- `lease` as its caller sees it: the script's grant, the time left from before the call, and what a
-- failing call leaves behind.
use that_limit.Prelude.{
  ℕ, ◌+◌, ◌-◌, ◌*◌, ◌≤◌, ◌≡◌, refl, Option, none, some, String, [], ◌∷◌, ok, err, if◌then◌else◌,
  arith,
}
use text.Mathlib.Text.{◌==◌ as str_eq}
use that_limit.Prelude.Int.{pos, ◌-ℤ◌}
use that_limit.Duration.{Duration, from_millis, as_secs, saturating_sub, duration_since}
use that_limit.Bucket.{BucketId, IpAddr}
use that_limit.Redis.{Redis, Entry, time_left, expiry_of, still}
use that_limit.Cache.{
  Error, Link, redis, io, response, refused, lost, delivered, eval, new, key, arg,
}
use that_limit.Lease.{Exchange, lease, lease_script, to_key}
use that_limit.Lease.Script.{Fits, IsRegular, granted, entry_after, lease_script_lem}

-- When the window ends that a lease is taken from, in the server's ms.
abbrev pub window_end : ℕ → ℕ → Option Entry → ℕ
window_end now ttl none = now + 1000 * ttl
window_end now ttl (some e) = elim e.expires [ none ↦ 0 | some t ↦ t ]

-- The replies about a regular entry are two numbers.
after-reply :
    (now size quota ttl : ℕ) (o : Option Entry)
    → IsRegular o
    → (time_left now (some (entry_after now size quota ttl o)) ≡ pos (window_end now ttl o - now))
      × (expiry_of (some (entry_after now size quota ttl o)) ≡ pos (window_end now ttl o))
after-reply now size quota ttl none _ = (refl, refl)
after-reply now size quota ttl (some e) (v, t, x, le) = (ground arith, ground arith)

module _ (r : Redis) (show_ip : IpAddr → String) (x : Exchange r) (db : r.Db) (id : BucketId)
    (size quota : ℕ) (ttl : Duration) where
  open r use {Db, find, is_over, number}

  abbrev pub entry : Option Entry
  entry = find db x.server_time (to_key show_ip id)

  abbrev pub left : Duration
  left =
      saturating_sub (from_millis (window_end x.server_time (as_secs ttl) entry - x.server_time))
        (duration_since x.finished x.started)

  -- What the server does when it runs the script, whether or not the caller learns of it.
  abbrev pub Charged : Db → Type 0
  Charged db' =
      (later : ℕ) (j : String)
      → x.server_time ≤ later
      → find db' later j ≡ (
          if str_eq (to_key show_ip id) j
          then still is_over later (some (entry_after x.server_time size quota (as_secs ttl) entry))
          else find db later j)

  module _ (fits : Fits x.server_time size quota (as_secs ttl)) (regular : IsRegular entry) where
    -- A delivered call gives the tokens that the server took, the time left and the window.
    pub lease_delivered :
        x.link ≡ delivered
        → (db' : Db) × (lease r show_ip x db id size quota ttl ≡ (
          db',
          ok (granted size entry, left, pos (window_end x.server_time (as_secs ttl) entry)),
        ))
          × Charged db'
    unfolding lease eval new key arg
    lease_delivered l =
        let (db', ran, law) =
          lease_script_lem r db x.server_time (to_key show_ip id) size quota (as_secs ttl) fits
            regular in
        let (a, b) = after-reply x.server_time size quota (as_secs ttl) entry regular in
        (db', ground (arith, l, ran, a, b), law)

    -- If the script runs on a regular entry and its reply is lost, the caller gets an error, and
    -- the server's entry has lost the same tokens as by a delivered call.
    pub lease_lost :
        x.link ≡ lost
        → (db' : Db) × (lease r show_ip x db id size quota ttl ≡ (db', err (redis io)))
          × Charged db'
    unfolding lease eval new key arg
    lease_lost l =
        let (db', ran, law) =
          lease_script_lem r db x.server_time (to_key show_ip id) size quota (as_secs ttl) fits
            regular in
        (db', ground (arith, l, ran), law)

  -- A call that does not reach the server takes nothing.
  pub lease_refused :
      x.link ≡ refused → lease r show_ip x db id size quota ttl ≡ (db, err (redis io))
  unfolding lease eval
  lease_refused l = ground (arith, l)

  -- If a policy resets in less than a second and the id has no entry, a lease fails whatever
  -- becomes of the call, and nothing changes.
  module _ (none_left : as_secs ttl ≡ 0) (absent : entry ≡ none) where
    script_fails :
        lease_script r db x.server_time
          (to_key show_ip id ∷ [])
          (pos size ∷ pos quota ∷ pos (as_secs ttl) ∷ [])
        ≡ none
    unfolding lease_script
    script_fails =
        let zero_exact : number (pos 0) ≡ pos 0 =
          r.number_exact (pos 0) (record { above = omega arith; below = omega arith }) in
        ground (
          arith,
          none_left,
          absent,
          r.get_lem db x.server_time (to_key show_ip id),
          zero_exact,
          r.setex-zero db x.server_time (to_key show_ip id)
              (number (number (pos quota) -ℤ number (pos size))),
        )

    lease_fails_by :
        (l : Link)
        → x.link ≡ l
        → (e : Error) × (lease r show_ip x db id size quota ttl ≡ (db, err e))
    unfolding lease eval new key arg
    lease_fails_by refused h = (redis io, ground (arith, h))
    lease_fails_by lost h = (redis io, ground (arith, h, script_fails))
    lease_fails_by delivered h = (redis response, ground (arith, h, script_fails))

    pub lease_fails : (e : Error) × (lease r show_ip x db id size quota ttl ≡ (db, err e))
    lease_fails = lease_fails_by x.link refl
