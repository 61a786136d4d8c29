-- ===== src/System/Quota/Gives.antt =====
-- A call of `release` keeps the bounds, if no more comes back than has been taken.
use mathlib.Core.Path.{subst}
use native.Mathlib.Nat.{le_refl}
use text.Mathlib.TextEquality.{eq_iff}
use text.Mathlib.TextPositions.{eq_refl}
use that_limit.Prelude.{
  ℕ, ◌+◌, ◌≤◌, ◌==◌, ◌≡◌, ◌≢◌, sym, ap, false, inl, inr, Bool-cases, some, if◌then◌else◌, arith,
}
use that_limit.Prelude.Int.{pos, ◌+ℤ◌}
use that_limit.Bucket.{BucketId}
use that_limit.Bucket.Ids.{id_eq, id_eq_iff, id_eq_refl}
use that_limit.Redis.{Entry, max_exact}
use that_limit.Lease.Script.{IsRegular}
use that_limit.Config.{Config}
use that_limit.Lease.{to_key, Exchange}
use that_limit.Lease.Keys.{to_key-injective}
use that_limit.Lease.Gives.{after, HasGiven, release_effect}
use that_limit.Platform.{Platform}
use that_limit.System.Ledger.{of_item}
use that_limit.System.Ledger.Regained.{growth, growth_self, grows}
use that_limit.System.Quota.{policy, IsSound, find}
use that_limit.System.Quota.Bounds.{
  Bounded, Bounded-IsRegular, Bounded-more, Bounded-give, Bounded-all,
}
use that_limit.System.Quota.Charges.{KeepsBounds}

module _ (p : Platform) (config : Config) (sound : IsSound config) (x : Exchange p.redis)
    (db : p.redis.Db) (back counted : BucketId → ℕ → ℕ)
    (kept : KeepsBounds p config back counted db x.server_time) (j : BucketId) (t v : ℕ)
    (v_exact : v ≤ max_exact) (no_more : back j v + t ≤ counted j v) where
  open p use {redis, show_ip}
  open sound use {quota_exact}

  abbrev now : ℕ
  now = x.server_time

  abbrev db' : redis.Db
  db' = after redis show_ip x db j t v

  abbrev more : BucketId → ℕ → ℕ
  more id w = back id w + grows p db db' now id w

  t_exact : t ≤ max_exact
  t_exact = omega (
    arith,
    no_more,
    quota_exact j,
    Bounded-all (policy config j).quota (back j v) v (counted j v) now (find p db now j) (kept j v),
  )

  kept_same : db' ≡ db → KeepsBounds p config more counted db' now
  kept_same e id w =
      subst
        (λ d. Bounded (policy config id).quota (more id w) w (counted id w) now (find p d now id))
        (sym e)
        (Bounded-more (policy config id).quota (back id w) (more id w) w (counted id w) now
          (find p db now id) (omega arith) (kept id w))

  module _ (given : HasGiven redis show_ip x db j t v) where
    open given use {entry, was, open_yet, is}

    abbrev entry' : Entry
    entry' = record entry { value = entry.value +ℤ pos t }

    at_entry : (w : ℕ) → Bounded (policy config j).quota (back j w) w (counted j w) now (some entry)
    at_entry w =
        subst (Bounded (policy config j).quota (back j w) w (counted j w) now) was (kept j w)

    alive : redis.is_over now v ≡ false
    alive =
        ground (arith, was, open_yet, redis.find_later db now now (to_key show_ip j) (le_refl now))

    find_given : find p db' now j ≡ some entry'
    find_given = ground (
      arith,
      is now (to_key show_ip j) (le_refl now),
      eq_refl (to_key show_ip j),
      alive,
      open_yet,
    )

    grown : (w : ℕ) → grows p db db' now j w ≡ (if v == w then t else 0)
    grown w = rw (was, find_given) (ground (arith, (at_entry w).is_holding, open_yet))

    given_here :
        (w : ℕ) → Bounded (policy config j).quota (more j w) w (counted j w) now (find p db' now j)
    given_here w =
        let count : back j w + (if v == w then t else 0) ≤ more j w = omega (arith, grown w) in
        subst (Bounded (policy config j).quota (more j w) w (counted j w) now) (sym find_given) (
          Bounded-more (policy config j).quota (back j w + (if v == w then t else 0)) (more j w) w
            (counted j w) now (some entry') count
            (Bounded-give (policy config j).quota (back j w) w (counted j w) (back j v)
              (counted j v) v t now entry open_yet no_more (at_entry v) (at_entry w)))

    given_elsewhere : (id : BucketId) → id_eq j id ≡ false → find p db' now id ≡ find p db now id
    given_elsewhere id other =
        let apart : to_key show_ip j ≢ to_key show_ip id = λ e.
          ground
            (arith, other, id_eq_iff j id, to_key-injective show_ip p.show_ip-injective j id e) in
        ground (
          arith,
          eq_iff (to_key show_ip j) (to_key show_ip id),
          is now (to_key show_ip id) (le_refl now),
          apart,
        )

    kept_given : KeepsBounds p config more counted db' now
    kept_given id w = elim (Bool-cases (id_eq j id)) [
      | inl same ↦
          subst
            (λ i. Bounded (policy config i).quota (more i w) w (counted i w) now (find p db' now i))
            ((id_eq_iff j id).0 same) (given_here w)
      | inr other ↦
          subst (Bounded (policy config id).quota (more id w) w (counted id w) now)
            (sym (given_elsewhere id other))
            (Bounded-more (policy config id).quota (back id w) (more id w) w (counted id w) now
              (find p db now id) (omega arith) (kept id w))
    ]

    grown-le : (id : BucketId) (w : ℕ) → grows p db db' now id w ≤ of_item id w (j, t, pos v)
    grown-le id w = elim (Bool-cases (id_eq j id)) [
      | inl same ↦
          subst (λ i. grows p db db' now i w ≤ of_item i w (j, t, pos v)) ((id_eq_iff j id).0 same)
            (ground (arith, grown w, id_eq_refl j))
      | inr other ↦ omega (
        arith,
        ap (growth w (find p db now id)) (given_elsewhere id other),
        growth_self w (find p db now id),
      )
    ]

  same-le :
      db' ≡ db → (id : BucketId) (w : ℕ) → grows p db db' now id w ≤ of_item id w (j, t, pos v)
  same-le e id w =
      omega (arith, ap (λ d. grows p db d now id w) e, growth_self w (find p db now id))

  abbrev regular : IsRegular (find p db now j)
  regular =
      Bounded-IsRegular (policy config j).quota (back j 0) 0 (counted j 0) now (find p db now j)
        (quota_exact j) (kept j 0)

  -- No more comes back than has been sent.
  pub release-le : (id : BucketId) (w : ℕ) → grows p db db' now id w ≤ of_item id w (j, t, pos v)
  release-le id w = elim (release_effect redis show_ip x db j t v t_exact v_exact regular) [
    | inl same ↦ same-le same id w
    | inr given ↦ grown-le given id w
  ]

  pub release_keeps : KeepsBounds p config more counted db' now
  release_keeps = elim (release_effect redis show_ip x db j t v t_exact v_exact regular) [
    | inl same ↦ kept_same same
    | inr given ↦ kept_given given
  ]
