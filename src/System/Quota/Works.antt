-- ===== src/System/Quota/Works.antt =====
-- A step of the background task keeps the bounds.
use mathlib.Core.Path.{subst}
use that_limit.Prelude.{ℕ, ◌+◌, ◌≤◌, ◌≡◌, sym, ap, inl, inr, Option-cases, some, List, arith}
use that_limit.Prelude.Int.{ℤ, pos}
use that_limit.Bucket.{BucketId}
use that_limit.Bucket.Ids.{id_eq_refl}
use that_limit.Config.{Config}
use that_limit.Platform.{Platform}
use that_limit.Store.{Store, Moment}
use that_limit.Store.Background.Worker.{
  Worker, selecting, removing, returning, reporting, ended, Wake, next_of, work,
}
use that_limit.Lease
use that_limit.System.Ledger.{of_item, returned}
use that_limit.System.Ledger.Regained.{growth_self, grows}
use that_limit.System.Quota.{policy, IsSound, find}
use that_limit.System.Quota.Bounds.{Bounded-more}
use that_limit.System.Quota.Charges.{KeepsBounds}
use that_limit.System.Quota.Gives.{release_keeps, release-le}
use that_limit.System.Quota.Marks.{WorkerMarked, IsWindow}
use that_limit.System.Quota.WorkMarks.{ChunksMarked-next_of}

module _ (p : Platform) (config : Config) (sound : IsSound config) (m : Moment p) (db : p.redis.Db)
    (back counted : BucketId → ℕ → ℕ)
    (kept : KeepsBounds p config back counted db m.exchange.server_time) (c : ℕ) where
  open p use {redis, show_ip}

  abbrev now : ℕ
  now = m.exchange.server_time

  -- The bounds hold with what Redis has got back, which is no more than what has been sent.
  abbrev pub KeptAfter : Worker → redis.Db → Type 0
  KeptAfter v d =
      KeepsBounds p config (λ id w. back id w + grows p db d now id w) counted d now
      × ((id : BucketId) (w : ℕ) → grows p db d now id w ≤ returned id w c v)

  no_return : (v : Worker) → KeptAfter v db
  no_return v = (
    λ id w.
        Bounded-more (policy config id).quota (back id w) (back id w + grows p db db now id w) w
          (counted id w) now (find p db now id) (omega arith) (kept id w),
    λ id w. omega (arith, growth_self w (find p db now id)),
  )

  given :
      (j : BucketId) (n : ℕ) (z : ℤ) (cs ds : List (List (BucketId × ℕ × ℤ)))
      → next_of c cs ≡ some ((j, n, z), ds)
      → IsWindow z
      → ((id : BucketId) (w : ℕ) → back id w + returned id w c (returning cs) ≤ counted id w)
      → KeptAfter (returning cs) (Lease.release redis show_ip m.exchange db j n z).0
  given j n z cs ds o mark no_more =
      let e : z ≡ pos mark.end = mark.is in
      let item : (id : BucketId) (w : ℕ) → returned id w c (returning cs) ≡ of_item id w (j, n, z) =
        λ id w. ground (arith, o) in
      let own : of_item j mark.end (j, n, z) ≡ n = ground (arith, e, id_eq_refl j) in
      let fits : back j mark.end + n ≤ counted j mark.end =
        omega (arith, no_more j mark.end, item j mark.end, own) in
      subst (λ u. KeptAfter (returning cs) (Lease.release redis show_ip m.exchange db j n u).0)
        (sym e)
        (
          release_keeps p config sound m.exchange db back counted kept j n mark.end mark.exact fits,
          λ id w. omega (
            arith,
            release-le p config sound m.exchange db back counted kept j n mark.end mark.exact fits
                id w,
            ap (λ u. of_item id w (j, n, u)) e,
            item id w,
          ),
        )

  pub work_keeps :
      (wake : Wake) (s : Store p) (v : Worker)
      → WorkerMarked v
      → ((id : BucketId) (w : ℕ) → back id w + returned id w c v ≤ counted id w)
      → KeptAfter v (work p wake c m (db, s) v).0.0
  unfolding work
  work_keeps wake s selecting k no_more = no_return selecting
  work_keeps wake s (removing cs) k no_more =
      subst (KeptAfter (removing cs)) (ground arith) (no_return (removing cs))
  work_keeps wake s (returning cs) k no_more = elim (Option-cases (next_of c cs)) [
    | inl o ↦ subst (KeptAfter (returning cs)) (ground (arith, o)) (no_return (returning cs))
    | inr (((j, n, z), ds), o) ↦
        subst (KeptAfter (returning cs)) (ground (arith, o))
          (given j n z cs ds o (ChunksMarked-next_of c cs j n z ds k o).0 no_more)
  ]
  work_keeps wake s reporting k no_more = no_return reporting
  work_keeps wake s ended k no_more = no_return ended
