-- ===== src/System/ZeroReset.antt =====
-- Policies that reset in less than a second, as `TryFrom<UncheckedPolicy>` accepts them.
use that_limit.Prelude.{ℕ, ◌≤◌, ◌≡◌, ◌≢◌, refl, ap, sym, ◌∙◌, none, List, [], ◌∷◌, ok, err, arith}
use mathlib.Core.Path.{subst}
use that_limit.Prelude.Family.{update-all}
use that_limit.Duration.{as_secs}
use that_limit.Bucket.{BucketId, Bucket}
use that_limit.Config.{Config, Cleanup}
use that_limit.DashMap.{Agrees}
use that_limit.Lease.{to_key}
use that_limit.Lease.Calls.{lease_fails}
use that_limit.Platform.{Platform}
use that_limit.Store.{
  Error, Task, checking, claiming, leasing, settling, waking, arming, waiting, spending, dropping,
  finished, Store, Moment, advance, check, criteria, cache,
}
use that_limit.Store.Background.Worker.{
  Worker, selecting, removing, returning, reporting, ended, Wake, tick, shut_down, first, work,
}
use that_limit.System.{System, init, step, tend, Reach, here, next, background}
use that_limit.System.Quota.Leases.{advance-config}

-- A call that has not been admitted, and will not be.
abbrev Fails : Task → Type 0
Fails (settling _ _ _ _) = ⊥
Fails (waking _ (ok _)) = ⊥
Fails (spending _) = ⊥
Fails (dropping _) = ⊥
Fails (finished (ok _)) = ⊥
Fails _ = Unit

-- A background task that has found nothing.
abbrev Idles : Worker → Type 0
Idles (removing _) = ⊥
Idles (returning _) = ⊥
Idles _ = Unit

first-Idles : (c : Cleanup) → Idles (first c)
first-Idles c = ground arith

module _ (p : Platform) (config : Config)
    (resets : (id : BucketId) → as_secs (criteria config id).reset_in ≡ 0) where
  open p use {redis, buckets as bucket_map, show_ip}

  -- No id has a window in Redis at a time.
  abbrev pub NoWindow : redis.Db → ℕ → Type 0
  NoWindow db now = (id : BucketId) → redis.find db now (to_key show_ip id) ≡ none

  still_absent : (db : redis.Db) (now later : ℕ) → now ≤ later → NoWindow db now → NoWindow db later
  still_absent db now later le h id =
      ground (arith, h id, redis.find_later db now later (to_key show_ip id) le)

  record IsClosed (s : Store p) : Type 0 where
    pub same : s.config ≡ config
    pub empty : (id : BucketId) → bucket_map.get s.buckets id ≡ none

  module _ (m : Moment p) (db : redis.Db) (s : Store p) where
    fetch_fails :
        (id : BucketId)
        → NoWindow db m.exchange.server_time
        → IsClosed s
        → (e : Error) × (advance p m (db, s) (leasing id) ≡ ((db, s), waking id (err e)))
    unfolding advance
    fetch_fails id h c =
        let criteria_of = criteria s.config id in
        let (e, same) =
          lease_fails redis show_ip m.exchange db id criteria_of.lease_size criteria_of.quota
            criteria_of.reset_in (ap (λ d. as_secs (criteria d id).reset_in) c.same ∙ resets id)
            (h id) in
        (
          cache e,
          ap
              (λ u. (
                (u.0, s),
                elim u.1 [
                  | err d ↦ waking id (err (cache d))
                  | ok (leased, left, w) ↦ settling id leased left w
                ],
              ))
              same,
        )

    advance-buckets : (t : Task) → Fails t → (advance p m (db, s) t).0.1.buckets ≡ s.buckets
    unfolding advance
    advance-buckets (claiming id) f = ground arith
    advance-buckets (waking id res) f = ground arith
    advance-buckets (settling id n ttl w) f = absurd f
    advance-buckets (spending id) f = absurd f
    advance-buckets (dropping id) f = absurd f
    advance-buckets _ f = refl

    advance-Fails :
        (t : Task)
        → NoWindow db m.exchange.server_time
        → IsClosed s
        → Fails t
        → ((advance p m (db, s) t).0.0 ≡ db) × Fails (advance p m (db, s) t).1
    unfolding advance check
    advance-Fails (checking id) h c f = (refl, ground (arith, c.empty id))
    advance-Fails (claiming id) h c f = (refl, ground arith)
    advance-Fails (leasing id) h c f =
        let (e, same) = fetch_fails id h c in
        (ap (λ u. u.0.0) same, subst (λ u. Fails u.1) (sym same) tt)
    advance-Fails (waking id (err e)) h c f = (ground arith, ground arith)
    advance-Fails (waking id (ok u)) h c f = absurd f
    advance-Fails (arming id n) h c f = (refl, tt)
    advance-Fails (waiting id n b) h c f = (refl, ground arith)
    advance-Fails (finished res) h c f = (refl, f)
    advance-Fails (settling id n ttl w) h c f = absurd f
    advance-Fails (spending id) h c f = absurd f
    advance-Fails (dropping id) h c f = absurd f

    advance-IsClosed : (t : Task) → Fails t → IsClosed s → IsClosed (advance p m (db, s) t).0.1
    advance-IsClosed t f c = record {
      same = advance-config p config m db s t ∙ c.same;
      empty = λ id. ap (λ bs. bucket_map.get bs id) (advance-buckets t f) ∙ c.empty id;
    }

    no_entries :
        (es : List (BucketId × Bucket))
        → IsClosed s
        → Agrees (bucket_map.get s.buckets) es
        → es ≡ []
    no_entries [] c a = refl
    no_entries ((k, b) ∷ es) c (e, a) = ground (arith, e, c.empty k)

    work-Idles :
        (wake : Wake) (n : ℕ) (v : Worker)
        → IsClosed s
        → Idles v
        → ((work p wake n m (db, s) v).0 ≡ (db, s)) × Idles (work p wake n m (db, s) v).1
    unfolding work
    work-Idles tick n selecting c f =
        (refl, ground (arith, no_entries _ c (bucket_map.entries_sound s.buckets)))
    work-Idles shut_down n selecting c f =
        (refl, ground (arith, no_entries _ c (bucket_map.entries_sound s.buckets)))
    work-Idles wake n reporting c f = (refl, tt)
    work-Idles wake n ended c f = (refl, tt)
    work-Idles wake n (removing cs) c f = absurd f
    work-Idles wake n (returning cs) c f = absurd f

  record AllFail (s : System p) : Type 0 where
    pub no_window : NoWindow s.db s.clock
    pub closed : (h : ℕ) → IsClosed (s.stores h)
    pub fails : (i : ℕ) → Fails (s.tasks i)
    pub idles : (h : ℕ) → Idles (s.workers h)

  module _ (home : ℕ → ℕ) where
    step-AllFail :
        (s : System p) (i : ℕ) (m : Moment p)
        → s.clock ≤ m.exchange.server_time
        → AllFail s
        → AllFail (step p home s i m)
    unfolding step
    step-AllFail s i m le v =
        let h = still_absent s.db s.clock m.exchange.server_time le v.no_window in
        let (same, f) =
          advance-Fails m s.db (s.stores (home i)) (s.tasks i) h (v.closed (home i)) (v.fails i) in
        record {
          no_window = subst (λ d. NoWindow d m.exchange.server_time) (sym same) h;
          closed = update-all IsClosed s.stores (home i) _ v.closed (
              advance-IsClosed m s.db (s.stores (home i)) (s.tasks i) (v.fails i)
                (v.closed (home i)));
          fails = update-all Fails s.tasks i _ v.fails f;
          idles = v.idles;
        }

    tend-AllFail :
        (s : System p) (h : ℕ) (wake : Wake) (c : ℕ) (m : Moment p)
        → s.clock ≤ m.exchange.server_time
        → AllFail s
        → AllFail (tend p home s h wake c m)
    unfolding tend
    tend-AllFail s h wake c m le v =
        let (same, idle) =
          work-Idles m s.db (s.stores h) wake c (s.workers h) (v.closed h) (v.idles h) in
        record {
          no_window =
              subst (λ w. NoWindow w.0 m.exchange.server_time) (sym same)
                (still_absent s.db s.clock m.exchange.server_time le v.no_window);
          closed =
              update-all IsClosed s.stores h _ v.closed
                (subst (λ w. IsClosed w.1) (sym same) (v.closed h));
          fails = v.fails;
          idles = update-all Idles s.workers h _ v.idles idle;
        }

    module _ (db : redis.Db) (clock : ℕ) (ids : ℕ → BucketId) (fresh : NoWindow db clock) where
      Reach-AllFail : {s : System p} → Reach p home (init p config db clock ids) s → AllFail s
      Reach-AllFail here = record {
        no_window = fresh;
        closed = λ h. record { same = refl; empty = bucket_map.get-empty };
        fails = λ i. tt;
        idles = λ h. first-Idles config.cleanup;
      }
      Reach-AllFail (next {t} r i m le) = step-AllFail t i m le (Reach-AllFail r)
      Reach-AllFail (background {t} r h wake c m le) =
          tend-AllFail t h wake c m le (Reach-AllFail r)

      never_ok : (t : Task) (n : ℕ) → Fails t → t ≢ finished (ok n)
      never_ok t n f e = subst Fails e f

      -- If the policies of both kinds reset in less than a second, and Redis starts without an
      -- entry for any id, then in every history of the instances, whatever becomes of the calls of
      -- Redis, no call of `consume` is ever admitted.
      pub never_admits :
          {s : System p}
          → Reach p home (init p config db clock ids) s
          → (i n : ℕ) → s.tasks i ≢ finished (ok n)
      never_admits {s} r i n = never_ok (s.tasks i) n ((Reach-AllFail r).fails i)
