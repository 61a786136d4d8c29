-- ===== src/Session/Total.antt =====
-- A whole session: its first call opens the window.
use mathlib.Core.Path.{subst}
use that_limit.Prelude.{
  ℕ, zero, suc, ◌+◌, ◌-◌, ◌*◌, ◌≤◌, ◌<◌, ◌≡◌, refl, sym, ap, ◌∙◌, inl, min, false, none, some, List,
  [], ◌∷◌, length, ok, arith,
}
use that_limit.Prelude.Int.{pos}
use that_limit.Duration.{Instant, as_secs, from_millis, duration_since}
use that_limit.Bucket.{BucketId}
use that_limit.Config.{Config}
use that_limit.Lease
use that_limit.Lease.{to_key}
use that_limit.Lease.Script.{Fits}
use that_limit.Platform.{Platform}
use that_limit.Store.{Task, checking, Store, check, criteria}
use that_limit.Store.Answers.{consume_leased}
use that_limit.System.Quota.{holding}
use that_limit.Session.Fetch
use that_limit.Session.{
  admitted, answer_of, Limit, take, take_from, replay, count_admitted, Visit, consume_once, session,
}
use that_limit.Session.Open.{policy, IsTimely, IsOpen, IsSteady, run-config, consume_once-six}
use that_limit.Session.Step.{consume_once-Agrees}

module _ (size : ℕ) (some_size : 0 < size) where
  count-from :
      (n r b : ℕ)
      → count_admitted (replay size n (record { in_redis = r; in_bucket = b })) ≡ min n (r + b)
  count-from zero r b = omega arith
  count-from (suc n) r (suc b) = omega (arith, count-from n r b)
  count-from (suc n) zero zero = omega (arith, count-from n 0 0)
  count-from (suc n) (suc r) zero =
      let g = min (suc r) size in omega (arith, count-from n (suc r - g) (g - 1))

  -- Of so many calls the counter admits as many as it has tokens.
  pub count-replay :
      (n : ℕ) (l : Limit) → count_admitted (replay size n l) ≡ min n (l.in_redis + l.in_bucket)
  count-replay n l = count-from n l.in_redis l.in_bucket

take_from-le : (size r b : ℕ) → (take_from size r b).0.in_redis ≤ r
take_from-le size r (suc b) = omega arith
take_from-le size zero zero = omega arith
take_from-le size (suc r) zero = omega arith

module _ (p : Platform) (id : BucketId) (config : Config) where
  open p use {redis, buckets as bucket_map, refills as refill_map, show_ip}

  -- One visit after another.
  abbrev pub AllTimely : ℕ → Instant → ℕ → List (Visit p id) → Type 0
  AllTimely w until clock [] = Unit
  AllTimely w until clock (v ∷ vs) =
      IsTimely p id config w until clock v × AllTimely w until v.m₃.exchange.server_time vs

  take-IsSteady :
      (w : ℕ) (l : Limit)
      → IsSteady p id config w l
      → IsSteady p id config w (take (policy p id config).lease_size l).0
  take-IsSteady w l v = record {
    size_pos = v.size_pos;
    leases_some = v.leases_some;
    quota_exact = v.quota_exact;
    within =
        omega
          (arith, v.within, take_from-le (policy p id config).lease_size l.in_redis l.in_bucket);
    resets = v.resets;
    end_exact = v.end_exact;
  }

  session-open :
      (w : ℕ) (until : Instant) (vs : List (Visit p id)) (clock : ℕ) (l : Limit) (db : redis.Db)
      (s : Store p)
      → IsOpen p id config w until clock l db s
      → IsSteady p id config w l
      → AllTimely w until clock vs
      → session p id vs (db, s) ≡ replay (policy p id config).lease_size (length vs) l
  session-open w until [] clock l db s o steady timely = refl
  session-open w until (v ∷ vs) clock l db s o steady (t, timely) =
      let (same, o') = consume_once-Agrees p id config w until clock l db s v o t steady in
      let rest =
        session-open w until vs v.m₃.exchange.server_time _ _ _ o' (take-IsSteady w l steady)
          timely in
      cc

  -- Nothing is known of the id: no bucket, no refill, no window.
  pub record IsFresh (now : ℕ) (db : redis.Db) (s : Store p) : Type 0 where
    pub same : s.config ≡ config
    pub free : refill_map.get s.refills id ≡ none
    pub entry : redis.find db now (to_key show_ip id) ≡ none
    pub empty : bucket_map.get s.buckets id ≡ none

  module _ (v : Visit p id) where
    abbrev at : ℕ
    at = v.m₃.exchange.server_time

    -- The end of the window that this call opens.
    abbrev pub end : ℕ
    end = at + 1000 * as_secs (policy p id config).reset_in

    abbrev pub start : Limit
    start = record { in_redis = (policy p id config).quota; in_bucket = 0 }

    module _ (until : Instant) (db : redis.Db) (s : Store p) (fresh : IsFresh at db s)
        (steady : IsSteady p id config end start) (t : IsTimely p id config end until at v) where
      size : ℕ
      size = (policy p id config).lease_size

      fits : Fits at size (policy p id config).quota (as_secs (policy p id config).reset_in)
      unfolding size
      fits = record {
        size_exact = omega (arith, steady.leases_some, steady.quota_exact);
        quota_exact = steady.quota_exact;
        ttl_pos = steady.resets;
        end_exact = omega (arith, steady.end_exact);
      }

      missed : check p s v.m₁.now id ≡ ok false
      unfolding check
      missed = ground (arith, fresh.empty)

      time_left : ℕ
      time_left =
          from_millis (end - at) - duration_since v.m₃.exchange.finished v.m₃.exchange.started

      fetched :
          (db' : redis.Db) × (Lease.lease redis show_ip v.m₃.exchange db id
              (criteria s.config id).lease_size
              (criteria s.config id).quota
              (criteria s.config id).reset_in
            ≡ (db', ok (size, time_left, pos end)))
          × (redis.find db' at (to_key show_ip id)
              ≡ some (holding ((policy p id config).quota - size) end))
      unfolding size time_left
      fetched =
          let (db', ran, here) =
            Fetch.fetched p id config v.m₃.exchange db s fresh.same none fresh.entry tt fits
              t.link in
          (
            db',
            ran,
            here
                ∙ ground (
                  arith,
                  steady.leases_some,
                  redis.is_over-before at end (omega (arith, t.before)),
                ),
          )

      -- The first call.
      left : Limit
      left = record {
        in_redis = (policy p id config).quota - (policy p id config).lease_size;
        in_bucket = (policy p id config).lease_size - 1;
      }

      abbrev out : (redis.Db × Store p) × Task
      out = consume_once p id v (db, s)

      opened :
          (answer_of out.1 ≡ admitted ((policy p id config).lease_size - 1))
          × IsOpen p id config end until at left out.0.0 out.0.1
      unfolding left size time_left
      opened =
          let (db', fetch, here) = fetched in
          let positive : size ≡ suc (size - 1) = omega (arith, steady.size_pos) in
          let (answer, same_db, filled, free) =
            consume_leased p v.m₁ v.m₂ v.m₃ v.m₄ v.m₅ v.m₆ db s id db' time_left (pos end) missed
              fresh.free (size - 1) (fetch ∙ ap (λ n. (db', ok (n, time_left, pos end))) positive)
              (omega (arith, t.last, t.lasts)) in
          subst
            (λ u.
              (answer_of u.1 ≡ admitted ((policy p id config).lease_size - 1))
              × IsOpen p id config end until at left u.0.0 u.0.1)
            (sym (consume_once-six p id config v (db, s) _ answer))
            (
              ap answer_of answer,
              record {
                same = run-config p id config _ db s (checking id) ∙ fresh.same;
                free = free;
                entry = rw same_db here;
                bucket = record {
                  tokens = size - 1;
                  expires_at = v.m₄.now + time_left;
                  window = pos end;
                  exhausted = false;
                };
                found = filled;
                tokens = refl;
                lasts = t.lasts;
                marked = inl refl;
              },
            )

      take-start :
          take (policy p id config).lease_size start
          ≡ (left, admitted ((policy p id config).lease_size - 1))
      unfolding left
      take-start = ground (arith, steady.size_pos, steady.leases_some)

      module _ (vs : List (Visit p id)) (timely : AllTimely end until at vs) where
        -- If an instance knows nothing of an id and Redis has no window for it, and its policy
        -- leases at least one token and at most its quota, resets after a second or more and has
        -- exact numbers, then calls of `consume` for the id, one after another while nobody else
        -- asks for the id, whose calls of Redis are delivered while the window is open that the
        -- first one opens, and which end before the buckets of that window expire, answer exactly
        -- as the counter that starts with the quota in Redis: it spends from the bucket, refills an
        -- empty bucket by up to the lease size, and refuses when both are empty.
        pub session-replay :
            session p id (v ∷ vs) (db, s)
            ≡ replay (policy p id config).lease_size (length (v ∷ vs)) start
        session-replay =
            let (first, o) = opened in
            let steady' : IsSteady p id config end left =
              subst (IsSteady p id config end) (ap (λ a. a.0) take-start)
                (take-IsSteady end start steady) in
            let rest = session-open end until vs at left _ _ o steady' timely in
            subst
              (λ a.
                session p id (v ∷ vs) (db, s)
                ≡ a.1 ∷ replay (policy p id config).lease_size (length vs) a.0)
              (sym take-start) (cc)

        -- If an instance knows nothing of an id and Redis has no window for it, and its policy
        -- leases at least one token and at most its quota, resets after a second or more and has
        -- exact numbers, then of any number of calls of `consume` for the id, one after another
        -- while nobody else asks for the id, whose calls of Redis are delivered while the window is
        -- open that the first one opens, and which end before the buckets of that window expire,
        -- exactly as many are admitted as the quota allows: all of them, or as many as the quota.
        pub admits_quota :
            count_admitted (session p id (v ∷ vs) (db, s))
            ≡ min (length (v ∷ vs)) (policy p id config).quota
        admits_quota =
            ap count_admitted session-replay
            ∙ count-replay (policy p id config).lease_size steady.size_pos (length (v ∷ vs)) start
            ∙ omega arith
