-- ===== src/Session/Step.antt =====
-- One call against one step of the counter.
use mathlib.Core.Path.{subst}
use that_limit.Prelude.{
  ℕ, zero, suc, ◌+◌, ◌-◌, ◌≤◌, ◌<◌, ◌≡◌, refl, sym, ap, ◌∙◌, inl, inr, min, true, false, some, [],
  ◌∷◌, Result, ok, arith,
}
use that_limit.Prelude.Int.{pos}
use that_limit.Duration.{Instant, as_secs, from_millis, duration_since}
use that_limit.Bucket.{BucketId, Bucket, set_exhausted, is_empty, is_expired}
use that_limit.Bucket
use that_limit.Bucket.Ids.{id_eq_refl}
use that_limit.Redis.{Entry}
use that_limit.Config.{Config}
use that_limit.Lease
use that_limit.Lease.{to_key}
use that_limit.Lease.Script.{Fits, IsRegular}
use that_limit.Platform.{Platform}
use that_limit.Store.{Error, Task, checking, finished, Store, run, check, criteria}
use that_limit.Store.Answers.{
  run-finished, consume_local, consume_exhausted, consume_leased, consume_denied,
}
use that_limit.System.Quota.{holding}
use that_limit.Session.Fetch
use that_limit.Session.{Answer, admitted, refused, answer_of, Limit, take, Visit, consume_once}
use that_limit.Session.Open.{policy, IsTimely, IsOpen, IsSteady, run-config, six, consume_once-six}

module _ (p : Platform) (id : BucketId) (config : Config) where
  open p use {redis, buckets as bucket_map, refills as refill_map, show_ip}

  module _ (w : ℕ) (until : Instant) (clock : ℕ) (l : Limit) (db : redis.Db) (s : Store p)
      (v : Visit p id) (o : IsOpen p id config w until clock l db s)
      (t : IsTimely p id config w until clock v) (steady : IsSteady p id config w l) where
    abbrev at : ℕ
    at = v.m₃.exchange.server_time

    abbrev pub out : (redis.Db × Store p) × Task
    out = consume_once p id v (db, s)

    -- The call does as the counter, and leaves the two alike.
    abbrev AgreesAs : (redis.Db × Store p) × Task → Limit × Answer → Type 0
    AgreesAs u a = (answer_of u.1 ≡ a.1) × IsOpen p id config w until at a.0 u.0.0 u.0.1

    abbrev pub Agrees : Type 0
    Agrees = AgreesAs out (take (policy p id config).lease_size l)

    six_Agrees :
        (res : Result Error ℕ)
        → (six p id config v (db, s)).1 ≡ finished res
        → AgreesAs (six p id config v (db, s)) (take (policy p id config).lease_size l)
        → Agrees
    six_Agrees res e h =
        subst (λ u. AgreesAs u (take (policy p id config).lease_size l))
          (sym (consume_once-six p id config v (db, s) res e)) h

    entry_at :
        (later : ℕ)
        → clock ≤ later
        → later < w
        → redis.find db later (to_key show_ip id) ≡ some (holding l.in_redis w)
    entry_at later le lt = ground (
      arith,
      redis.find_later db clock later (to_key show_ip id) le,
      o.entry,
      redis.is_over-before later w lt,
    )

    -- The bucket has tokens.
    local_Agrees : (b : ℕ) → l.in_bucket ≡ suc b → o.bucket.exhausted ≡ false → Agrees
    unfolding run Bucket.consume
    local_Agrees b some_left x =
        let ran =
          ap (λ u. run p (v.m₃ ∷ v.m₄ ∷ v.m₅ ∷ v.m₆ ∷ v.m₇ ∷ []) u.0 u.1)
            (consume_local p v.m₁ v.m₂ db s id o.bucket b o.found x (o.tokens ∙ some_left)
              (omega (arith, t.first, o.lasts)) (omega (arith, t.second, o.lasts)))
          ∙ run-finished p (v.m₃ ∷ v.m₄ ∷ v.m₅ ∷ v.m₆ ∷ v.m₇ ∷ []) _ _ in
        subst (λ u. AgreesAs u (take (policy p id config).lease_size l)) (sym ran)
          (
            rw some_left refl,
            rw some_left (record {
              same = o.same;
              free = o.free;
              entry = entry_at at t.after t.before;
              bucket = (Bucket.consume o.bucket).0;
              found = ground (
                arith,
                bucket_map.get-alter s.buckets id id (λ c. (Bucket.consume c).0),
                o.found,
                id_eq_refl id,
              );
              tokens = ground (arith, o.tokens, some_left);
              lasts = ground (arith, o.lasts);
              marked = inl (ground (arith, x));
            }),
          )

    -- It is marked as exhausted.
    marked_Agrees : o.bucket.exhausted ≡ true → l.in_redis ≡ 0 → l.in_bucket ≡ 0 → Agrees
    marked_Agrees x no_more none_left =
        let ran =
          consume_exhausted p v.m₁ (v.m₂ ∷ v.m₃ ∷ v.m₄ ∷ v.m₅ ∷ v.m₆ ∷ v.m₇ ∷ []) db s id o.bucket
            o.found x in
        subst (λ u. AgreesAs u (take (policy p id config).lease_size l)) (sym ran)
          (
            rw (no_more, none_left) refl,
            rw (no_more, none_left)
                (record {
                  same = o.same;
                  free = o.free;
                  entry = rw no_more at (entry_at at t.after t.before);
                  bucket = o.bucket;
                  found = o.found;
                  tokens = o.tokens ∙ none_left;
                  lasts = o.lasts;
                  marked = inr (x, refl, refl);
                }),
          )

    missed : l.in_bucket ≡ 0 → o.bucket.exhausted ≡ false → check p s v.m₁.now id ≡ ok false
    unfolding check is_empty
    missed none_left x = ground (arith, o.found, o.tokens, none_left, x)

    size : ℕ
    size = (policy p id config).lease_size

    held : Entry
    held = holding l.in_redis w

    held-IsRegular : IsRegular (some held)
    unfolding held
    held-IsRegular = (
      record { above = omega (arith, steady.within, steady.quota_exact); below = omega arith },
      w,
      refl,
      omega (arith, steady.end_exact),
    )

    fits : Fits at size (policy p id config).quota (as_secs (policy p id config).reset_in)
    unfolding size
    fits = record {
      size_exact = omega (arith, steady.leases_some, steady.quota_exact);
      quota_exact = steady.quota_exact;
      ttl_pos = steady.resets;
      end_exact = omega (arith, steady.end_exact, t.before);
    }

    g : ℕ
    g = min l.in_redis size

    time_left : ℕ
    time_left = from_millis (w - at) - duration_since v.m₃.exchange.finished v.m₃.exchange.started

    -- What Redis answers and holds after it.
    fetched :
        (db' : redis.Db) × (Lease.lease redis show_ip v.m₃.exchange db id
            (criteria s.config id).lease_size
            (criteria s.config id).quota
            (criteria s.config id).reset_in
          ≡ (db', ok (g, time_left, pos w)))
        × (redis.find db' at (to_key show_ip id) ≡ some (holding (l.in_redis - g) w))
    unfolding size held g time_left
    fetched =
        let (db', ran, here) =
          Fetch.fetched p id config v.m₃.exchange db s o.same (some held)
            (entry_at at t.after t.before) held-IsRegular fits t.link in
        (db', ran, here ∙ ground (arith, redis.is_over-before at w t.before))

    taken : ℕ → Limit × Answer
    taken n = (record { in_redis = l.in_redis - n; in_bucket = n - 1 }, admitted (n - 1))

    take_some :
        (r : ℕ)
        → l.in_redis ≡ suc r
        → l.in_bucket ≡ 0
        → take (policy p id config).lease_size l ≡ taken g
    unfolding taken g size
    take_some r some_left none_left = ground (arith, some_left, none_left)

    -- It is empty, and Redis has tokens.
    leased_Agrees :
        (r : ℕ) → l.in_redis ≡ suc r → l.in_bucket ≡ 0 → o.bucket.exhausted ≡ false → Agrees
    unfolding size g taken time_left
    leased_Agrees r some_left none_left x =
        let (db', fetch, here) = fetched in
        let positive : g ≡ suc (g - 1) = omega (arith, steady.size_pos) in
        let (answer, same_db, filled, free) =
          consume_leased p v.m₁ v.m₂ v.m₃ v.m₄ v.m₅ v.m₆ db s id db' time_left (pos w)
            (missed none_left x) o.free (g - 1)
            (fetch ∙ ap (λ n. (db', ok (n, time_left, pos w))) positive)
            (omega (arith, t.last, t.lasts)) in
        six_Agrees _ answer (
          subst (AgreesAs (six p id config v (db, s))) (sym (take_some r some_left none_left)) (
            ap answer_of answer,
            record {
              same = run-config p id config _ db s (checking id) ∙ o.same;
              free = free;
              entry = rw same_db here;
              bucket = record {
                tokens = g - 1;
                expires_at = v.m₄.now + time_left;
                window = pos w;
                exhausted = false;
              };
              found = filled;
              tokens = refl;
              lasts = t.lasts;
              marked = inl refl;
            },
          ))

    -- It is empty, and so is Redis.
    denied_Agrees : l.in_redis ≡ 0 → l.in_bucket ≡ 0 → o.bucket.exhausted ≡ false → Agrees
    unfolding size g set_exhausted
    denied_Agrees no_more none_left x =
        let (db', fetch, here) = fetched in
        let nothing : g ≡ 0 = omega arith in
        let (answer, same_db, filled, free) =
          consume_denied p v.m₁ v.m₂ v.m₃ v.m₄ v.m₅ v.m₆ db s id db' time_left (pos w)
            (missed none_left x) o.free o.bucket
            (fetch ∙ ap (λ n. (db', ok (n, time_left, pos w))) nothing) o.found in
        let take_none : take (policy p id config).lease_size l
            ≡ (record { in_redis = 0; in_bucket = 0 }, refused) =
          rw (no_more, none_left) refl in
        six_Agrees _ answer (
          subst (AgreesAs (six p id config v (db, s))) (sym take_none) (
            ap answer_of answer,
            record {
              same = run-config p id config _ db s (checking id) ∙ o.same;
              free = free;
              entry = rw same_db (here ∙ ap (λ n. some (holding n w)) (omega arith));
              bucket = set_exhausted o.bucket;
              found = filled;
              tokens = o.tokens ∙ none_left;
              lasts = o.lasts;
              marked = inr (refl, refl, refl);
            },
          ))

    by_counter : (r c : ℕ) → l.in_redis ≡ r → l.in_bucket ≡ c → o.bucket.exhausted ≡ false → Agrees
    by_counter r (suc c) e f x = local_Agrees c f x
    by_counter (suc r) zero e f x = leased_Agrees r e f x
    by_counter zero zero e f x = denied_Agrees e f x

    pub consume_once-Agrees : Agrees
    consume_once-Agrees = elim o.marked [
      | inl x ↦ by_counter l.in_redis l.in_bucket refl refl x
      | inr (x, no_more, none_left) ↦ marked_Agrees x no_more none_left
    ]
