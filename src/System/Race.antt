-- ===== src/System/Race.antt =====
-- Calls that pass the check together are all answered `ok`, however few tokens there are.
use mathlib.Core.Path.{ap₂}
use that_limit.Prelude.{
  ℕ, zero, suc, ◌≤◌, ◌<◌, ◌≡◌, ◌≢◌, ap, ◌∙◌, false, Option, some, ok, if_pos, if_neg, ℕ_discrete,
  arith,
}
use that_limit.Bucket.{BucketId, Bucket, is_empty, is_expired}
use that_limit.Bucket.Ids.{id_eq_refl}
use that_limit.Bucket
use that_limit.Platform.{Platform}
use that_limit.Store.{Task, checking, spending, finished, Store, Moment, advance, check}
use that_limit.System.{System, step, Reach, here, next, background}

module _ (p : Platform) (home : ℕ → ℕ) (h : ℕ) (id : BucketId) (m : Moment p) (n : ℕ) where
  open p use {redis, buckets as bucket_map}

  abbrev get : Store p → Option Bucket
  get s = bucket_map.get s.buckets id

  -- The first `k` of the calls have gone from `from` to `to`, and the bucket has `lo` to 1 tokens.
  pub record Phase (lo : ℕ) (from to : Task) (k : ℕ) (s : System p) : Type 0 where
    pub bucket : Bucket
    pub found : get (s.stores h) ≡ some bucket
    pub usable : bucket.exhausted ≡ false
    pub at_least : lo ≤ bucket.tokens
    pub at_most : bucket.tokens ≤ 1
    pub alive : m.now < bucket.expires_at
    pub clock : s.clock ≤ m.exchange.server_time
    pub gone : (i : ℕ) → i < k → s.tasks i ≡ to
    pub waiting : (i : ℕ) → k ≤ i → i < n → s.tasks i ≡ from

  -- The bucket has one token, and `n` calls for it have arrived.
  abbrev pub IsRush : System p → Type 0
  IsRush = Phase 1 (checking id) (spending id) 0

  check-passes :
      (db : redis.Db) (s : Store p) (b : Bucket)
      → get s ≡ some b
      → b.exhausted ≡ false
      → 1 ≤ b.tokens
      → m.now < b.expires_at
      → advance p m (db, s) (checking id) ≡ ((db, s), spending id)
  unfolding advance check is_empty is_expired
  check-passes db s b g x t a = ground (arith, g, x)

  spend-ok :
      (db : redis.Db) (s : Store p) (b : Bucket)
      → get s ≡ some b
      → b.tokens ≤ 1
      → m.now < b.expires_at
      → let w = advance p m (db, s) (spending id) in
        (w.1 ≡ finished (ok 0)) × (get w.0.1 ≡ some (record b { tokens = 0 }))
  unfolding advance is_expired Bucket.consume
  spend-ok db s b g t a =
      ground
        (arith, g, id_eq_refl id, bucket_map.get-alter s.buckets id id (λ c. (Bucket.consume c).0))

  -- One more call makes its step.
  module _ (here_all : (i : ℕ) → i < n → home i ≡ h) (lo : ℕ) (from to : Task) (k : ℕ)
      (s : System p) (v : Phase lo from to k s) (lt : k < n) where
    advanced :
        (b : Bucket)
        → (advance p m (s.db, s.stores h) from).1 ≡ to
        → get (advance p m (s.db, s.stores h) from).0.1 ≡ some b
        → b.exhausted ≡ false
        → lo ≤ b.tokens
        → b.tokens ≤ 1
        → m.now < b.expires_at
        → Phase lo from to (suc k) (step p home s k m)
    unfolding step
    advanced b t g x l u a =
        let at_home = here_all k lt in
        let mine : s.tasks k ≡ from = v.waiting k (omega arith) lt in
        record {
          bucket = b;
          found =
              ap get (
                if_pos (ℕ_discrete (home k) h) at_home _ _
                ∙ ap₂ (λ c t. (advance p m (s.db, s.stores c) t).0.1) at_home mine)
              ∙ g;
          usable = x;
          at_least = l;
          at_most = u;
          alive = a;
          clock = omega arith;
          gone = λ i le. elim (ℕ_discrete k i) [
            | yes e ↦
                if_pos (ℕ_discrete k i) e _ _
                ∙ ap₂ (λ c t. (advance p m (s.db, s.stores c) t).1) at_home mine
                ∙ t
            | no ne ↦ if_neg (ℕ_discrete k i) ne _ _ ∙ v.gone i (omega arith)
          ];
          waiting = λ i le less.
              let ne : k ≢ i = omega arith in
              if_neg (ℕ_discrete k i) ne _ _ ∙ v.waiting i (omega arith) less;
        }

  module _ (here_all : (i : ℕ) → i < n → home i ≡ h) where
    -- First all check, then all spend.
    checks :
        (k : ℕ) (s : System p)
        → k ≤ n
        → Phase 1 (checking id) (spending id) 0 s
        → (t : System p) × Reach p home s t × Phase 1 (checking id) (spending id) k t
    checks zero s le v = (s, here, v)
    checks (suc k) s le v =
        let (t, r, u) = checks k s (omega arith) v in
        let e = check-passes t.db (t.stores h) u.bucket u.found u.usable u.at_least u.alive in
        (
          step p home t k m,
          next r k m u.clock,
          advanced here_all 1 (checking id) (spending id) k t u (omega arith) u.bucket
              (ap (λ w. w.1) e) (ap (λ w. get w.0.1) e ∙ u.found) u.usable u.at_least u.at_most
              u.alive,
        )

    spends :
        (k : ℕ) (s : System p)
        → k ≤ n
        → Phase 0 (spending id) (finished (ok 0)) 0 s
        → (t : System p) × Reach p home s t × Phase 0 (spending id) (finished (ok 0)) k t
    spends zero s le v = (s, here, v)
    spends (suc k) s le v =
        let (t, r, u) = spends k s (omega arith) v in
        let e = spend-ok t.db (t.stores h) u.bucket u.found u.at_most u.alive in
        (
          step p home t k m,
          next r k m u.clock,
          advanced here_all 0 (spending id) (finished (ok 0)) k t u (omega arith)
              (record (u.bucket) { tokens = 0 }) e.0 e.1 u.usable (omega arith) (omega arith)
              u.alive,
        )

    Reach-trans : {s t u : System p} → Reach p home s t → Reach p home t u → Reach p home s u
    Reach-trans r here = r
    Reach-trans r (next q i m' le) = next (Reach-trans r q) i m' le
    Reach-trans r (background q i wake c m' le) = background (Reach-trans r q) i wake c m' le

    -- From a state in which `n` calls on one instance arrive at a bucket with one token and time
    -- left that is not marked as exhausted, some interleaving answers all of them `ok`, whatever
    -- `n` is.
    pub all_admitted :
        (s : System p)
        → IsRush s
        → (t : System p) × Reach p home s t × ((i : ℕ) → i < n → t.tasks i ≡ finished (ok 0))
    all_admitted s v =
        let (t, r, u) = checks n s (omega arith) v in
        let ready : Phase 0 (spending id) (finished (ok 0)) 0 t = record {
          bucket = u.bucket;
          found = u.found;
          usable = u.usable;
          at_least = omega arith;
          at_most = u.at_most;
          alive = u.alive;
          clock = u.clock;
          gone = λ i le. absurd (omega arith);
          waiting = λ i le less. u.gone i less;
        } in
        let (w, q, x) = spends n t (omega arith) ready in (w, Reach-trans r q, x.gone)
