-- ===== src/System/Dropped.antt =====
-- A call that fills a bucket while the background task has its id among the keys that it removes.
use that_limit.Prelude.{
  ℕ, suc, ◌≤◌, ◌≡◌, refl, ap, sym, ◌∙◌, none, some, List, ok, if_pos, ℕ_discrete, arith,
}
use mathlib.Core.Path.{ap₂, subst}
use that_limit.Prelude.Int.{ℤ}
use that_limit.Duration.{Duration}
use that_limit.Bucket.{BucketId, Bucket}
use that_limit.Bucket
use that_limit.Bucket.Ids.{id_eq_refl}
use that_limit.Platform.{Platform}
use that_limit.Store.{Task, settling, waking, finished, Store, Moment, advance}
use that_limit.Store.Background.Worker.{Worker, removing, tick, next_of, work}
use that_limit.System.{System, step, tend, Reach, here, next, background}

module _ (p : Platform) where
  open p use {redis, buckets as bucket_map}

  -- Redis, one instance with one of its calls, and its background task.
  abbrev View : Type 0
  View = ((redis.Db × Store p) × Task) × Worker

  abbrev move : Moment p → View → View
  move m v = (advance p m v.0.0 v.0.1, v.1)

  abbrev sweep : ℕ → Moment p → View → View
  sweep c m v = let o = work p tick c m v.0.0 v.1 in ((o.0, v.0.1), o.1)

  module _ (home : ℕ → ℕ) (i : ℕ) where
    abbrev view : System p → View
    view s = (((s.db, s.stores (home i)), s.tasks i), s.workers (home i))

    view-step : (s : System p) (m : Moment p) → view (step p home s i m) ≡ move m (view s)
    unfolding step
    view-step s m =
        let o = advance p m (s.db, s.stores (home i)) (s.tasks i) in
        ap₂ (λ st t. (((o.0.0, st), t), s.workers (home i)))
          (if_pos (ℕ_discrete (home i) (home i)) refl o.0.1 (s.stores (home i)))
          (if_pos (ℕ_discrete i i) refl o.1 (s.tasks i))

    view-tend :
        (s : System p) (c : ℕ) (m : Moment p)
        → view (tend p home s (home i) tick c m) ≡ sweep c m (view s)
    unfolding tend
    view-tend s c m =
        let o = work p tick c m (s.db, s.stores (home i)) (s.workers (home i)) in
        ap₂ (λ st w. (((o.0.0, st), s.tasks i), w))
          (if_pos (ℕ_discrete (home i) (home i)) refl o.0.1 (s.stores (home i)))
          (if_pos (ℕ_discrete (home i) (home i)) refl o.1 (s.workers (home i)))

  -- The call has got no token, and the id has no bucket.
  abbrev IsMissed : redis.Db → BucketId → View → Type 0
  IsMissed db id v =
      (v.0.1 ≡ finished (ok 0)) × (v.0.0.0 ≡ db) × (bucket_map.get v.0.0.1.buckets id ≡ none)

  module _ (db : redis.Db) (s : Store p) (id : BucketId) (b : Bucket) where
    -- The bucket is filled, and then removed.
    abbrev filled : Store p
    filled = record s { buckets = bucket_map.insert s.buckets id b }

    abbrev swept : Store p
    swept = record filled { buckets = bucket_map.remove filled.buckets id }

    sweep-filled :
        (cs cs' : List (List BucketId)) (c : ℕ) (m : Moment p)
        → next_of c cs ≡ some (id, cs')
        → sweep c m (((db, filled), waking id (ok tt)), removing cs)
          ≡ (((db, swept), waking id (ok tt)), removing cs')
    unfolding work
    sweep-filled cs cs' c m due = ground (arith, due)

    swept_empty : bucket_map.get swept.buckets id ≡ none
    swept_empty = ground (arith, bucket_map.get-remove filled.buckets id id, id_eq_refl id)

    -- Whether its `Notify` is still there or not.
    spend_nothing :
        (cs : List (List BucketId)) (m m' : Moment p)
        → IsMissed db id (move m' (move m (((db, swept), waking id (ok tt)), removing cs)))
    unfolding advance
    spend_nothing cs m m' = ground (arith, swept_empty)

  module _ (home : ℕ → ℕ) (i : ℕ) (s : System p) where
    -- One call of the instance and a step of its background task between the steps of the call.
    abbrev pub after_fill : Moment p → System p
    after_fill m₁ = step p home s i m₁

    abbrev pub after_all : ℕ → Moment p → Moment p → Moment p → Moment p → System p
    after_all c m₁ m₂ m₃ m₄ =
        step p home (step p home (tend p home (after_fill m₁) (home i) tick c m₂) i m₃) i m₄

    module _ (id : BucketId) (n : ℕ) (ttl : Duration) (w : ℤ) (cs cs' : List (List BucketId))
        (c : ℕ) (m₁ m₂ m₃ m₄ : Moment p) where
      abbrev new : Bucket
      new = Bucket.new m₁.now (suc n) ttl w

      abbrev store : Store p
      store = s.stores (home i)

      module _ (fills : s.tasks i ≡ settling id (suc n) ttl w)
          (removes : s.workers (home i) ≡ removing cs) (due : next_of c cs ≡ some (id, cs')) where
        view-fill :
            view home i (after_fill m₁)
            ≡ (((s.db, filled s.db store id new), waking id (ok tt)), removing cs)
        unfolding advance
        view-fill =
            view-step home i s m₁
            ∙ ap₂ (λ t k. move m₁ (((s.db, s.stores (home i)), t), k)) fills removes
            ∙ ground arith

        view-all :
            view home i (after_all c m₁ m₂ m₃ m₄)
            ≡ move m₄ (move m₃ (((s.db, swept s.db store id new), waking id (ok tt)), removing cs'))
        view-all =
            view-step home i _ m₄
            ∙ ap (move m₄) (
                view-step home i _ m₃
                ∙ ap (move m₃) (
                    view-tend home i _ c m₂
                    ∙ ap (sweep c m₂) view-fill
                    ∙ sweep-filled s.db store id new cs cs' c m₂ due))

        missed : IsMissed s.db id (view home i (after_all c m₁ m₂ m₃ m₄))
        missed = subst (IsMissed s.db id) (sym view-all) (spend_nothing s.db store id new cs' m₃ m₄)

        found : bucket_map.get ((after_fill m₁).stores (home i)).buckets id ≡ some new
        found =
            ap (λ v. bucket_map.get v.0.0.1.buckets id) view-fill
            ∙ ground (arith, id_eq_refl id, bucket_map.get-insert store.buckets id id new)

      reached :
          s.clock ≤ m₁.exchange.server_time
          → m₁.exchange.server_time ≤ m₂.exchange.server_time
          → m₂.exchange.server_time ≤ m₃.exchange.server_time
          → m₃.exchange.server_time ≤ m₄.exchange.server_time
          → Reach p home s (after_all c m₁ m₂ m₃ m₄)
      unfolding step tend
      reached a b d e =
          next (next (background (next here i m₁ a) (home i) tick c m₂ b) i m₃ d) i m₄ e

      -- If a call has leased a token or more and is about to fill the bucket of its id, the
      -- background task of its instance has this id next in a chunk of the keys that it removes,
      -- and the time of Redis does not go back, then, when the call fills the bucket, the task
      -- removes it and the call goes on, the bucket was there with all its tokens, the call is
      -- answered `ok` with 0 tokens left, no bucket is there, and Redis is as it was.
      pub lease_dropped :
          s.tasks i ≡ settling id (suc n) ttl w
          → s.workers (home i) ≡ removing cs
          → next_of c cs ≡ some (id, cs')
          → s.clock ≤ m₁.exchange.server_time
          → m₁.exchange.server_time ≤ m₂.exchange.server_time
          → m₂.exchange.server_time ≤ m₃.exchange.server_time
          → m₃.exchange.server_time ≤ m₄.exchange.server_time
          → let u = after_all c m₁ m₂ m₃ m₄ in
            Reach p home s u
            × (bucket_map.get ((after_fill m₁).stores (home i)).buckets id
                ≡ some (Bucket.new m₁.now (suc n) ttl w))
            × (u.tasks i ≡ finished (ok 0))
            × (u.db ≡ s.db)
            × (bucket_map.get (u.stores (home i)).buckets id ≡ none)
      lease_dropped fills removes due a b d e =
          let (answered, same, gone) = missed fills removes due in
          (reached a b d e, found fills removes due, answered, same, gone)
