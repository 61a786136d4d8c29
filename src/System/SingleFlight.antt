-- ===== src/System/SingleFlight.antt =====
-- Single flight: on one instance, one task at a time leases for an id.
use that_limit.Prelude.{
  ℕ, ◌≡◌, ◌≢◌, refl, ap, inl, inr, Option, none, some, Option-cases, if◌then◌else◌, arith,
}
use that_limit.Prelude.Family.{update}
use that_limit.Bucket.{BucketId}
use that_limit.Bucket.Ids.{id_eq, id_eq_iff}
use that_limit.Config.{Config}
use that_limit.Platform.{Platform}
use that_limit.Store.{
  Task, checking, claiming, leasing, settling, waking, arming, waiting, spending, dropping,
  finished, Store, Moment, advance,
}
use that_limit.Store.Background.Worker.{Wake}
use that_limit.Store.Background.Frame.{work-KeepsRefills}
use that_limit.System.{System, init, step, tend, Reach, here, next, background}

-- The id that a task is leasing for: between its insertion into `refills` and the removal.
abbrev pub leads : Task → Option BucketId
leads (leasing id) = some id
leads (settling id _ _ _) = some id
leads (waking id _) = some id
leads _ = none

module _ (p : Platform) where
  open p use {redis, refills as refill_map}

  abbrev pub get : Store p → BucketId → Option ℕ
  get s id = refill_map.get s.refills id

  -- What one step of a task does to the refills of its instance.
  pub data Turn (s s' : Store p) (t t' : Task) : Type 0 where
    keep : ((j : BucketId) → get s' j ≡ get s j) → leads t' ≡ leads t → Turn s s' t t'
    claim :
        (id : BucketId) (n : ℕ)
        → leads t ≡ none
        → leads t' ≡ some id
        → get s id ≡ none
        → ((j : BucketId) → get s' j ≡ (if id_eq id j then some n else get s j))
        → Turn s s' t t'
    leave :
        (id : BucketId)
        → leads t ≡ some id
        → leads t' ≡ none
        → ((j : BucketId) → get s' j ≡ (if id_eq id j then none else get s j))
        → Turn s s' t t'

  pub advance-Turn :
      (m : Moment p) (db : redis.Db) (s : Store p) (t : Task)
      → let w = advance p m (db, s) t in Turn s w.0.1 t w.1
  unfolding advance
  advance-Turn m db s (checking id) = keep (λ j. refl) (ground arith)
  advance-Turn m db s (claiming id) = elim (Option-cases (get s id)) [
    | inl e ↦
        claim id s.next refl (ground (arith, e)) e
          (λ j. ground (arith, e, refill_map.get-insert s.refills id j s.next))
    | inr (n, e) ↦ keep (λ j. ground (arith, e)) (ground (arith, e))
  ]
  advance-Turn m db s (leasing id) = keep (λ j. refl) (ground arith)
  advance-Turn m db s (settling id n ttl w) = keep (λ j. ground arith) (ground arith)
  advance-Turn m db s (waking id res) =
      leave id refl (ground arith)
        (λ j. ground (arith, refill_map.get-remove s.refills id j, id_eq_iff id j))
  advance-Turn m db s (arming id n) = keep (λ j. refl) refl
  advance-Turn m db s (waiting id n b) = keep (λ j. refl) (ground arith)
  advance-Turn m db s (spending id) = keep (λ j. ground arith) (ground arith)
  advance-Turn m db s (dropping id) = keep (λ j. refl) refl
  advance-Turn m db s (finished res) = keep (λ j. refl) refl

  module _ (home : ℕ → ℕ) where
    -- Every leader has its `Notify` in the map, and nobody else leads for its id.
    pub record Inv (stores : ℕ → Store p) (tasks : ℕ → Task) : Type 0 where
      pub held :
          (i : ℕ) (id : BucketId) → leads (tasks i) ≡ some id → get (stores (home i)) id ≢ none
      pub alone :
          (i j : ℕ) (id : BucketId)
          → home i ≡ home j
          → leads (tasks i) ≡ some id
          → leads (tasks j) ≡ some id
          → i ≡ j

    Turn-held :
        {s' : Store p} {t' : Task} {stores : ℕ → Store p} {tasks : ℕ → Task} (i : ℕ)
        → Turn (stores (home i)) s' (tasks i) t'
        → Inv stores tasks
        → (j : ℕ) (id : BucketId) → leads (update tasks i t' j) ≡ some id
        → get (update stores (home i) s' (home j)) id ≢ none
    Turn-held i (keep same led) v j id h = ground (arith, same id, v.held j id)
    Turn-held i (claim c n idle new free law) v j id h =
        ground (arith, law id, v.held j id, id_eq_iff c id)
    Turn-held i (leave c led gone law) v j id h =
        ground (arith, law id, v.held j id, v.alone i j id, id_eq_iff c id)

    Turn-alone :
        {s' : Store p} {t' : Task} {stores : ℕ → Store p} {tasks : ℕ → Task} (i : ℕ)
        → Turn (stores (home i)) s' (tasks i) t'
        → Inv stores tasks
        → (a b : ℕ) (id : BucketId) → home a ≡ home b
        → leads (update tasks i t' a) ≡ some id
        → leads (update tasks i t' b) ≡ some id
        → a ≡ b
    Turn-alone i (keep same led) v a b id e h k = ground (arith, v.alone a b id)
    Turn-alone i (claim c n idle new free law) v a b id e h k =
        ground (arith, v.alone a b id, v.held a id, v.held b id)
    Turn-alone i (leave c led gone law) v a b id e h k = ground (arith, v.alone a b id)

    advance-Inv :
        (s : System p) (i : ℕ) (m : Moment p)
        → Inv s.stores s.tasks
        → Inv (step p home s i m).stores (step p home s i m).tasks
    unfolding step
    advance-Inv s i m v =
        let turn = advance-Turn m s.db (s.stores (home i)) (s.tasks i) in
        record { held = Turn-held i turn v; alone = Turn-alone i turn v }

    tend-Inv :
        (s : System p) (h : ℕ) (wake : Wake) (c : ℕ) (m : Moment p)
        → Inv s.stores s.tasks
        → Inv (tend p home s h wake c m).stores (tend p home s h wake c m).tasks
    unfolding tend
    tend-Inv s h wake c m v =
        let f = work-KeepsRefills p wake c m s.db (s.stores h) (s.workers h) in
        record {
          held = λ i id e. ground (arith, v.held i id e, ap (λ r. refill_map.get r id) f.refills);
          alone = v.alone;
        }

    Reach-Inv : {s t : System p} → Inv s.stores s.tasks → Reach p home s t → Inv t.stores t.tasks
    Reach-Inv v here = v
    Reach-Inv v (next r i m le) = advance-Inv _ i m (Reach-Inv v r)
    Reach-Inv v (background r h wake c m le) = tend-Inv _ h wake c m (Reach-Inv v r)

    -- In every state that the instances reach from their start, two calls on one instance that are
    -- both leasing for one id, that is between the claim in `refills` and its removal, are the same
    -- call.
    pub single_flight :
        {c : Config} {db : redis.Db} {clock : ℕ} {ids : ℕ → BucketId} {s : System p}
        → Reach p home (init p c db clock ids) s
        → (i j : ℕ) (id : BucketId) → home i ≡ home j
        → leads (s.tasks i) ≡ some id
        → leads (s.tasks j) ≡ some id
        → i ≡ j
    single_flight r =
        (Reach-Inv (record { held = λ i id h. cc; alone = λ i j id e h k. cc }) r).alone
