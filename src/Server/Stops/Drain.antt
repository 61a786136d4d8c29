-- ===== src/Server/Stops/Drain.antt =====
-- The background task, step by step to its end.
use mathlib.Core.Path.{subst}
use that_limit.Prelude.{
  ℕ, zero, suc, ◌≡◌, refl, sym, ap, ◌∙◌, inl, inr, none, some, List, true, arith,
}
use that_limit.Prelude.Int.{ℤ}
use that_limit.Bucket.{BucketId}
use that_limit.Broadcast.{Broadcast}
use that_limit.Platform.{Platform}
use that_limit.Store.{Store, Moment}
use that_limit.Store.Background.Worker.{
  Worker, selecting, removing, returning, reporting, ended, tick, work, next_of, all_done,
}
use that_limit.System.{System}
use that_limit.Server.{Command, Signal, ticked, Server, work_step, work_with, work_at, Reach}
use that_limit.Server.Phases.{IsClosing, Phase, fresh, quiet, told, busy, done, over}
use that_limit.Server.Order.{Orderly, after, tended_worker, work_step-Orderly}
use that_limit.Server.Chunks.{total, progress}
use that_limit.Server.Stops.{CanStop, at, moment, then_work, finish}

module _ (p : Platform) (c : ℕ) (m : Moment p) (db : p.redis.Db) (s : Store p) where
  pub work_removed :
      (cs cs' : List (List BucketId)) (k : BucketId)
      → next_of c cs ≡ some (k, cs')
      → (work p tick c m (db, s) (removing cs)).1 ≡ removing cs'
  unfolding work
  work_removed cs cs' k e = ground (arith, e)

  pub work_all_removed :
      (cs : List (List BucketId))
      → next_of c cs ≡ none
      → all_done cs ≡ true
      → (work p tick c m (db, s) (removing cs)).1 ≡ selecting
  unfolding work
  work_all_removed cs e d = ground (arith, e, d)

  work_returned :
      (cs cs' : List (List (BucketId × ℕ × ℤ))) (i : BucketId × ℕ × ℤ)
      → next_of c cs ≡ some (i, cs')
      → (work p tick c m (db, s) (returning cs)).1 ≡ returning cs'
  unfolding work
  work_returned cs cs' i e = ground (arith, e)

  work_all_returned :
      (cs : List (List (BucketId × ℕ × ℤ)))
      → next_of c cs ≡ none
      → all_done cs ≡ true
      → (work p tick c m (db, s) (returning cs)).1 ≡ reporting
  unfolding work
  work_all_returned cs e d = ground (arith, e, d)

  work_reported : (work p tick c m (db, s) reporting).1 ≡ ended
  unfolding work
  work_reported = refl

-- The task is not in its `select!`.
abbrev pub IsAtWork : Worker → Type 0
IsAtWork selecting = ⊥
IsAtWork _ = Unit

module _ (p : Platform) (b : Broadcast Command) (home : ℕ → ℕ) (h : ℕ) where
  worker_at :
      (t : Server p b) (c : ℕ) (m : Moment p) (ch : b.Channel) (v : Worker)
      → IsAtWork v
      → t.system.workers h ≡ v
      → (work_at p b home h t ticked c m ch v).system.workers h ≡ after p b home h t c m tick v
  unfolding work_at
  worker_at t c m ch selecting i e = absurd i
  worker_at t c m ch (removing cs) i e = tended_worker p b home h t c m tick (removing cs) e
  worker_at t c m ch (returning cs) i e = tended_worker p b home h t c m tick (returning cs) e
  worker_at t c m ch reporting i e = tended_worker p b home h t c m tick reporting e
  worker_at t c m ch ended i e = tended_worker p b home h t c m tick ended e

  worker_after :
      (t : Server p b) (c : ℕ) (m : Moment p) (v : Worker)
      → IsAtWork v
      → t.system.workers h ≡ v
      → Orderly p b home h t
      → (work_step p b home h t ticked c m).system.workers h ≡ after p b home h t c m tick v
  unfolding work_step work_with
  worker_after t c m v i e o =
      subst
        (λ tx.
          (work_with p b home h t ticked c m tx).system.workers h ≡ after p b home h t c m tick v)
        (sym o.sender)
        (subst
          (λ w.
            (work_at p b home h t ticked c m o.channel w).system.workers h
            ≡ after p b home h t c m tick v)
          (sym e) (worker_at t c m o.channel v i e))

  pub as_at :
      (t : Server p b) (o : Orderly p b home h t) → at p b home h t.system o.channel t.signal ≡ t
  as_at t o = ap (λ tx. record t { tx = tx }) (sym o.sender)

  done_can :
      (s : System p) (c : b.Channel) {sig : Signal}
      → Phase b c sig ended
      → CanStop p b home h (at p b home h s c sig)
  done_can s c (fresh a o) = absurd a
  done_can s c (quiet u a v) = absurd a
  done_can s c (told d a e v) = absurd a
  done_can s c (busy d a e v) = absurd a
  done_can s c (done d e v) = finish p b home h s c d e v
  done_can s c over = (_, Reach.here, refl)

  -- With the worker at a given point.
  unfoldable pub Stops : Server p b → Worker → Type 0
  Stops t v = Orderly p b home h t → t.system.workers h ≡ v → CanStop p b home h t

  pub ended_can : (t : Server p b) → Stops t ended
  unfolding Stops
  ended_can t o e =
      subst (CanStop p b home h) (as_at t o)
        (done_can t.system o.channel (subst (Phase b o.channel t.signal) e o.phase))

  reporting_can : (t : Server p b) → Stops t reporting
  unfolding Stops
  reporting_can t o e = then_work p b home h t ticked 0 (
      ended_can _ (work_step-Orderly p b home h t ticked 0 (moment p b home h t.system) o)
        (worker_after t 0 _ reporting tt e o ∙ work_reported p 0 _ t.system.db (t.system.stores h)))

  -- A step with its chunk.
  pub stepped :
      (t : Server p b) (c : ℕ) (v v' : Worker)
      → IsAtWork v
      → Orderly p b home h t
      → t.system.workers h ≡ v
      → after p b home h t c (moment p b home h t.system) tick v ≡ v'
      → ((t' : Server p b) → Stops t' v')
      → CanStop p b home h t
  unfolding Stops
  stepped t c v v' i o e a rest = then_work p b home h t ticked c (
      rest _ (work_step-Orderly p b home h t ticked c (moment p b home h t.system) o)
        (worker_after t c (moment p b home h t.system) v i e o ∙ a))

  returning_can :
      (n : ℕ) (cs : List (List (BucketId × ℕ × ℤ)))
      → total cs ≡ n
      → (t : Server p b) → Stops t (returning cs)
  unfolding Stops
  returning_can zero cs size t o e = elim (progress cs) [
    | inl (c, i, cs', n, less) ↦ absurd (omega arith)
    | inr (n, d) ↦
        stepped t 0 (returning cs) reporting tt o e
          (work_all_returned p 0 _ t.system.db (t.system.stores h) cs n d) reporting_can
  ]
  returning_can (suc k) cs size t o e = elim (progress cs) [
    | inl (c, i, cs', n, less) ↦
        stepped t c (returning cs) (returning cs') tt o e
          (work_returned p c _ t.system.db (t.system.stores h) cs cs' i n)
          (returning_can k cs' (omega arith))
    | inr (n, d) ↦
        stepped t 0 (returning cs) reporting tt o e
          (work_all_returned p 0 _ t.system.db (t.system.stores h) cs n d) reporting_can
  ]

  pub closing_can : (t : Server p b) (v : Worker) → IsClosing v → Stops t v
  unfolding Stops
  closing_can t (returning cs) cl o e = returning_can (total cs) cs refl t o e
  closing_can t reporting cl o e = reporting_can t o e
  closing_can t selecting cl o e = absurd cl
  closing_can t (removing cs) cl o e = absurd cl
  closing_can t ended cl o e = absurd cl
