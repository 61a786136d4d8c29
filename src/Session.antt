-- ===== src/Session.antt =====
-- crates/core/src/store.rs: calls of `Store::consume` on one instance for one id, one after another,
-- while nobody else asks for that id; against a counter.
pub mod Fetch
pub mod Open
pub mod Step
pub mod Total
use that_limit.Prelude.{
  ℕ, zero, suc, ◌+◌, ◌-◌, min, Option, none, some, List, [], ◌∷◌, Result, ok, err,
}
use that_limit.Bucket.{BucketId}
use that_limit.Platform.{Platform}
use that_limit.Store.{Task, checking, finished, exhausted, cache, Store, Moment, run}

-- What the caller learns.
pub data Answer : Type 0 where
  admitted : ℕ → Answer
  refused failed : Answer
  unanswered : Answer  -- the call has not ended

abbrev pub answer_of : Task → Answer
answer_of (finished (ok left)) = admitted left
answer_of (finished (err (exhausted _ _))) = refused
answer_of (finished (err (cache _))) = failed
answer_of _ = unanswered

-- The counter: the tokens of the window that are still in Redis, and those in the bucket.
pub record Limit : Type 0 where
  pub in_redis : ℕ
  pub in_bucket : ℕ

abbrev pub take_from : ℕ → ℕ → ℕ → Limit × Answer
take_from size r (suc b) = (record { in_redis = r; in_bucket = b }, admitted b)
take_from size zero zero = (record { in_redis = 0; in_bucket = 0 }, refused)
take_from size (suc r) zero =
    let g = min (suc r) size in
    (record { in_redis = suc r - g; in_bucket = g - 1 }, admitted (g - 1))

-- Spend from the bucket; refill it from Redis, by up to the lease size, when it is empty.
abbrev pub take : ℕ → Limit → Limit × Answer
take size l = take_from size l.in_redis l.in_bucket

-- The answers to so many calls.
abbrev pub replay : ℕ → ℕ → Limit → List Answer
replay size zero l = []
replay size (suc n) l = (take size l).1 ∷ replay size n (take size l).0

abbrev pub count_admitted : List Answer → ℕ
count_admitted [] = 0
count_admitted (admitted _ ∷ rest) = suc (count_admitted rest)
count_admitted (_ ∷ rest) = count_admitted rest

module _ (p : Platform) (id : BucketId) where
  open p use {redis}

  -- The moments of the steps of one call: it makes seven at most, unless it waits.
  pub record Visit : Type 0 where
    pub m₁ : Moment p
    pub m₂ : Moment p
    pub m₃ : Moment p
    pub m₄ : Moment p
    pub m₅ : Moment p
    pub m₆ : Moment p
    pub m₇ : Moment p

  abbrev pub consume_once : Visit → redis.Db × Store p → (redis.Db × Store p) × Task
  consume_once v w = run p (v.m₁ ∷ v.m₂ ∷ v.m₃ ∷ v.m₄ ∷ v.m₅ ∷ v.m₆ ∷ v.m₇ ∷ []) w (checking id)

  abbrev pub session : List Visit → redis.Db × Store p → List Answer
  session [] w = []
  session (v ∷ vs) w = let (w', t) = consume_once v w in answer_of t ∷ session vs w'
