-- ===== src/Store/Window.antt =====
-- `consume` down to Redis: a call that has to lease, on a server whose entry is regular.
use that_limit.Prelude.{ℕ, suc, ◌+◌, ◌-◌, ◌<◌, ◌≡◌, Option, none, some, false, ok, arith}
use that_limit.Prelude.Int.{pos}
use that_limit.Duration.{as_secs}
use that_limit.Bucket.{BucketId}
use that_limit.Redis.{Entry}
use that_limit.Cache.{delivered}
use that_limit.Lease.{to_key}
use that_limit.Lease.Script.{Fits, IsRegular, granted}
use that_limit.Lease.Calls.{lease_delivered, window_end, left, Charged}
use that_limit.Platform.{Platform}
use that_limit.Store.{Task, finished, Store, Moment, check, criteria}
use that_limit.Store.Answers.{call, consume_leased}

module _ (p : Platform) (m₁ m₂ m₃ m₄ m₅ m₆ : Moment p) (db : p.redis.Db) (s : Store p)
    (id : BucketId) where
  open p use {redis, buckets as bucket_map, refills as refill_map, show_ip}

  abbrev at : ℕ
  at = m₃.exchange.server_time

  abbrev pub entry : Option Entry
  entry = redis.find db at (to_key show_ip id)

  abbrev pub size : ℕ
  size = (criteria s.config id).lease_size

  abbrev pub quota : ℕ
  quota = (criteria s.config id).quota

  abbrev pub secs : ℕ
  secs = as_secs (criteria s.config id).reset_in

  abbrev pub time_left : ℕ
  time_left = left redis show_ip m₃.exchange db id size quota (criteria s.config id).reset_in

  abbrev pub outcome : (redis.Db × Store p) × Task
  outcome = call p m₁ m₂ m₃ m₄ m₅ m₆ db s id

  -- If a call finds no usable bucket and no refill under way, its call of Redis is delivered and
  -- grants some tokens of a regular entry, and it ends before the new bucket expires, then it
  -- answers with one token less than granted, keeps the rest in a bucket of that window, and in
  -- Redis just the granted tokens are taken from the id's entry. No other task of the instance runs
  -- meanwhile.
  pub consume_window :
      check p s m₁.now id ≡ ok false
      → refill_map.get s.refills id ≡ none
      → m₃.exchange.link ≡ delivered
      → Fits at size quota secs
      → IsRegular entry
      → 0 < granted size entry
      → m₆.now < m₄.now + time_left
      → (outcome.1 ≡ finished (ok (granted size entry - 1)))
        × (bucket_map.get outcome.0.1.buckets id
            ≡ some (record {
              tokens = granted size entry - 1;
              expires_at = m₄.now + time_left;
              window = pos (window_end at secs entry);
              exhausted = false;
            }))
        × Charged redis show_ip m₃.exchange db id size quota
            (criteria s.config id).reset_in
            outcome.0.0
  consume_window missed free l fits regular some_left now =
      let (db', fetch, charged) =
        lease_delivered redis show_ip m₃.exchange db id size quota (criteria s.config id).reset_in
          fits regular l in
      let g : granted size entry ≡ suc (granted size entry - 1) = omega arith in
      let (answer, same, filled, _) =
        consume_leased p m₁ m₂ m₃ m₄ m₅ m₆ db s id db' time_left (pos (window_end at secs entry))
          missed free (granted size entry - 1) (rw (← g) fetch) now in
      (answer, filled, rw same charged)
