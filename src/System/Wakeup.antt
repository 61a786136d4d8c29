-- ===== src/System/Wakeup.antt =====
-- Calls that wait for the leader of their id: what keeps a `Notify` in the map, and its calls of
-- `notify_waiters` counted, in the store of one instance.
pub mod Leaders
pub mod Waits
pub mod Resumes
pub mod Busy
pub mod Finishes
pub mod Hangs
use that_limit.Prelude.{
  ℕ, suc, ◌+◌, ◌≤◌, ◌<◌, ◌≡◌, refl, ap, ◌⊎◌, inl, inr, Option, none, some, Bool-cases, arith,
}
use that_limit.Prelude.Int.{ℤ}
use that_limit.Duration.{Duration}
use that_limit.Bucket.{BucketId}
use that_limit.Bucket.Ids.{id_eq, id_eq_iff}
use that_limit.Platform.{Platform}
use that_limit.Store.{
  Task, checking, claiming, leasing, settling, waking, arming, waiting, spending, dropping,
  finished, Store, Moment, advance,
}
use that_limit.Store.Background.Frame.{KeepsRefills}

module _ (p : Platform) where
  open p use {redis, refills as refill_map}

  abbrev pub get : Store p → BucketId → Option ℕ
  get s id = refill_map.get s.refills id

  -- A `Notify` in the map has a name that was given out, is that of one id, and has not been
  -- called; each is called once at most.
  pub record IsOrdered (s : Store p) : Type 0 where
    pub listed : (id : BucketId) (n : ℕ) → get s id ≡ some n → (n < s.next) × (s.wakes n ≡ 0)
    pub unnamed : (n : ℕ) → s.next ≤ n → s.wakes n ≡ 0
    pub once : (n : ℕ) → s.wakes n ≤ 1
    pub alone : (i j : BucketId) (n : ℕ) → get s i ≡ some n → get s j ≡ some n → i ≡ j

  -- What has been called stays so, and what leaves the map is called.
  pub record Tells (s s' : Store p) : Type 0 where
    pub grows : (n : ℕ) → s.wakes n ≤ s'.wakes n
    pub stays :
        (id : BucketId) (n : ℕ) → get s id ≡ some n → (get s' id ≡ some n) ⊎ (0 < s'.wakes n)

  pub KeepsRefills-IsOrdered : (s s' : Store p) → KeepsRefills p s s' → IsOrdered s → IsOrdered s'
  KeepsRefills-IsOrdered s s' f o = record {
    listed = λ id n h. ground (arith, o.listed id n, f.refills, f.wakes, f.next);
    unnamed = λ n h. ground (arith, o.unnamed n, f.wakes, f.next);
    once = λ n. ground (arith, o.once n, f.wakes);
    alone = λ i j n h k. ground (arith, o.alone i j n, f.refills);
  }

  pub KeepsRefills-Tells : (s s' : Store p) → KeepsRefills p s s' → Tells s s'
  KeepsRefills-Tells s s' f = record {
    grows = λ n. ground (arith, f.wakes);
    stays = λ id n h. ground (arith, f.refills);
  }

  settling-KeepsRefills :
      (m : Moment p) (db : redis.Db) (s : Store p) (id : BucketId) (n : ℕ) (ttl : Duration) (w : ℤ)
      → KeepsRefills p s (advance p m (db, s) (settling id n ttl w)).0.1
  unfolding advance
  settling-KeepsRefills m db s id n ttl w = record {
    refills = ground arith;
    wakes = ground arith;
    next = ground arith;
    config = ground arith;
  }

  spending-KeepsRefills :
      (m : Moment p) (db : redis.Db) (s : Store p) (id : BucketId)
      → KeepsRefills p s (advance p m (db, s) (spending id)).0.1
  unfolding advance
  spending-KeepsRefills m db s id = record {
    refills = ground arith;
    wakes = ground arith;
    next = ground arith;
    config = ground arith;
  }

  pub advance-IsOrdered :
      (m : Moment p) (db : redis.Db) (s : Store p) (t : Task)
      → IsOrdered s
      → IsOrdered (advance p m (db, s) t).0.1
  unfolding advance
  advance-IsOrdered m db s (claiming id) o = record {
    listed = λ j n h.
        ground (arith, o.listed j n, o.unnamed n, refill_map.get-insert s.refills id j s.next);
    unnamed = λ n h. ground (arith, o.unnamed n);
    once = λ n. ground (arith, o.once n);
    alone = λ i j n h k. ground (
      arith,
      o.alone i j n,
      o.listed i n,
      o.listed j n,
      refill_map.get-insert s.refills id i s.next,
      refill_map.get-insert s.refills id j s.next,
      id_eq_iff id i,
      id_eq_iff id j,
    );
  }
  advance-IsOrdered m db s (settling id n ttl w) o =
      KeepsRefills-IsOrdered s _ (settling-KeepsRefills m db s id n ttl w) o
  advance-IsOrdered m db s (waking id res) o = record {
    listed = λ j n h. ground (
      arith,
      o.listed j n,
      o.listed id n,
      o.alone id j n,
      refill_map.get-remove s.refills id j,
      id_eq_iff id j,
    );
    unnamed = λ n h. ground (arith, o.unnamed n, o.listed id n);
    once = λ n. ground (arith, o.once n, o.listed id n);
    alone = λ i j n h k. ground (
      arith,
      o.alone i j n,
      refill_map.get-remove s.refills id i,
      refill_map.get-remove s.refills id j,
    );
  }
  advance-IsOrdered m db s (spending id) o =
      KeepsRefills-IsOrdered s _ (spending-KeepsRefills m db s id) o
  advance-IsOrdered m db s (dropping id) o = record {
    listed = o.listed;
    unnamed = o.unnamed;
    once = o.once;
    alone = o.alone;
  }
  advance-IsOrdered m db s _ o = o

  pub Tells-refl : (s : Store p) → Tells s s
  Tells-refl s = record { grows = λ n. omega arith; stays = λ id n h. inl h }

  pub advance-Tells :
      (m : Moment p) (db : redis.Db) (s : Store p) (t : Task) → Tells s (advance p m (db, s) t).0.1
  unfolding advance
  advance-Tells m db s (claiming id) = record {
    grows = λ n. ground arith;
    stays =
        λ j n h. inl (ground (arith, refill_map.get-insert s.refills id j s.next, id_eq_iff id j));
  }
  advance-Tells m db s (settling id n ttl w) =
      KeepsRefills-Tells s _ (settling-KeepsRefills m db s id n ttl w)
  advance-Tells m db s (waking id res) = record {
    grows = λ n. ground arith;
    stays = λ j n h. elim (Bool-cases (id_eq id j)) [
      | inl e ↦ inr (ground (arith, id_eq_iff id j))
      | inr e ↦ inl (ground (arith, refill_map.get-remove s.refills id j))
    ];
  }
  advance-Tells m db s (spending id) = KeepsRefills-Tells s _ (spending-KeepsRefills m db s id)
  advance-Tells m db s (dropping id) = record { grows = λ n. omega arith; stays = λ i n h. inl h }
  advance-Tells m db s t = Tells-refl s
