-- ===== src/Tests/Scenarios/OverCore.antt =====
-- crates/core/src/store.rs: the tests of the store, and `get` of test-utils.
use that_limit.Prelude.{
  ℕ, zero, suc, ◌-◌, ◌*◌, ◌+◌, ◌≡◌, refl, Bool, true, false, not, ◌&&◌, Option, none, some, Result,
  ok, err, ltb, ℕ_discrete,
}
use that_limit.Prelude.Int.{ℤ, pos, eqb_ℤ}
use that_limit.Duration.{Duration, Instant, from_secs, from_millis, nanos_per_ms}
use that_limit.Bucket.{BucketId, public, protected, v4, is_empty, is_expired}
use that_limit.Bucket
use that_limit.Bucket.Ids.{id_eq}
use that_limit.Config.{Config, default, with_cleanup, with_protected_reset_in, quota, reset_in}
use that_limit.Cache.{delivered}
use that_limit.Cache
use that_limit.Lease
use that_limit.Lease.{Exchange}
use that_limit.Platform.InMemory.{memory, show}
use that_limit.Redis.InMemory.{in_memory}
use that_limit.Store.{Error, Store, check, advance, criteria}
use that_limit.Store.Background.{chunks_from}
use that_limit.Store.Background.Worker.{Worker, first, tick, work, next_of, all_done}
use that_limit.System.{step, tend}
use that_limit.Server.{Command, cleanup_complete, received, Server, main, work_step}
use that_limit.Broadcast.InMemory.{in_memory as channel}
use that_limit.Tests.Data.{empty_db, moment}
use that_limit.Tests.Scenarios.{World, init_store}

-- `Store::add`
abbrev add : Instant → Store memory → BucketId → ℕ → Duration → Store memory
add now s b_id tokens ttl = record s {
  buckets = memory.buckets.insert s.buckets b_id (Bucket.new now tokens ttl (pos 0));
}

-- `get` of test-utils
abbrev get : in_memory.Db → ℕ → BucketId → Option ℤ
get db now b_id = in_memory.get db now (Lease.to_key show b_id)

abbrev is_some : ℕ → Option ℤ → Bool
is_some n none = false
is_some n (some z) = eqb_ℤ z (pos n)

abbrev is_none : Option ℤ → Bool
is_none none = true
is_none (some z) = false

-- `unwrap` of a Boolean that is asserted to be `b`.
abbrev is_ok : Bool → Result Error Bool → Bool
is_ok b (err e) = false
is_ok true (ok c) = c
is_ok false (ok c) = not c

abbrev valera : BucketId
valera = protected "valera"

abbrev jora : BucketId
jora = protected "jora"

-- 89.28.75.89
abbrev public_ip : BucketId
public_ip = public (v4 0x591C4B59)

abbrev tick_config : Config
tick_config =
    with_protected_reset_in
      (with_cleanup default (record { enabled = true; interval = from_millis 50 })) (from_millis 25)

-- So many steps of the background task after its interval, in the millisecond `t`.
abbrev ticked_for : ℕ → ℕ → World × Worker → World × Worker
ticked_for zero t w = w
ticked_for (suc n) t (w, worker) = ticked_for n t (work memory tick 0 (moment t) w worker)

-- The task ticks after 50 ms, and removes two buckets; the test looks after 75.
abbrev should_perform_cleanup_on_tick : Bool
should_perform_cleanup_on_tick =
    let added = λ (s : Store memory) (b_id : BucketId).
      add 0 s b_id (quota tick_config b_id) (reset_in tick_config b_id) in
    let (db, new) = init_store tick_config in
    let ((_, s), _) =
      ticked_for 4 50
        ((db, added (added (added new valera) jora) public_ip), first tick_config.cleanup) in
    is_ok false (check memory s (75 * nanos_per_ms) valera)
    && is_ok false (check memory s (75 * nanos_per_ms) jora)
    && is_ok true (check memory s (75 * nanos_per_ms) public_ip)

abbrev shutdown_config : Config
shutdown_config = with_cleanup default (record { enabled = true; interval = from_secs 60 })

abbrev home : ℕ → ℕ
home i = 0

-- The two calls of `consume`.
abbrev caller : ℕ → BucketId
caller zero = valera
caller (suc i) = public_ip

-- A store with its sender. The rest of a `Server` does nothing here.
abbrev with_sender : Server memory channel
with_sender = main memory channel shutdown_config empty_db 0 caller

-- So many steps of a call, in the millisecond `t`.
abbrev consumed : ℕ → ℕ → ℕ → Server memory channel → Server memory channel
consumed zero t i s = s
consumed (suc n) t i s =
    consumed n t i (record s { system = step memory home s.system i (moment t) })

-- The test subscribes, and sends `Shutdown`.
abbrev sent : Server memory channel → Server memory channel
sent s = elim s.tx [
  | none ↦ s
  | some ch ↦ record s { tx = some (channel.send (channel.subscribe ch) Command.shutdown) }
]

abbrev worked : ℕ → ℕ → Server memory channel → Server memory channel
worked zero t s = s
worked (suc n) t s = worked n t (work_step memory channel home 0 s received 0 (moment t))

-- What its receiver, the second one, has got by then.
abbrev is_complete : Option Command → Bool
is_complete (some cleanup_complete) = true
is_complete _ = false

abbrev has_completed : Server memory channel → Bool
has_completed s = elim s.tx [
  | none ↦ false
  | some ch ↦ is_complete (channel.recv (channel.recv ch 1).1 1).0
]

-- The task returns the tokens of two buckets, and reports.
abbrev should_perform_shutdown_on_signal : Bool
should_perform_shutdown_on_signal =
    let leasing = consumed 6 2 1 (consumed 6 1 0 with_sender) in
    let s = worked 5 3 (sent leasing) in
    has_completed s
    && is_some (shutdown_config.protected.quota - 1) (get s.system.db 4 valera)
    && is_some (shutdown_config.public.quota - 1) (get s.system.db 4 public_ip)

-- A call of Redis at `t` ms that takes a millisecond.
abbrev exchange : ℕ → Exchange in_memory
exchange t = record {
  link = delivered;
  server_time = t;
  started = t * nanos_per_ms;
  finished = (t + 1) * nanos_per_ms;
}

-- `lease` for `valera`: ten tokens of a hundred, with the time left and the window.
abbrev leased : ℕ → Duration → in_memory.Db → (in_memory.Db → ℕ → Duration → ℤ → Bool) → Bool
leased t ttl db f =
    let (db', res) = Lease.lease in_memory show (exchange t) db valera 10 100 ttl in
    elim res [ err e ↦ false | ok (n, left, window) ↦ f db' n left window ]

-- `release` of ten tokens of a window for `valera`: refused, and then what is asserted.
abbrev not_released : ℕ → in_memory.Db → ℤ → (in_memory.Db → Bool) → Bool
not_released t db window f =
    let (db', res) = Lease.release in_memory show (exchange t) db valera 10 window in
    elim res [ err e ↦ false | ok released ↦ not released && f db' ]

abbrev should_not_outlive_redis_window : Bool
should_not_outlive_redis_window =
    leased 0 (from_secs 1) empty_db (λ db n left window. ltb left (from_secs 1))

abbrev should_not_release_into_expired_window : Bool
should_not_release_into_expired_window =
    leased 0 (from_secs 1) empty_db
      (λ db n left window. not_released 1100 db window (λ db'. is_none (get db' 1101 valera)))

abbrev should_not_release_into_newer_window : Bool
should_not_release_into_newer_window = leased 0 (from_secs 1) empty_db (λ db n left old_window.
    leased 1100 (from_secs 60) db (λ db' n' left' window.
      not_released 1101 db' old_window (λ db''. is_some 90 (get db'' 1102 valera))))

all_pass :
    (should_perform_cleanup_on_tick ≡ true)
    × (should_perform_shutdown_on_signal ≡ true)
    × (should_not_outlive_redis_window ≡ true)
    × (should_not_release_into_expired_window ≡ true)
    × (should_not_release_into_newer_window ≡ true)
unfolding with_cleanup with_protected_reset_in quota reset_in chunks_from work next_of all_done main
    work_step step tend advance check criteria is_empty is_expired Bucket.consume Bucket.new id_eq
    Lease.lease Lease.release Lease.release_script Cache.eval Cache.new Cache.key Cache.arg
    Lease.lease_script Lease.to_key ℕ_discrete
all_pass = (refl, refl, refl, refl, refl)
