-- ===== src/Tests/System.antt =====
-- Several calls interleaved.
use that_limit.Prelude.{
  ℕ, zero, suc, true, ◌+◌, ◌≤◌, ◌<◌, ◌≡◌, refl, some, [], ◌∷◌, ok, arith, ℕ_discrete,
}
use that_limit.Bucket.{BucketId, public, protected}
use that_limit.Bucket.Ids.{id_eq, id_eq_iff}
use that_limit.Bucket
use that_limit.Duration.{from_secs}
use that_limit.Config.{Config, default}
use that_limit.Platform.InMemory.{memory}
use that_limit.Store.{Task, checking, waking, arming, waiting, finished, check, advance, criteria}
use that_limit.Lease
use that_limit.Cache
use that_limit.System.{System, init, step, tend, Reach, here, next, background}
use that_limit.System.SingleFlight.{single_flight}
use that_limit.System.LostWakeup.{IsRace, wakeup_lost}
use that_limit.System.Race.{IsRush, all_admitted}
use that_limit.Store.Background.{chunks_from}
use that_limit.Store.Background.Worker.{ended, tick, shut_down, work, next_of}
use that_limit.System.Ledger.{tally, total_taken, total_spent, total_returned}
use that_limit.System.Ledger.Regained.{total_regained}
use that_limit.System.Ledger.Total.{spent-le-taken}
use that_limit.System.Quota.{IsSound, InTime}
use that_limit.System.Spending.{spent-le-quota, serving-spent-le-quota}
use that_limit.System.Quota.Total.{taken-le-quota}
use that_limit.Tests.Data.{alice, empty_db, bucket, moment, fresh, with_bucket}

-- One instance.
abbrev pub home : ℕ → ℕ
home i = 0

-- A configuration with cleanup.
abbrev pub cleaning : Config
cleaning = record default { cleanup = record { enabled = true; interval = from_secs 5 } }

abbrev pub start : System memory
start = init memory cleaning empty_db 0 (λ _. alice)

-- The call 0 checks and claims; the call 1 checks.
abbrev pub claimed : System memory
claimed =
    step memory home (step memory home (step memory home start 0 (moment 1)) 0 (moment 1)) 1
      (moment 1)

pub claimed-Reach : Reach memory home start claimed
unfolding step
claimed-Reach =
    next (next (next here 0 (moment 1) (omega arith)) 0 (moment 1) (omega arith)) 1 (moment 1)
      (omega arith)

single_flight_example : ◌≡◌ {A = ℕ} 0 0
unfolding step advance check ℕ_discrete
single_flight_example = single_flight memory home claimed-Reach 0 0 alice refl refl refl

-- The call 0 leases.
abbrev leased : System memory
leased = step memory home claimed 0 (moment 2)

leased-Reach : Reach memory home start leased
unfolding step
leased-Reach = next claimed-Reach 0 (moment 2) (omega arith)

cleaning-IsSound : IsSound cleaning
unfolding criteria
cleaning-IsSound = record {
  leases_some = elim [ public ip ↦ omega arith | protected sub ↦ omega arith ];
  quota_exact = elim [ public ip ↦ omega arith | protected sub ↦ omega arith ];
  resets = elim [ public ip ↦ omega arith | protected sub ↦ omega arith ];
}

-- It gets 2000 tokens of the window that ends at 60002 ms.
taken_by_one : total_taken memory home alice 60002 leased-Reach ≡ 2000
unfolding tally step advance check criteria id_eq ℕ_discrete Lease.lease Lease.lease_script
    Lease.to_key Cache.eval Cache.new Cache.key Cache.arg leased-Reach claimed-Reach
taken_by_one = refl

-- It puts them into the bucket, wakes the others, and spends one of them.
abbrev served : System memory
served =
    step memory home (step memory home (step memory home leased 0 (moment 2)) 0 (moment 2)) 0
      (moment 3)

served-Reach : Reach memory home start served
unfolding step
served-Reach =
    next (next (next leased-Reach 0 (moment 2) (omega arith)) 0 (moment 2) (omega arith)) 0
      (moment 3) (omega arith)

spent_by_one : total_spent memory home alice 60002 served-Reach ≡ 1
unfolding tally step advance check criteria id_eq ℕ_discrete Lease.lease Lease.lease_script
    Lease.to_key Cache.eval Cache.new Cache.key Cache.arg leased-Reach claimed-Reach served-Reach
    Bucket.is_expired Bucket.new Bucket.is_empty
spent_by_one = refl

-- The background task looks at the buckets after a command, and sends the tokens that are left.
abbrev stopped : System memory
stopped = tend memory home (tend memory home served 0 shut_down 0 (moment 4)) 0 tick 0 (moment 4)

stopped-Reach : Reach memory home start stopped
unfolding step tend
stopped-Reach =
    background (background served-Reach 0 shut_down 0 (moment 4) (omega arith)) 0 tick 0 (moment 4)
      (omega arith)

returned_by_one : total_returned memory home alice 60002 stopped-Reach ≡ 1999
unfolding tally step tend advance check criteria id_eq ℕ_discrete Lease.lease Lease.lease_script
    Lease.to_key Cache.eval Cache.new Cache.key Cache.arg leased-Reach claimed-Reach served-Reach
    stopped-Reach Bucket.is_expired Bucket.new Bucket.is_empty Bucket.consume work chunks_from
    next_of
returned_by_one = refl

cleaning-InTime_later : InTime cleaning 4
unfolding criteria
cleaning-InTime_later (public ip) = omega arith
cleaning-InTime_later (protected sub) = omega arith

taken-le-quota_example :
    total_taken memory home alice 60002 stopped-Reach
    ≤ 10_000 + total_regained memory home alice 60002 stopped-Reach
unfolding criteria step tend
taken-le-quota_example =
    taken-le-quota memory cleaning home cleaning-IsSound empty_db 0 (λ _. alice) (λ id. tt) 1
      (λ i. omega arith) stopped-Reach cleaning-InTime_later alice 60002

spent-le-taken_example :
    total_spent memory home alice 60002 stopped-Reach
    ≤ total_taken memory home alice 60002 stopped-Reach
spent-le-taken_example =
    spent-le-taken memory home alice 60002 cleaning empty_db 0 (λ _. alice) 1 stopped-Reach
      (λ i. omega arith)

spent-le-quota_example :
    total_spent memory home alice 60002 stopped-Reach
    ≤ 10_000 + total_regained memory home alice 60002 stopped-Reach
unfolding criteria step tend
spent-le-quota_example =
    spent-le-quota memory home cleaning empty_db 0 (λ _. alice) cleaning-IsSound (λ id. tt) 1
      (λ i. omega arith) stopped-Reach cleaning-InTime_later alice 60002

serving-spent-le-quota_example : total_spent memory home alice 60002 served-Reach ≤ 10_000
unfolding criteria step served-Reach leased-Reach claimed-Reach
serving-spent-le-quota_example =
    serving-spent-le-quota memory home cleaning empty_db 0 (λ _. alice) cleaning-IsSound (λ id. tt)
      1 (λ i. omega arith) served-Reach tt (λ id. omega (arith, cleaning-InTime_later id)) alice
      60002

-- The call 0 has leased; the call 1 has found its `Notify`, 0.
abbrev race_task : ℕ → Task
race_task zero = waking alice (ok tt)
race_task (suc i) = arming alice 0

abbrev race : System memory
race = record {
  db = empty_db;
  clock = 0;
  stores = λ _. record fresh { refills = (alice, 0) ∷ []; next = 1 };
  tasks = race_task;
  workers = λ _. ended;
}

listed_once : (k : BucketId) → memory.refills.get ((alice, 0) ∷ []) k ≡ some 0 → k ≡ alice
listed_once k h = ground (arith, id_eq_iff alice k)

race-IsRace : IsRace memory home 1 alice 0 0 race
unfolding id_eq
race-IsRace = record {
  result = ok tt;
  same_home = refl;
  leader = refl;
  follower = refl;
  listed = refl;
  once = listed_once;
  named = omega arith;
}

wakeup_lost_example :
    let t = step memory home (step memory home race 0 (moment 1)) 1 (moment 2) in
    Reach memory home race t
    × ((u : System memory)
        → Reach memory home t u
        → u.tasks 1 ≡ waiting alice 0 ((u.stores 0).wakes 0))
wakeup_lost_example =
    wakeup_lost memory home 1 alice 0 0 race (moment 1) (moment 2) race-IsRace (omega arith)
      (omega arith)

-- Three calls, one token.
abbrev rush : System memory
rush = record {
  db = empty_db;
  clock = 0;
  stores = λ _. with_bucket (bucket 1);
  tasks = λ _. checking alice;
  workers = λ _. ended;
}

rush-IsRush : IsRush memory home 0 alice (moment 1) 3 rush
unfolding id_eq
rush-IsRush = record {
  bucket = bucket 1;
  found = refl;
  usable = refl;
  at_least = omega arith;
  at_most = omega arith;
  alive = omega arith;
  clock = omega arith;
  gone = λ i h. absurd (omega arith);
  waiting = λ i h k. refl;
}

all_admitted_example :
    (t : System memory) × Reach memory home rush t × ((i : ℕ) → i < 3 → t.tasks i ≡ finished (ok 0))
all_admitted_example = all_admitted memory home 0 alice (moment 1) 3 (λ i h. refl) rush rush-IsRush
