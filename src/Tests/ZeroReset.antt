-- ===== src/Tests/ZeroReset.antt =====
-- A policy that resets in no time at all.
use that_limit.Prelude.{◌≡◌, ◌≢◌, refl, ok, arith}
use that_limit.Bucket.{BucketId, public, protected}
use that_limit.Config.{Config, default}
use that_limit.Duration.{as_secs}
use that_limit.Platform.InMemory.{memory}
use that_limit.Store.{finished, criteria}
use that_limit.System.{System, init, step, Reach, here, next}
use that_limit.System.ZeroReset.{never_admits}
use that_limit.Tests.Data.{alice, empty_db, moment}
use that_limit.Tests.System.{home}

abbrev resetting_at_once : Config
resetting_at_once = record default {
  protected = record default.protected { reset_in = 0 };
  public = record default.public { reset_in = 0 };
}

at_once : (id : BucketId) → as_secs (criteria resetting_at_once id).reset_in ≡ 0
unfolding criteria
at_once (public ip) = refl
at_once (protected sub) = refl

abbrev started : System memory
started = init memory resetting_at_once empty_db 0 (λ _. alice)

-- The call 0 checks, claims, and asks Redis.
abbrev asked : System memory
asked =
    step memory home (step memory home (step memory home started 0 (moment 1)) 0 (moment 2)) 0
      (moment 3)

asked-Reach : Reach memory home started asked
unfolding step
asked-Reach =
    next (next (next here 0 (moment 1) (omega arith)) 0 (moment 2) (omega arith)) 0 (moment 3)
      (omega arith)

never_admits_example : asked.tasks 0 ≢ finished (ok 7)
never_admits_example =
    never_admits memory resetting_at_once at_once home empty_db 0 (λ _. alice) (λ id. refl)
      asked-Reach 0 7
