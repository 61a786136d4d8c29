-- ===== src/Tests/Wakeup.antt =====
-- A call that waits for another one's lease, in time.
use that_limit.Prelude.{ℕ, ◌≡◌, refl, Result, arith, ℕ_discrete}
use that_limit.Bucket.Ids.{id_eq}
use that_limit.Platform.InMemory.{memory}
use that_limit.Store.{Error, waiting, finished, advance, check}
use that_limit.System.{System, step, Reach, next}
use that_limit.System.Wakeup.Hangs.{can_finish_iff}
use that_limit.Tests.Data.{alice, empty_db, moment}
use that_limit.Tests.System.{home, start, cleaning, claimed, claimed-Reach}

-- The call 0 leases; the call 1 finds its `Notify`, and waits on it.
abbrev joined : System memory
joined = step memory home (step memory home claimed 1 (moment 2)) 1 (moment 2)

joined-Reach : Reach memory home start joined
unfolding step
joined-Reach = next (next claimed-Reach 1 (moment 2) (omega arith)) 1 (moment 2) (omega arith)

joined_waits : joined.tasks 1 ≡ waiting alice 0 0
unfolding step advance check id_eq ℕ_discrete
joined_waits = refl

can_finish_iff_example :
    (u : System memory) × (res : Result Error ℕ) × Reach memory home joined u
    × (u.tasks 1 ≡ finished res)
unfolding step advance check id_eq ℕ_discrete
can_finish_iff_example =
    (can_finish_iff memory home 1 cleaning empty_db 0 (λ _. alice) joined-Reach).0 refl
