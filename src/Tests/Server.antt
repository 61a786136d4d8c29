-- ===== src/Tests/Server.antt =====
-- One server, from its start to its stop.
use that_limit.Prelude.{ℕ, ◌≡◌, ◌≢◌, refl, true, arith, ℕ_discrete}
use that_limit.Duration.{from_secs}
use that_limit.Config.{Config, default}
use that_limit.Broadcast.InMemory.{in_memory}
use that_limit.Platform.InMemory.{memory}
use that_limit.Store.Background.Worker.{ended, work}
use that_limit.System.{tend}
use that_limit.System
use that_limit.Server.{
  stopped, Ready, ticked, received, Server, main, work_step, signal_step, Reach, here, background,
  signalling,
}
use that_limit.Server.Order.{stops_after_return}
use that_limit.Server.History.{history}
use that_limit.Server.Stops.{CanStop}
use that_limit.Server.Stops.Always.{can_stop}
use that_limit.Server.Panics.{never_stops}
use that_limit.Tests.Data.{alice, empty_db, moment}

abbrev home : ℕ → ℕ
home i = 0

abbrev cleaning : ℕ → Config
cleaning seconds = record default {
  cleanup = record { enabled = true; interval = from_secs seconds };
}

abbrev start : ℕ → Server memory in_memory
start seconds = main memory in_memory (cleaning seconds) empty_db 0 (λ _. alice)

abbrev signalled : Server memory in_memory → Ready → Server memory in_memory
signalled t ready = signal_step memory in_memory t ready

abbrev worked : Server memory in_memory → Ready → Server memory in_memory
worked t ready = work_step memory in_memory home 0 t ready 0 (moment 1)

-- It subscribes, gets SIGTERM and announces it.
abbrev announced : ℕ → Server memory in_memory
announced seconds = signalled (signalled (signalled (start seconds) ticked) received) received

announced-Reach : (seconds : ℕ) → Reach memory in_memory home 0 (start seconds) (announced seconds)
announced-Reach seconds = signalling (signalling (signalling here ticked) received) received

-- The background task has the command, finds no buckets, reports and ends; then the server takes its
-- own message, waits for a tick, takes the report, and stops.
abbrev closed : Server memory in_memory
closed =
    signalled
      (signalled (signalled (worked (worked (announced 5) received) ticked) received) ticked)
      received

closed-Reach : Reach memory in_memory home 0 (start 5) closed
unfolding main signal_step work_step tend
closed-Reach =
    signalling
      (signalling
        (signalling
          (background (background (announced-Reach 5) received 0 (moment 1) (omega arith)) ticked 0
            (moment 1) (omega arith))
          received)
        ticked)
      received

closed_is_stopped : closed.signal ≡ stopped
unfolding main signal_step work_step tend work ℕ_discrete
closed_is_stopped = refl

stops_after_return_example : closed.system.workers 0 ≡ ended
stops_after_return_example =
    stops_after_return memory in_memory home 0 (cleaning 5) empty_db 0 (λ _. alice) refl refl
      closed-Reach closed_is_stopped

never_stops_example : (announced 0).signal ≢ stopped
never_stops_example =
    never_stops memory in_memory home 0 (cleaning 0) empty_db 0 (λ _. alice) refl refl
      (announced-Reach 0)

can_stop_example : CanStop memory in_memory home 0 (announced 5)
can_stop_example =
    can_stop memory in_memory home 0 (cleaning 5) empty_db 0 (λ _. alice) refl refl
      (announced-Reach 5)

closed_history : System.Reach memory home (start 5).system closed.system
closed_history = history memory in_memory home 0 closed-Reach
