-- ===== src/Server/Phases.antt =====
-- The phases that the two tasks of a server go through together.
use that_limit.Prelude.{List, [], ◌∷◌, ◌++◌, arith}
use that_limit.Broadcast.{Broadcast}
use that_limit.Platform.{Platform}
use that_limit.Store.Background.Worker.{Worker, selecting, removing, returning, reporting, ended}
use that_limit.Server.{
  Command, shutdown, cleanup_complete, Signal, subscribing, listening, announcing, awaiting,
  ticking, stopped, Ready, ticked, received, shutdown_signal, after_recv,
}
use that_limit.Server.Channel.{Holds, HoldsOne, subscribe-Holds, send-Holds, recv-Holds_second}

-- `shutdown_signal` has subscribed, and not sent `Shutdown` yet.
pub data IsUp : Signal → Type 0 where
  at_listening : IsUp listening
  at_announcing : IsUp announcing

-- It has sent `Shutdown`, and waits.
pub data IsDown : Signal → Type 0 where
  at_awaiting : IsDown awaiting
  at_ticking : IsDown ticking

-- The background task is in its loop.
abbrev pub IsActive : Worker → Type 0
IsActive selecting = Unit
IsActive (removing _) = Unit
IsActive _ = ⊥

-- It has had the command.
abbrev pub IsClosing : Worker → Type 0
IsClosing (returning _) = Unit
IsClosing reporting = Unit
IsClosing _ = ⊥

-- What `shutdown_signal` still holds of its own message.
pub data IsEcho : List Command → Type 0 where
  gone : IsEcho []
  there : IsEcho (shutdown ∷ [])

module _ (b : Broadcast Command) where
  pub data Phase (c : b.Channel) : Signal → Worker → Type 0 where
    fresh : {v : Worker} → IsActive v → HoldsOne b c → Phase c subscribing v
    quiet : {sig : Signal} {v : Worker} → IsUp sig → IsActive v → Holds b c [] [] → Phase c sig v
    told :
        {sig : Signal} {v : Worker} {q : List Command}
        → IsDown sig
        → IsActive v
        → IsEcho q
        → Holds b c (shutdown ∷ []) q
        → Phase c sig v
    busy :
        {sig : Signal} {v : Worker} {q : List Command}
        → IsDown sig
        → IsClosing v
        → IsEcho q
        → Holds b c [] q
        → Phase c sig v
    done :
        {sig : Signal} {q : List Command}
        → IsDown sig
        → IsEcho q
        → Holds b c (cleanup_complete ∷ []) (q ++ (cleanup_complete ∷ []))
        → Phase c sig ended
    over : Phase c stopped ended

  -- The channel and `shutdown_signal` after a step of it.
  abbrev Next : b.Channel × Signal → Worker → Type 0
  Next (c, sig) v = Phase c sig v

  module _ (p : Platform) where
    -- A poll of `recv` in the loop, before `CleanupComplete` has been sent.
    polled :
        (c : b.Channel) (f q : List Command)
        → IsEcho q
        → Holds b c f q
        → (q' : List Command) × IsEcho q'
          × Holds b (b.recv c 1).1 f q'
          × IsDown (after_recv p b (b.recv c 1).0)
    unfolding after_recv
    polled c f q gone h =
        let e = b.recv-empty c 1 h.second_waits in ([], gone, rw e h, rw e at_awaiting)
    polled c f q there h =
        let (took, h') = recv-Holds_second b c shutdown f [] h in ([], gone, h', rw took at_ticking)

    -- And after that.
    completed :
        (c : b.Channel) (q : List Command)
        → IsEcho q
        → Holds b c (cleanup_complete ∷ []) (q ++ (cleanup_complete ∷ []))
        → Phase (b.recv c 1).1 (after_recv p b (b.recv c 1).0) ended
    unfolding after_recv
    completed c q gone h =
        let (took, h') = recv-Holds_second b c cleanup_complete _ [] h in rw took over
    completed c q there h =
        let (took, h') = recv-Holds_second b c shutdown _ (cleanup_complete ∷ []) h in
        rw took (done at_ticking gone h')

    -- A step of `shutdown_signal` goes from one phase to one.
    pub signal-Phase :
        (c : b.Channel) (ready : Ready) (sig : Signal) (v : Worker)
        → Phase c sig v
        → Next (shutdown_signal p b c ready sig) v
    unfolding shutdown_signal
    signal-Phase c ready sig v (fresh a o) = quiet at_listening a (subscribe-Holds b c o)
    signal-Phase c ticked sig v (quiet at_listening a h) = quiet at_listening a h
    signal-Phase c received sig v (quiet at_listening a h) = quiet at_announcing a h
    signal-Phase c ready sig v (quiet at_announcing a h) =
        told at_awaiting a there (send-Holds b c shutdown [] [] h (omega arith) (omega arith))
    signal-Phase c ticked sig v (told at_awaiting a e h) = told at_awaiting a e h
    signal-Phase c ticked sig v (told at_ticking a e h) = told at_awaiting a e h
    signal-Phase c received sig v (told at_ticking a e h) = told at_ticking a e h
    signal-Phase c received sig v (told at_awaiting a e h) =
        let (q, e', h', d') = polled c _ _ e h in told d' a e' h'
    signal-Phase c ticked sig v (busy at_awaiting a e h) = busy at_awaiting a e h
    signal-Phase c ticked sig v (busy at_ticking a e h) = busy at_awaiting a e h
    signal-Phase c received sig v (busy at_ticking a e h) = busy at_ticking a e h
    signal-Phase c received sig v (busy at_awaiting a e h) =
        let (q, e', h', d') = polled c _ _ e h in busy d' a e' h'
    signal-Phase c ticked sig v (done at_awaiting e h) = done at_awaiting e h
    signal-Phase c ticked sig v (done at_ticking e h) = done at_awaiting e h
    signal-Phase c received sig v (done at_ticking e h) = done at_ticking e h
    signal-Phase c received sig v (done at_awaiting e h) = completed c _ e h
    signal-Phase c ready sig v over = over
