-- ===== src/Server/Moves.antt =====
-- The moves of the background task, from one phase of the shutdown to the next.
use that_limit.Prelude.{
  length, ℕ, suc, ◌<◌, ◌⊎◌, inl, inr, ◌≡◌, refl, ap, ◌∙◌, Option, none, some, List, [], arith,
}
use that_limit.Broadcast.{Broadcast}
use that_limit.Platform.{Platform}
use that_limit.Store.{Store, Moment}
use that_limit.Store.Background.Worker.{
  Worker, selecting, removing, returning, reporting, ended, tick, shut_down, work,
}
use that_limit.Server
use that_limit.Server.{
  Command, shutdown, cleanup_complete, Signal, subscribing, stopped, Ready, ticked, received,
  Server, main, work_at, work_with, work_step, go_on, select, signal_with, signal_step,
  shutdown_signal, Reach, here, call, elsewhere, background, signalling,
}
use that_limit.Server.Channel.{HoldsOne, send-Holds, recv-Holds_first}
use that_limit.Server.Phases.{
  at_listening, at_announcing, at_awaiting, at_ticking, IsActive, IsClosing, IsEcho, gone, there,
  Phase, fresh, quiet, told, busy, done, over,
}

module _ (p : Platform) where
  module _ (c : ℕ) (m : Moment p) (db : p.redis.Db) (s : Store p) where
    pub work-IsActive : (v : Worker) → IsActive v → IsActive (work p tick c m (db, s) v).1
    unfolding work
    work-IsActive v a = ground arith

    pub work-IsClosing : IsClosing (work p shut_down c m (db, s) selecting).1
    unfolding work
    work-IsClosing = ground arith

    pub work-IsClosing_later :
        (cs : List (List _)) → IsClosing (work p tick c m (db, s) (returning cs)).1
    unfolding work
    work-IsClosing_later cs = ground arith

    work_reporting : (work p tick c m (db, s) reporting).1 ≡ ended
    unfolding work
    work_reporting = refl

    work_ended : (work p tick c m (db, s) ended).1 ≡ ended
    unfolding work
    work_ended = refl

-- The channel that `main` makes, with the receiver of the background task.
pub main_channel : (b : Broadcast Command) → HoldsOne b (b.subscribe (b.channel 10))
main_channel b = record {
  room = b.capacity-subscribe _ ∙ b.capacity-channel 10;
  receivers = b.receivers-subscribe _ ∙ ap suc (b.receivers-channel 10);
  first_waits = ground (arith, b.waiting-subscribe (b.channel 10) 0, b.receivers-channel 10);
}

module _ (b : Broadcast Command) {c : b.Channel} where
  -- The background task moves on within its loop, or within the shutdown.
  pub active-Phase :
      {sig : Signal} (v v' : Worker) → IsActive v → IsActive v' → Phase b c sig v → Phase b c sig v'
  active-Phase v v' a a' (fresh _ o) = fresh a' o
  active-Phase v v' a a' (quiet u _ h) = quiet u a' h
  active-Phase v v' a a' (told d _ e h) = told d a' e h
  active-Phase selecting v' a a' (busy d cl e h) = absurd cl
  active-Phase (removing cs) v' a a' (busy d cl e h) = absurd cl
  active-Phase (returning cs) v' a a' (busy d cl e h) = absurd a
  active-Phase reporting v' a a' (busy d cl e h) = absurd a
  active-Phase ended v' a a' (busy d cl e h) = absurd a
  active-Phase v v' a a' (done d e h) = absurd a
  active-Phase v v' a a' over = absurd a

  pub closing-Phase :
      {sig : Signal} (cs : List (List _)) (v' : Worker)
      → IsClosing v'
      → Phase b c sig (returning cs)
      → Phase b c sig v'
  closing-Phase cs v' a' (fresh a o) = absurd a
  closing-Phase cs v' a' (quiet u a h) = absurd a
  closing-Phase cs v' a' (told d a e h) = absurd a
  closing-Phase cs v' a' (busy d a e h) = busy d a' e h

  pub report-Phase :
      {sig : Signal} → Phase b c sig reporting → Phase b (b.send c cleanup_complete) sig ended
  report-Phase (fresh a o) = absurd a
  report-Phase (quiet u a h) = absurd a
  report-Phase (told d a e h) = absurd a
  report-Phase (busy d a e h) =
      done d e (send-Holds b c cleanup_complete [] _ h (omega arith) (few e))
    where
      few : {q : List Command} → IsEcho q → length q < 10
      few gone = omega arith
      few there = omega arith

  pub stopped_late : {sig : Signal} {v : Worker} → sig ≡ stopped → Phase b c sig v → v ≡ ended
  stopped_late e (fresh a o) = cc
  stopped_late e (quiet at_listening a h) = cc
  stopped_late e (quiet at_announcing a h) = cc
  stopped_late e (told at_awaiting a q h) = cc
  stopped_late e (told at_ticking a q h) = cc
  stopped_late e (busy at_awaiting a q h) = cc
  stopped_late e (busy at_ticking a q h) = cc
  stopped_late e (done d q h) = refl
  stopped_late e over = refl

module _ (p : Platform) (b : Broadcast Command) where
  -- What a poll of `recv` in the `select!` of the background task can give.
  abbrev pub Polled : b.Channel → Option Command → Signal → Type 0
  Polled c command sig =
      ((Server.heard p b command ≡ none) × Phase b c sig selecting)
      ⊎ ((Server.heard p b command ≡ some shut_down)
          × ((v : Worker) → IsClosing v → Phase b c sig v))

  pub poll-Polled :
      (c : b.Channel) {sig : Signal}
      → Phase b c sig selecting
      → Polled (b.recv c 0).1 (b.recv c 0).0 sig
  unfolding Server.heard
  poll-Polled c (fresh a o) = rw (b.recv-empty c 0 o.first_waits) (inl (refl, fresh a o))
  poll-Polled c (quiet u a i) = rw (b.recv-empty c 0 i.first_waits) (inl (refl, quiet u a i))
  poll-Polled c (told {q = q} d a echo i) =
      let (took, i') = recv-Holds_first b c shutdown [] q i in
      rw took (inr (refl, λ v cl. busy d cl echo i'))
  poll-Polled c (busy d cl echo i) = absurd cl
