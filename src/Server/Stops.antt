-- ===== src/Server/Stops.antt =====
-- From every point of every history the server can still stop.
pub mod Drain
pub mod Always
use mathlib.Core.Path.{subst}
use that_limit.Prelude.{
  ℕ, zero, suc, ◌+◌, ◌==◌, ◌≤◌, ◌≡◌, ◌≢◌, refl, sym, ap, ◌∙◌, ◌⊎◌, inl, inr, Option, none, some,
  List, [], ◌∷◌, ◌++◌, true, false, if◌then◌else◌, arith, ℕ_discrete, if_pos,
}
use that_limit.Bucket.{BucketId}
use that_limit.Broadcast.{Broadcast}
use that_limit.Cache.{delivered}
use that_limit.Config.{Config}
use that_limit.Platform.{Platform}
use that_limit.Store.{Store, Moment}
use that_limit.Store.Background.Worker.{
  Worker, selecting, removing, returning, reporting, ended, tick, shut_down, Wake, work,
}
use that_limit.System.{System, tend}
use that_limit.Server
use that_limit.Server.{
  Command, shutdown, cleanup_complete, Signal, subscribing, listening, announcing, awaiting,
  ticking, stopped, Ready, ticked, received, Server, main, after_recv, signal_step, signal_with,
  work_step, work_with, work_at, Reach, here, call, elsewhere, background, signalling,
}
use that_limit.Server.Channel.{Holds, recv-Holds_second}
use that_limit.Server.Phases.{
  IsActive, IsClosing, IsEcho, gone, there, IsDown, at_awaiting, at_ticking, Phase, fresh, quiet,
  told, busy, done, over,
}

module _ (p : Platform) (b : Broadcast Command) (home : ℕ → ℕ) (h : ℕ) where
  abbrev pub CanStop : Server p b → Type 0
  CanStop t = (u : Server p b) × Reach p b home h t u × (u.signal ≡ stopped)

  Reach-trans :
      {s t u : Server p b} → Reach p b home h s t → Reach p b home h t u → Reach p b home h s u
  Reach-trans r here = r
  Reach-trans r (call q i m le) = call (Reach-trans r q) i m le
  Reach-trans r (elsewhere q k ne wake c m le) = elsewhere (Reach-trans r q) k ne wake c m le
  Reach-trans r (background q ready c m le) = background (Reach-trans r q) ready c m le
  Reach-trans r (signalling q ready) = signalling (Reach-trans r q) ready

  abbrev pub at : System p → b.Channel → Signal → Server p b
  at s c sig = record { system = s; tx = some c; signal = sig }

  -- Everything happens at the time that Redis has shown.
  abbrev pub moment : System p → Moment p
  moment s = record {
    now = 0;
    exchange = record { link = delivered; server_time = s.clock; started = 0; finished = 0 };
  }

  pub then_signal : (t : Server p b) (ready : Ready) → CanStop (signal_step p b t ready) → CanStop t
  then_signal t ready (u, r, e) = (u, Reach-trans (signalling here ready) r, e)

  pub then_work :
      (t : Server p b) (ready : Ready) (c : ℕ)
      → CanStop (work_step p b home h t ready c (moment t.system))
      → CanStop t
  then_work t ready c (u, r, e) =
      (u, Reach-trans (background here ready c (moment t.system) (omega arith)) r, e)

  module _ (s : System p) where
    -- After the report.
    finish_now :
        (c : b.Channel) (f : List Command)
        → Holds b c f (cleanup_complete ∷ [])
        → CanStop (at s c awaiting)
    unfolding signal_step signal_with after_recv
    finish_now c f v =
        let (took, _) = recv-Holds_second b c cleanup_complete f [] v in
        (_, signalling here received, rw took refl)

    finish_tick :
        (c : b.Channel) (f : List Command)
        → Holds b c f (cleanup_complete ∷ [])
        → CanStop (at s c ticking)
    unfolding signal_step signal_with
    finish_tick c f v = then_signal (at s c ticking) ticked (finish_now c f v)

    finish_later :
        (c : b.Channel) (f : List Command)
        → Holds b c f (shutdown ∷ cleanup_complete ∷ [])
        → CanStop (at s c awaiting)
    unfolding signal_step signal_with after_recv
    finish_later c f v =
        let (took, v') = recv-Holds_second b c shutdown f (cleanup_complete ∷ []) v in
        then_signal (at s c awaiting) received (
          subst (λ o. CanStop (at s (b.recv c 1).1 (after_recv p b o))) (sym took)
            (finish_tick (b.recv c 1).1 f v'))

    finish_awaiting :
        (c : b.Channel) {f q : List Command}
        → IsEcho q
        → Holds b c f (q ++ (cleanup_complete ∷ []))
        → CanStop (at s c awaiting)
    finish_awaiting c gone v = finish_now c _ v
    finish_awaiting c there v = finish_later c _ v

    pub finish :
        (c : b.Channel) {sig : Signal} {f q : List Command}
        → IsDown sig
        → IsEcho q
        → Holds b c f (q ++ (cleanup_complete ∷ []))
        → CanStop (at s c sig)
    unfolding signal_step signal_with
    finish c at_awaiting e v = finish_awaiting c e v
    finish c at_ticking e v = then_signal (at s c ticking) ticked (finish_awaiting c e v)
