-- ===== src/Server/Order.antt =====
-- The order of a shutdown: the signal, the background task, the server.
use mathlib.Core.Path.{subst}
use that_limit.Prelude.{
  ℕ, inl, inr, ◌==◌, ◌≡◌, ◌≢◌, refl, sym, ap, ◌∙◌, Option, some, true, false, ℕ_discrete, if_pos,
  if_neg,
}
use that_limit.Bucket.{BucketId}
use that_limit.Broadcast.{Broadcast}
use that_limit.Config.{Config}
use that_limit.Platform.{Platform}
use that_limit.Store.{Moment}
use that_limit.Store.Background.Worker.{
  Worker, selecting, removing, returning, reporting, ended, tick, shut_down, Wake, work,
}
use that_limit.System.{tend, step}
use that_limit.Server
use that_limit.Server.{
  Command, shutdown, cleanup_complete, Signal, subscribing, stopped, Ready, ticked, received,
  Server, main, work_at, work_with, work_step, go_on, select, signal_with, signal_step,
  shutdown_signal, Reach, here, call, elsewhere, background, signalling,
}
use that_limit.Server.Phases.{Phase, fresh, signal-Phase}
use that_limit.Server.Moves.{
  work-IsActive, work-IsClosing, work-IsClosing_later, main_channel, active-Phase, closing-Phase,
  report-Phase, stopped_late, Polled, poll-Polled,
}

module _ (p : Platform) (b : Broadcast Command) (home : ℕ → ℕ) (h : ℕ) where
  -- The server has its sender, and its two tasks are in one phase.
  pub record Orderly (t : Server p b) : Type 0 where
    pub channel : b.Channel
    pub sender : t.tx ≡ some channel
    pub phase : Phase b channel t.signal (t.system.workers h)

  module _ (t : Server p b) (c : ℕ) (m : Moment p) where
    abbrev pub after : Wake → Worker → Worker
    after wake v = (work p wake c m (t.system.db, t.system.stores h) v).1

    pub tended_worker :
        (wake : Wake) (v : Worker)
        → t.system.workers h ≡ v
        → (tend p home t.system h wake c m).workers h ≡ after wake v
    unfolding tend
    tended_worker wake v e =
        if_pos (ℕ_discrete h h) refl (after wake (t.system.workers h)) (t.system.workers h)
        ∙ ap (after wake) e

    tended-Orderly :
        (wake : Wake) (ch : b.Channel) (v : Worker) (tx : Option b.Channel)
        → tx ≡ some ch
        → t.system.workers h ≡ v
        → Phase b ch t.signal (after wake v)
        → Orderly (record t { system = tend p home t.system h wake c m; tx = tx })
    tended-Orderly wake ch v tx sender e phase = record {
      channel = ch;
      sender = sender;
      phase = rw (tended_worker wake v e) phase;
    }

    gone_on-Orderly :
        (ch : b.Channel) (command : Option Command)
        → t.system.workers h ≡ selecting
        → Polled p b ch command t.signal
        → Orderly (go_on p b home h t c m ch (Server.heard p b command))
    unfolding go_on
    gone_on-Orderly ch command e (inl (same, phase)) =
        rw same (record { channel = ch; sender = refl; phase = rw e phase })
    gone_on-Orderly ch command e (inr (by_command, phase)) = rw by_command (
        tended-Orderly shut_down ch selecting _ refl e
          (phase _ (work-IsClosing p c m t.system.db (t.system.stores h))))

    worked-Orderly :
        (ready' : Ready) (ch : b.Channel) (v : Worker)
        → t.tx ≡ some ch
        → t.system.workers h ≡ v
        → Phase b ch t.signal v
        → Orderly (work_at p b home h t ready' c m ch v)
    unfolding work_at select work
    worked-Orderly ticked ch selecting tx e phase = tended-Orderly tick ch selecting t.tx tx e (
        active-Phase b selecting (after tick selecting) tt
          (work-IsActive p c m t.system.db (t.system.stores h) selecting tt) phase)
    worked-Orderly received ch selecting tx e phase =
        gone_on-Orderly (b.recv ch 0).1 (b.recv ch 0).0 e (poll-Polled p b ch phase)
    worked-Orderly r ch reporting tx e phase =
        tended-Orderly tick (b.send ch cleanup_complete) reporting _ refl e (report-Phase b phase)
    worked-Orderly r ch (removing cs) tx e phase = tended-Orderly tick ch (removing cs) t.tx tx e (
        active-Phase b (removing cs) (after tick (removing cs)) tt
          (work-IsActive p c m t.system.db (t.system.stores h) (removing cs) tt) phase)
    worked-Orderly r ch (returning cs) tx e phase =
        tended-Orderly tick ch (returning cs) t.tx tx e (
          closing-Phase b cs (after tick (returning cs))
            (work-IsClosing_later p c m t.system.db (t.system.stores h) cs) phase)
    worked-Orderly r ch ended tx e phase = tended-Orderly tick ch ended t.tx tx e phase

  pub work_step-Orderly :
      (t : Server p b) (ready : Ready) (c : ℕ) (m : Moment p)
      → Orderly t
      → Orderly (work_step p b home h t ready c m)
  unfolding work_step work_with
  work_step-Orderly t ready c m v =
      subst (λ tx. Orderly (work_with p b home h t ready c m tx)) (sym v.sender)
        (worked-Orderly t c m ready v.channel _ v.sender refl v.phase)

  signal_step-Orderly :
      (t : Server p b) (ready : Ready) → Orderly t → Orderly (signal_step p b t ready)
  unfolding signal_step signal_with
  signal_step-Orderly t ready v = record {
    channel = (shutdown_signal p b v.channel ready t.signal).0;
    sender = rw v.sender refl;
    phase = rw v.sender (signal-Phase b p v.channel ready t.signal _ v.phase);
  }

  call-Orderly :
      (t : Server p b) (i : ℕ) (m : Moment p)
      → Orderly t
      → Orderly (record t { system = step p home t.system i m })
  unfolding step
  call-Orderly t i m v = record { channel = v.channel; sender = v.sender; phase = v.phase }

  elsewhere-Orderly :
      (t : Server p b) (k : ℕ) (wake : Wake) (c : ℕ) (m : Moment p)
      → h ≢ k
      → Orderly t
      → Orderly (record t { system = tend p home t.system k wake c m })
  unfolding tend
  elsewhere-Orderly t k wake c m ne v = record {
    channel = v.channel;
    sender = v.sender;
    phase =
        rw
          (if_neg (ℕ_discrete k h) (λ e. ne (sym e))
            (work p wake c m (t.system.db, t.system.stores k) (t.system.workers k)).1
            (t.system.workers h))
          v.phase;
  }

  module _ (config : Config) (db : p.redis.Db) (clock : ℕ) (ids : ℕ → BucketId)
      (enabled : config.cleanup.enabled ≡ true)
      (runs : (config.cleanup.interval == 0) ≡ false) where
    main-Orderly : Orderly (main p b config db clock ids)
    unfolding main
    main-Orderly = record {
      channel = b.subscribe (b.channel 10);
      sender = rw enabled refl;
      phase = rw (enabled, runs) (fresh tt (main_channel b));
    }

    pub Reach-Orderly :
        {t : Server p b} → Reach p b home h (main p b config db clock ids) t → Orderly t
    Reach-Orderly here = main-Orderly
    Reach-Orderly (call {t} r i m le) = call-Orderly t i m (Reach-Orderly r)
    Reach-Orderly (elsewhere {t} r k ne wake c m le) =
        elsewhere-Orderly t k wake c m ne (Reach-Orderly r)
    Reach-Orderly (background {t} r ready c m le) = work_step-Orderly t ready c m (Reach-Orderly r)
    Reach-Orderly (signalling {t} r ready) = signal_step-Orderly t ready (Reach-Orderly r)

    -- If cleanup is enabled with an interval above 0, then in every history in which the server
    -- stops, its background task has ended.
    pub stops_after_return :
        {t : Server p b}
        → Reach p b home h (main p b config db clock ids) t
        → t.signal ≡ stopped
        → t.system.workers h ≡ ended
    stops_after_return r e = stopped_late b e (Reach-Orderly r).phase
