-- ===== src/Server/Panics.antt =====
-- What becomes of a server whose cleanup interval is 0: `tokio::time::interval` has panicked.
use mathlib.Core.Path.{subst}
use that_limit.Prelude.{ℕ, ◌≡◌, ◌≢◌, refl, sym, ap, ◌∙◌, some, true, ℕ_discrete, if_pos, if_neg}
use that_limit.Bucket.{BucketId}
use that_limit.Broadcast.{Broadcast}
use that_limit.Config.{Config}
use that_limit.Platform.{Platform}
use that_limit.Store.{Store, Moment}
use that_limit.Store.Background.Worker.{Worker, selecting, ended, Wake, tick, work}
use that_limit.System.{System, tend, step}
use that_limit.Server.{
  Command, stopped, Ready, Server, main, work_at, work_with, work_step, signal_with, signal_step,
  shutdown_signal, Reach, here, call, elsewhere, background, signalling,
}
use that_limit.Server.Phases.{Phase, fresh, signal-Phase}
use that_limit.Server.Moves.{main_channel, stopped_late}

module _ (p : Platform) (b : Broadcast Command) (home : ℕ → ℕ) (h : ℕ) where
  -- The background task is gone, and `shutdown_signal` sees one that never leaves its loop.
  record Stuck (t : Server p b) : Type 0 where
    pub channel : b.Channel
    pub sender : t.tx ≡ some channel
    pub phase : Phase b channel t.signal selecting
    pub gone : t.system.workers h ≡ ended

  work_ended :
      (wake : Wake) (c : ℕ) (m : Moment p) (db : p.redis.Db) (s : Store p) (v : Worker)
      → v ≡ ended
      → (work p wake c m (db, s) v).1 ≡ ended
  unfolding work
  work_ended wake c m db s v e = rw e refl

  tended_ended :
      (s : System p) (k : ℕ) (wake : Wake) (c : ℕ) (m : Moment p)
      → s.workers h ≡ ended
      → (tend p home s k wake c m).workers h ≡ ended
  unfolding tend
  tended_ended s k wake c m e = elim (ℕ_discrete k h) [
    | yes same ↦
        if_pos (ℕ_discrete k h) same _ _
        ∙ work_ended wake c m s.db (s.stores k) (s.workers k) (ap s.workers same ∙ e)
    | no other ↦ if_neg (ℕ_discrete k h) other _ _ ∙ e
  ]

  work_at-Stuck :
      (t : Server p b) (ready : Ready) (c : ℕ) (m : Moment p) (v : Stuck t)
      → Stuck (work_at p b home h t ready c m v.channel ended)
  unfolding work_at
  work_at-Stuck t ready c m v = record {
    channel = v.channel;
    sender = v.sender;
    phase = v.phase;
    gone = tended_ended t.system h tick c m v.gone;
  }

  work_step-Stuck :
      (t : Server p b) (ready : Ready) (c : ℕ) (m : Moment p)
      → Stuck t
      → Stuck (work_step p b home h t ready c m)
  unfolding work_step work_with
  work_step-Stuck t ready c m v =
      subst (λ tx. Stuck (work_with p b home h t ready c m tx)) (sym v.sender)
        (subst (λ w. Stuck (work_at p b home h t ready c m v.channel w)) (sym v.gone)
          (work_at-Stuck t ready c m v))

  signal_step-Stuck : (t : Server p b) (ready : Ready) → Stuck t → Stuck (signal_step p b t ready)
  unfolding signal_step signal_with
  signal_step-Stuck t ready v = record {
    channel = (shutdown_signal p b v.channel ready t.signal).0;
    sender = rw v.sender refl;
    phase = rw v.sender (signal-Phase b p v.channel ready t.signal _ v.phase);
    gone = v.gone;
  }

  call-Stuck :
      (t : Server p b) (i : ℕ) (m : Moment p)
      → Stuck t
      → Stuck (record t { system = step p home t.system i m })
  unfolding step
  call-Stuck t i m v = record {
    channel = v.channel;
    sender = v.sender;
    phase = v.phase;
    gone = v.gone;
  }

  module _ (config : Config) (db : p.redis.Db) (clock : ℕ) (ids : ℕ → BucketId)
      (enabled : config.cleanup.enabled ≡ true) (zero : config.cleanup.interval ≡ 0) where
    main-Stuck : Stuck (main p b config db clock ids)
    unfolding main
    main-Stuck = record {
      channel = b.subscribe (b.channel 10);
      sender = rw enabled refl;
      phase = fresh tt (main_channel b);
      gone = rw (enabled, zero) refl;
    }

    Reach-Stuck : {t : Server p b} → Reach p b home h (main p b config db clock ids) t → Stuck t
    Reach-Stuck here = main-Stuck
    Reach-Stuck (call {t} r i m le) = call-Stuck t i m (Reach-Stuck r)
    Reach-Stuck (elsewhere {t} r k ne wake c m le) =
        let v = Reach-Stuck r in
        record {
          channel = v.channel;
          sender = v.sender;
          phase = v.phase;
          gone = tended_ended t.system k wake c m v.gone;
        }
    Reach-Stuck (background {t} r ready c m le) = work_step-Stuck t ready c m (Reach-Stuck r)
    Reach-Stuck (signalling {t} r ready) = signal_step-Stuck t ready (Reach-Stuck r)

    -- If cleanup is enabled with an interval of 0, the server stops in no history, whatever signals
    -- it gets: its background task has panicked, and no one reports that it has ended.
    pub never_stops :
        {t : Server p b} → Reach p b home h (main p b config db clock ids) t → t.signal ≢ stopped
    never_stops r e = let late = stopped_late b e (Reach-Stuck r).phase in cc
