-- ===== src/Server/Stops/Always.antt =====
-- The signal, before the background task has the command; and all points together.
use mathlib.Core.Path.{subst}
use that_limit.Prelude.{
  ℕ, zero, suc, ◌==◌, ◌≡◌, refl, sym, inl, inr, some, List, [], ◌∷◌, true, false, arith,
}
use that_limit.Bucket.{BucketId}
use that_limit.Broadcast.{Broadcast}
use that_limit.Config.{Config}
use that_limit.Platform.{Platform}
use that_limit.Store.Background.Worker.{
  Worker, selecting, removing, returning, reporting, ended, shut_down,
}
use that_limit.System.{System}
use that_limit.Server
use that_limit.Server.{
  Command, shutdown, Signal, subscribing, listening, announcing, awaiting, Ready, ticked, received,
  Server, main, signal_step, signal_with, work_step, work_with, work_at, select, go_on, Reach,
}
use that_limit.Server.Channel.{Holds, recv-Holds_first, send-Holds, subscribe-Holds}
use that_limit.Server.Phases.{
  IsEcho, there, IsDown, at_awaiting, at_listening, at_announcing, Phase, fresh, quiet, told, busy,
}
use that_limit.Server.Order.{Orderly, after, tended_worker, work_step-Orderly, Reach-Orderly}
use that_limit.Server.Moves.{work-IsClosing}
use that_limit.Server.Chunks.{total, progress}
use that_limit.Server.Stops.{CanStop, at, moment, then_signal, then_work}
use that_limit.Server.Stops.Drain.{
  Stops, as_at, ended_can, closing_can, stepped, work_removed, work_all_removed,
}

module _ (p : Platform) (b : Broadcast Command) (home : ℕ → ℕ) (h : ℕ) where
  module _ (s : System p) (e : s.workers h ≡ selecting) where
    -- The background task polls its receiver, and has the command.
    commanded :
        (c : b.Channel) (sig : Signal)
        → (b.recv c 0).0 ≡ some shutdown
        → (work_step p b home h
              (at p b home h s c sig)
              received
              0
              (moment p b home h s)).system.workers
            h
          ≡ after p b home h (at p b home h s c sig) 0 (moment p b home h s) shut_down selecting
    unfolding work_step work_with work_at select go_on Server.heard
    commanded c sig took =
        let t = at p b home h s c sig in
        let m = moment p b home h s in
        subst
          (λ w.
            (work_at p b home h t received 0 m c w).system.workers h
            ≡ after p b home h t 0 m shut_down selecting)
          (sym e)
          (subst
            (λ o.
              (go_on p b home h t 0 m (b.recv c 0).1 (Server.heard p b o)).system.workers h
              ≡ after p b home h t 0 m shut_down selecting)
            (sym took) (tended_worker p b home h t 0 m shut_down selecting e))

    told_can :
        (c : b.Channel) {sig : Signal} {q : List Command}
        → IsDown sig
        → IsEcho q
        → Holds b c (shutdown ∷ []) q
        → CanStop p b home h (at p b home h s c sig)
    unfolding Stops
    told_can c {sig} {q} d echo v =
        let t = at p b home h s c sig in
        let (took, _) = recv-Holds_first b c shutdown [] q v in
        let o : Orderly p b home h t = record {
          channel = c;
          sender = refl;
          phase = rw e (told d tt echo v);
        } in
        then_work p b home h t received 0 (
          closing_can p b home h _ _ (work-IsClosing p 0 (moment p b home h s) s.db (s.stores h))
            (work_step-Orderly p b home h t received 0 (moment p b home h s) o)
            (commanded c sig took))

    announcing_can :
        (c : b.Channel) → Holds b c [] [] → CanStop p b home h (at p b home h s c announcing)
    unfolding signal_step signal_with
    announcing_can c v = then_signal p b home h (at p b home h s c announcing) ticked (
        told_can (b.send c shutdown) at_awaiting there
          (send-Holds b c shutdown [] [] v (omega arith) (omega arith)))

    listening_can :
        (c : b.Channel) → Holds b c [] [] → CanStop p b home h (at p b home h s c listening)
    unfolding signal_step signal_with
    listening_can c v =
        then_signal p b home h (at p b home h s c listening) received (announcing_can c v)

    selecting_at :
        (c : b.Channel) {sig : Signal}
        → Phase b c sig selecting
        → CanStop p b home h (at p b home h s c sig)
    unfolding signal_step signal_with
    selecting_at c (fresh a o) =
        then_signal p b home h (at p b home h s c subscribing) ticked
          (listening_can (b.subscribe c) (subscribe-Holds b c o))
    selecting_at c (quiet at_listening a v) = listening_can c v
    selecting_at c (quiet at_announcing a v) = announcing_can c v
    selecting_at c (told d a echo v) = told_can c d echo v
    selecting_at c (busy d cl echo v) = absurd cl

  selecting_can : (t : Server p b) → Stops p b home h t selecting
  unfolding Stops
  selecting_can t o e =
      subst (CanStop p b home h) (as_at p b home h t o)
        (selecting_at t.system e o.channel (subst (Phase b o.channel t.signal) e o.phase))

  removing_can :
      (n : ℕ) (cs : List (List BucketId))
      → total cs ≡ n
      → (t : Server p b) → Stops p b home h t (removing cs)
  unfolding Stops
  removing_can zero cs size t o e = elim (progress cs) [
    | inl (c, i, cs', n, less) ↦ absurd (omega arith)
    | inr (n, d) ↦
        stepped p b home h t 0 (removing cs) selecting tt o e
          (work_all_removed p 0 _ t.system.db (t.system.stores h) cs n d) selecting_can
  ]
  removing_can (suc k) cs size t o e = elim (progress cs) [
    | inl (c, i, cs', n, less) ↦
        stepped p b home h t c (removing cs) (removing cs') tt o e
          (work_removed p c _ t.system.db (t.system.stores h) cs cs' i n)
          (removing_can k cs' (omega arith))
    | inr (n, d) ↦
        stepped p b home h t 0 (removing cs) selecting tt o e
          (work_all_removed p 0 _ t.system.db (t.system.stores h) cs n d) selecting_can
  ]

  any_can : (t : Server p b) (v : Worker) → Stops p b home h t v
  unfolding Stops
  any_can t selecting o e = selecting_can t o e
  any_can t (removing cs) o e = removing_can (total cs) cs refl t o e
  any_can t (returning cs) o e = closing_can p b home h t (returning cs) tt o e
  any_can t reporting o e = closing_can p b home h t reporting tt o e
  any_can t ended o e = ended_can p b home h t o e

  module _ (config : Config) (db : p.redis.Db) (clock : ℕ) (ids : ℕ → BucketId)
      (enabled : config.cleanup.enabled ≡ true)
      (runs : (config.cleanup.interval == 0) ≡ false) where
    -- If cleanup is enabled with an interval above 0, then from every point of every history there
    -- are further steps after which the server has stopped, whatever has become of the calls of
    -- Redis: no command is lost, and the chunks of the background task come to their end.
    pub can_stop :
        {t : Server p b} → Reach p b home h (main p b config db clock ids) t → CanStop p b home h t
    unfolding Stops
    can_stop {t} r =
        any_can t (t.system.workers h) (Reach-Orderly p b home h config db clock ids enabled runs r)
          refl
