-- ===== src/Server/History.antt =====
-- The history of one server, as a history of the system.
use that_limit.Prelude.{ℕ, ◌≤◌, Option, none, some}
use that_limit.Broadcast.{Broadcast}
use that_limit.Platform.{Platform}
use that_limit.Store.{Moment}
use that_limit.Store.Background.Worker.{
  Worker, selecting, removing, returning, reporting, ended, tick, Wake,
}
use that_limit.System
use that_limit.Server.{
  Command, Ready, ticked, received, Server, work_at, work_step, signal_step, heard, go_on, select,
  work_with, Reach, here, call, elsewhere, background, signalling,
}

module _ (p : Platform) (b : Broadcast Command) (home : ℕ → ℕ) (h : ℕ) where
  module _ {s : System.System p} (t : Server p b) (m : Moment p)
      (le : t.system.clock ≤ m.exchange.server_time) (r : System.Reach p home s t.system)
      (c : ℕ) where
    gone_on :
        (ch : b.Channel) (wake : Option Wake)
        → System.Reach p home s (go_on p b home h t c m ch wake).system
    unfolding go_on
    gone_on ch none = r
    gone_on ch (some wake) = System.background r h wake c m le

    selected :
        (ready : Ready) (ch : b.Channel)
        → System.Reach p home s (select p b home h t ready c m ch).system
    unfolding select
    selected ticked ch = System.background r h tick c m le
    selected received ch = gone_on (b.recv ch 0).1 (heard p b (b.recv ch 0).0)

    worked_at :
        (ready : Ready) (ch : b.Channel) (v : Worker)
        → System.Reach p home s (work_at p b home h t ready c m ch v).system
    unfolding work_at
    worked_at ready ch selecting = selected ready ch
    worked_at ready ch reporting = System.background r h tick c m le
    worked_at ready ch (removing cs) = System.background r h tick c m le
    worked_at ready ch (returning cs) = System.background r h tick c m le
    worked_at ready ch ended = System.background r h tick c m le

    worked_with :
        (ready : Ready) (tx : Option b.Channel)
        → System.Reach p home s (work_with p b home h t ready c m tx).system
    unfolding work_with
    worked_with ready none = r
    worked_with ready (some ch) = worked_at ready ch (t.system.workers h)

  -- Every history of a server with its channel, whatever commands its two tasks exchange, is a
  -- history of the system from the state of the same instances, in which the background task wakes
  -- at will.
  pub history : {s t : Server p b} → Reach p b home h s t → System.Reach p home s.system t.system
  unfolding work_step signal_step
  history here = System.here
  history (call r i m le) = System.next (history r) i m le
  history (elsewhere r k ne wake c m le) = System.background (history r) k wake c m le
  history (background {t} r ready c m le) = worked_with t m le (history r) c ready t.tx
  history (signalling r ready) = history r
