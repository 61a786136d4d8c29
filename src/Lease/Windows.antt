-- ===== src/Lease/Windows.antt =====
-- crates/core/src/cache.rs: what the two scripts mean together. Redis keeps a window for each key:
-- the tokens left and the time at which it ends; and any sequence of runs of the scripts, over any
-- keys, acts on them.
pub mod Step
pub mod Replay
use text.Mathlib.Text.{◌==◌ as str_eq}
use that_limit.Prelude.{
  ℕ, ◌+◌, ◌-◌, ◌*◌, ◌==◌, ◌≤◌, Bool, true, false, Option, none, some, String, List, [], ◌∷◌,
  if◌then◌else◌, min,
}
use that_limit.Prelude.Int.{pos}
use that_limit.Redis.{Redis, Entry, max_exact}
use that_limit.Cache.{Reply, int, array}
use that_limit.Lease.{lease_script, release_script}
use that_limit.Lease.Script.{Fits}

pub record Window : Type 0 where
  pub left : ℕ
  pub ends : ℕ

abbrev pub Windows : Type 0
Windows = String → Option Window

-- A run of a script for a key: `LEASE_SCRIPT` with the lease size, the quota and the seconds to
-- live, or `RELEASE_SCRIPT` with the tokens and their window.
pub data Op : Type 0 where
  lease : ℕ → ℕ → ℕ → Op
  release : ℕ → ℕ → Op

-- At its server time, the run for a key.
pub record Run : Type 0 where
  pub now : ℕ
  pub key : String
  pub op : Op

pub data Answer : Type 0 where
  -- the tokens leased, the time left in the window, and its end
  leased : ℕ → ℕ → ℕ → Answer
  released : Bool → Answer

-- The specification. `is_over` tells whether an expiry is over at a time.
module _ (is_over : ℕ → ℕ → Bool) where
  abbrev pub alive : ℕ → Option Window → Option Window
  alive now none = none
  alive now (some w) = if is_over now w.ends then none else some w

  -- A lease opens a window, or takes from the one that is open; a release gives back to the window
  -- that the tokens are from while it is open.
  abbrev pub act : ℕ → Op → Option Window → Option Window × Answer
  act now (lease size quota ttl) none = (
    some (record { left = quota - size; ends = now + 1000 * ttl }),
    leased size (1000 * ttl) (now + 1000 * ttl),
  )
  act now (lease size quota ttl) (some w) =
      let n = min w.left size in
      (some (record { left = w.left - n; ends = w.ends }), leased n (w.ends - now) w.ends)
  act now (release tokens window) none = (none, released false)
  act now (release tokens window) (some w) =
      if w.ends == window
      then (some (record { left = w.left + tokens; ends = w.ends }), released true)
      else (some w, released false)

  abbrev pub after : Run → Windows → Windows
  after r ws k = if str_eq r.key k then (act r.now r.op (alive r.now (ws r.key))).0 else ws k

  abbrev pub said : Run → Windows → Answer
  said r ws = (act r.now r.op (alive r.now (ws r.key))).1

  abbrev pub replay : List Run → Windows → List Answer
  replay [] ws = []
  replay (r ∷ rs) ws = said r ws ∷ replay rs (after r ws)

  -- The numbers that one run works with are exact.
  abbrev pub InRange : ℕ → Op → Option Window → Type 0
  InRange now (lease size quota ttl) o = Fits now size quota ttl × (size ≤ quota)
  InRange now (release tokens window) none = (tokens ≤ max_exact) × (window ≤ max_exact)
  InRange now (release tokens window) (some w) =
      (w.left + tokens ≤ max_exact) × (window ≤ max_exact)

  -- The runs come in the order of their times, and all of them are in range.
  abbrev pub AllInRange : ℕ → List Run → Windows → Type 0
  AllInRange clock [] ws = Unit
  AllInRange clock (r ∷ rs) ws =
      (clock ≤ r.now)
      × InRange r.now r.op (alive r.now (ws r.key))
      × AllInRange r.now rs (after r ws)

abbrev pub to_reply : Answer → Reply
to_reply (leased n left window) = array (pos n ∷ pos left ∷ pos window ∷ [])
to_reply (released b) = int (if b then pos 1 else pos 0)

-- The scripts themselves.
module _ (r : Redis) where
  open r use {Db}

  abbrev pub run_op : Db → ℕ → String → Op → Option (Db × Reply)
  run_op db now k (lease size quota ttl) =
      lease_script r db now (k ∷ []) (pos size ∷ pos quota ∷ pos ttl ∷ [])
  run_op db now k (release tokens window) =
      release_script r db now (k ∷ []) (pos tokens ∷ pos window ∷ [])

  -- A run that fails has no reply, and leaves the database as it is.
  abbrev pub replied : Db → Option (Db × Reply) → Db × Option Reply
  replied db none = (db, none)
  replied db (some (db', reply)) = (db', some reply)

  -- The replies.
  abbrev pub run_all : List Run → Db → List (Option Reply)
  run_all [] db = []
  run_all (x ∷ xs) db =
      let (db', reply) = replied db (run_op db x.now x.key x.op) in reply ∷ run_all xs db'
