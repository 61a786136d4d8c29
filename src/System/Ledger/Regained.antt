-- ===== src/System/Ledger/Regained.antt =====
-- What Redis gets back of a window, by what becomes of the entry of its id.
use that_limit.Prelude.{ℕ, ◌+◌, ◌-◌, ◌==◌, ◌≡◌, refl, Option, none, some, if◌then◌else◌, arith}
use that_limit.Prelude.Int.{pos_part}
use that_limit.Bucket.{BucketId}
use that_limit.Redis.{Entry}
use that_limit.Lease.{to_key}
use that_limit.Platform.{Platform}
use that_limit.Store.{Moment}
use that_limit.Store.Background.Worker.{Wake}
use that_limit.System.{System, tend, Reach, here, next, background}

-- By how much the tokens of an entry grow, if it is of the window that ends at `w`.
abbrev pub growth : ℕ → Option Entry → Option Entry → ℕ
growth w (some e) (some e') = elim e.expires [
  | none ↦ 0
  | some t ↦ if t == w then pos_part e'.value - pos_part e.value else 0
]
growth w _ _ = 0

pub growth_self : (w : ℕ) (o : Option Entry) → growth w o o ≡ 0
growth_self w none = refl
growth_self w (some e) = ground arith

module _ (p : Platform) where
  open p use {redis, show_ip}

  -- From one database to another, at a time of the server.
  abbrev pub grows : redis.Db → redis.Db → ℕ → BucketId → ℕ → ℕ
  grows db db' now id w =
      growth w (redis.find db now (to_key show_ip id)) (redis.find db' now (to_key show_ip id))

  module _ (home : ℕ → ℕ) where
    -- By a step of a background task.
    abbrev pub regains : BucketId → ℕ → System p → ℕ → Wake → ℕ → Moment p → ℕ
    regains id w t h wake c m = grows t.db (tend p home t h wake c m).db m.exchange.server_time id w

    -- All tokens that the window in Redis has got back from the background tasks: those of the
    -- calls that have reached Redis while the window was open, and no others.
    unfoldable pub total_regained : BucketId → ℕ → {s t : System p} → Reach p home s t → ℕ
    total_regained id w here = 0
    total_regained id w (next r i m le) = total_regained id w r
    total_regained id w (background {t} r h wake c m le) =
        total_regained id w r + regains id w t h wake c m
