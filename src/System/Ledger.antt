-- ===== src/System/Ledger.antt =====
-- Where the tokens go that an instance gets from a window in Redis: into its bucket, to the calls of
-- `consume`, and back on shutdown. All counts are for one id and for the window that ends at `w`.
pub mod Calls
pub mod Returns
pub mod Shutdown
pub mod Leads
pub mod Local
pub mod Regained
pub mod Total
use that_limit.Prelude.{
  ℕ, zero, suc, ◌+◌, ◌≤◌, ◌==◌, ◌≡◌, Bool, ◌&&◌, Option, none, some, List, [], ◌∷◌, if◌then◌else◌,
}
use that_limit.Prelude.Int.{ℤ, pos, eqb_ℤ}
use that_limit.Bucket.{BucketId, Bucket, is_empty, is_expired}
use that_limit.Bucket.Ids.{id_eq}
use that_limit.Platform.{Platform}
use that_limit.Store.{Task, leasing, settling, spending, Store, Moment}
use that_limit.Store.Background.Worker.{Worker, returning, Wake, next_of}
use that_limit.System.{System, step, tend, Reach, here, next, background}

-- `n` if it is about the window that ends at `w`.
abbrev pub of_window : ℕ → ℤ → ℕ → ℕ
of_window w window n = if eqb_ℤ window (pos w) then n else 0

abbrev pub of_item : BucketId → ℕ → BucketId × ℕ × ℤ → ℕ
of_item id w (j, n, window) = if id_eq j id then of_window w window n else 0

-- What a task holds between the reply of Redis and the change of the bucket.
abbrev pub held : BucketId → ℕ → Task → ℕ
held id w (settling j n _ window) = of_item id w (j, n, window)
held id w _ = 0

-- What a task gets by one step.
abbrev pub received : BucketId → ℕ → Task → Task → ℕ
received id w (leasing _) t = held id w t
received id w _ _ = 0

-- What a bucket holds.
abbrev pub content : ℕ → Option Bucket → ℕ
content w none = 0
content w (some b) = of_window w b.window b.tokens

-- What taking from a bucket at a time takes: one token, if there is one and time is left.
abbrev pub take_one : ℕ → ℕ → Option Bucket → ℕ
take_one w now none = 0
take_one w now (some b) =
    if is_expired now b then 0 else if is_empty b then 0 else of_window w b.window 1

abbrev pub sum_items : BucketId → ℕ → List (BucketId × ℕ × ℤ) → ℕ
sum_items id w [] = 0
sum_items id w (i ∷ is) = of_item id w i + sum_items id w is

abbrev pub sum_chunks : BucketId → ℕ → List (List (BucketId × ℕ × ℤ)) → ℕ
sum_chunks id w [] = 0
sum_chunks id w (c ∷ cs) = sum_items id w c + sum_chunks id w cs

-- What a background task still has to return.
abbrev pub pending : BucketId → ℕ → Worker → ℕ
pending id w (returning cs) = sum_chunks id w cs
pending id w _ = 0

-- What it returns by one step of a chunk.
abbrev pub returned : BucketId → ℕ → ℕ → Worker → ℕ
returned id w c (returning cs) = elim (next_of c cs) [ none ↦ 0 | some (i, _) ↦ of_item id w i ]
returned id w c _ = 0

module _ (p : Platform) where
  open p use {buckets as bucket_map}

  abbrev pub stored : BucketId → ℕ → Store p → ℕ
  stored id w s = content w (bucket_map.get s.buckets id)

  -- What a call takes from the bucket by one step.
  abbrev pub spent : BucketId → ℕ → Moment p → Store p → Task → ℕ
  spent id w m s (spending j) =
      if id_eq j id then take_one w m.now (bucket_map.get s.buckets j) else 0
  spent id w m s _ = 0

  module _ (home : ℕ → ℕ) where
    -- The sum over the steps of a history, of what each adds.
    unfoldable pub tally :
        (System p → ℕ → Moment p → ℕ)
        → (System p → ℕ → ℕ → ℕ)
        → {s t : System p} → Reach p home s t
        → ℕ
    tally call give here = 0
    tally call give (next {t} r i m le) = tally call give r + call t i m
    tally call give (background {t} r h wake c m le) = tally call give r + give t h c

    -- The same for one instance.
    abbrev pub tally_at :
        ℕ
        → (System p → ℕ → Moment p → ℕ)
        → (System p → ℕ → ℕ → ℕ)
        → {s t : System p} → Reach p home s t
        → ℕ
    tally_at k call give =
        tally (λ t i m. if home i == k then call t i m else 0)
          (λ t h c. if h == k then give t h c else 0)

    abbrev pub gets : BucketId → ℕ → System p → ℕ → Moment p → ℕ
    gets id w t i m = received id w (t.tasks i) ((step p home t i m).tasks i)

    abbrev pub spends : BucketId → ℕ → System p → ℕ → Moment p → ℕ
    spends id w t i m = spent id w m (t.stores (home i)) (t.tasks i)

    abbrev pub returns : BucketId → ℕ → System p → ℕ → ℕ → ℕ
    returns id w t h c = returned id w c (t.workers h)

    abbrev pub no_call : System p → ℕ → Moment p → ℕ
    no_call _ _ _ = 0

    abbrev pub no_return : System p → ℕ → ℕ → ℕ
    no_return _ _ _ = 0

    -- All tokens of the window that the calls of all instances have got for the id.
    abbrev pub total_taken : BucketId → ℕ → {s t : System p} → Reach p home s t → ℕ
    total_taken id w = tally (gets id w) no_return

    -- All that they have spent.
    abbrev pub total_spent : BucketId → ℕ → {s t : System p} → Reach p home s t → ℕ
    total_spent id w = tally (spends id w) no_return

    -- All that the background tasks have sent back.
    abbrev pub total_returned : BucketId → ℕ → {s t : System p} → Reach p home s t → ℕ
    total_returned id w = tally no_call (returns id w)
