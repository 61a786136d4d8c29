-- ===== src/Tests/Lease.antt =====
-- The configuration, the keys and the scripts.
use that_limit.Prelude.{
  ℕ, ◌+◌, ◌*◌, ◌-◌, ◌≤◌, ◌/◌, ◌≡◌, refl, inr, ◌⊎◌, ◌↔◌, Option, some, String, List, [], ◌∷◌, Result,
  ok, err, arith, false,
}
use that_limit.Prelude.Int.{pos}
use that_limit.Duration.{nanos_per_ms, nanos_per_sec}
use that_limit.Bucket.{BucketId, IpAddr, v4, public, Bucket}
use that_limit.Bucket
use that_limit.Bucket.Laws.{consume_lem}
use that_limit.Redis.InMemory.{in_memory}
use that_limit.Config.{RawConfig, json, get, sub, ip}
use that_limit.Config.Laws.{get_iff, get-err, InRange, as_config}
use that_limit.Cache.{Link, delivered, lost, redis, io, response, int, array, eval, new, key, arg}
use that_limit.Lease.{Exchange, to_key, lease, lease_script, release_script}
use that_limit.Lease.Keys.{to_key-injective}
use that_limit.Lease.Script.{Fits, Leases, lease_script_lem}
use that_limit.Lease.Calls.{Charged, lease_lost}
use that_limit.Lease.Release.{Returns, release_open, release_gone}
use that_limit.Lease.RoundTrip.{IsUndone, lease-release}
use that_limit.Lease.Clock.{new-is_expired}
use that_limit.Lease.Gives.{after, HasGiven, release_effect}
use that_limit.Platform.InMemory.{show, show-injective}
use that_limit.Tests.Data.{alice, empty_db, open_entry, open_db, bucket}

abbrev fits : Fits 1000 10 100 60
fits = record {
  size_exact = omega arith;
  quota_exact = omega arith;
  ttl_pos = omega arith;
  end_exact = omega arith;
}

first_lease :
    (db' : in_memory.Db) × (lease_script in_memory empty_db 1000
        ("k" ∷ [])
        (pos 10 ∷ pos 100 ∷ pos 60 ∷ [])
      ≡ some (db', array (pos 10 ∷ pos 60000 ∷ pos 61000 ∷ [])))
unfolding lease_script
first_lease = (_, refl)

lease_script_lem_example : Leases in_memory (open_db 7) 1000 "k" 10 100 60 (some (open_entry 7))
lease_script_lem_example =
    lease_script_lem in_memory (open_db 7) 1000 "k" 10 100 60 fits
      (record { above = omega arith; below = omega arith }, 61000, refl, omega arith)

released_open : Returns in_memory (open_db 90) 2000 "k" 9 61000 (open_entry 90)
released_open =
    release_open in_memory (open_db 90) 2000 "k" 9 61000 (omega arith) (omega arith) (open_entry 90)
      refl (record { above = omega arith; below = omega arith }) refl

not_released_gone :
    release_script in_memory empty_db 2000 ("k" ∷ []) (pos 9 ∷ pos 61000 ∷ [])
    ≡ some (empty_db, int (pos 0))
not_released_gone =
    release_gone in_memory empty_db 2000 "k" 9 61000 (omega arith) (omega arith) tt (λ h. cc)

lease-release_example : IsUndone in_memory (open_db 7) 1000 2000 "k" 10 100 60 61000 (open_entry 7)
lease-release_example =
    lease-release in_memory (open_db 7) 1000 2000 "k" 10 100 60 61000 (open_entry 7) fits refl
      (record { above = omega arith; below = omega arith }) refl (omega arith) (omega arith)
      (omega arith)

abbrev exchange : Link → Exchange in_memory
exchange link = record { link = link; server_time = 1000; started = 5; finished = 9 }

lease_lost_example :
    (db' : in_memory.Db) × (lease in_memory show
        (exchange lost)
        empty_db
        alice
        10
        100
        (60 * nanos_per_sec)
      ≡ (db', err (redis io)))
    × Charged in_memory show (exchange lost) empty_db alice 10 100 (60 * nanos_per_sec) db'
lease_lost_example =
    lease_lost in_memory show (exchange lost) empty_db alice 10 100 (60 * nanos_per_sec) fits tt
      refl

zero_ttl_refused :
    lease in_memory show (exchange delivered) empty_db alice 10 100 999
    ≡ (empty_db, err (redis response))
unfolding lease eval new key arg lease_script
zero_ttl_refused = refl

-- Sent at 0, run at 5 ms by the server, answered at 10 ms; the bucket is made a ms later.
new-is_expired_example :
    (50_000_000 + 995_000_000 - (11_000_000 - 10_000_000)) / nanos_per_ms ≤ 61000
unfolding Bucket.is_expired Bucket.new lease eval new key arg lease_script to_key
new-is_expired_example =
    new-is_expired in_memory show
      (record { link = delivered; server_time = 1000; started = 0; finished = 10_000_000 }) empty_db
      alice 10 100 (60 * nanos_per_sec) fits tt refl 995_000_000 5_000_000 11_000_000 50_000_000
      (record { sent = omega arith; answered = omega arith; later = omega arith; shown = refl }) _
      10 59_990_000_000 61000 refl (omega arith) refl

one_consumed : ((Bucket.consume (bucket 3)).0 ≡ bucket 2) × ((Bucket.consume (bucket 3)).1 ≡ 2)
one_consumed = consume_lem (bucket 3)

to_key-injective_example : public (v4 7) ≡ public (v4 7)
to_key-injective_example = to_key-injective show show-injective (public (v4 7)) (public (v4 7)) refl

abbrev sample : ℕ → RawConfig
sample lease_size = record {
  domains = "test-app" ∷ [];
  cleanup = record { enabled = false; interval = 0 };
  protected = record { criteria = sub; quota = 10000; lease_size = 2000; reset_in = 600 };
  public = record { criteria = ip; quota = 500; lease_size = lease_size; reset_in = 3600 };
}

abbrev read : String → Option (List ℕ)
read path = some []

get_iff_example : (get read (λ _. ok (sample 100)) "c.json" ≡ ok (as_config (sample 100))) ↔ (
    (content : List ℕ) × (raw : RawConfig) × (read "c.json" ≡ some content)
    × (◌≡◌ {A = Result String RawConfig} (ok (sample 100)) (ok raw))
    × InRange raw.protected
    × InRange raw.public
    × (as_config (sample 100) ≡ as_config raw))
get_iff_example = get_iff read (λ _. ok (sample 100)) "c.json" (as_config (sample 100))

lease_above_quota :
    get read (λ _. ok (sample 501)) "c.json" ≡ err (json "lease_size must be in 1..=quota")
lease_above_quota =
    get-err read (λ _. ok (sample 501)) "c.json" [] (sample 501) refl refl (inr (omega arith))

-- 9 tokens of an open window go back, but the reply is lost.
release_effect_example :
    (after in_memory show (exchange lost) (open_db 90) alice 9 61000 ≡ open_db 90)
    ⊎ HasGiven in_memory show (exchange lost) (open_db 90) alice 9 61000
release_effect_example =
    release_effect in_memory show (exchange lost) (open_db 90) alice 9 61000 (omega arith)
      (omega arith) (record { above = omega arith; below = omega arith }, 61000, refl, omega arith)
