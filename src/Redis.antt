-- ===== src/Redis.antt =====
-- What the Lua scripts rely on in the Redis server: the commands they call, and Lua's numbers. The
-- server is not part of the repository, so it is a parameter: its operations, and its documented
-- behaviour as laws over the view `find` of the live entry of a key.
pub mod InMemory
use text.Mathlib.Text.{◌==◌ as str_eq}
use that_limit.Prelude.{
  ℕ, ◌+◌, ◌-◌, ◌*◌, ◌^◌, ◌≤◌, ◌<◌, ◌≡◌, ◌≢◌, Bool, true, false, Option, none, some, String,
  if◌then◌else◌,
}
use that_limit.Prelude.Int.{ℤ, pos, negsuc, pos_part, neg_part, ◌+ℤ◌, ◌-ℤ◌}

-- A key's integer value and the unix time in ms at which it expires, if it does.
pub record Entry : Type 0 where
  pub value : ℤ
  pub expires : Option ℕ

-- The integers that a Lua number (a double) holds exactly.
abbrev pub max_exact : ℕ
max_exact = 2 ^ 53

pub record IsExact (z : ℤ) : Type 0 where
  pub above : pos_part z ≤ max_exact
  pub below : neg_part z ≤ max_exact

abbrev pub value_of : Option Entry → Option ℤ
value_of none = none
value_of (some e) = some e.value

-- PEXPIRETIME: -2 for no key, -1 for a key without expiry.
abbrev pub expiry_of : Option Entry → ℤ
expiry_of none = negsuc 1
expiry_of (some e) = elim e.expires [ none ↦ negsuc 0 | some t ↦ pos t ]

-- PTTL at a time, with the same two codes.
abbrev pub time_left : ℕ → Option Entry → ℤ
time_left now none = negsuc 1
time_left now (some e) = elim e.expires [ none ↦ negsuc 0 | some t ↦ pos (t - now) ]

-- What is left of an entry at a time, given which expiry times are over then.
abbrev pub still : (ℕ → ℕ → Bool) → ℕ → Option Entry → Option Entry
still is_over now none = none
still is_over now (some e) = elim e.expires [
  | none ↦ some e
  | some t ↦ if is_over now t then none else some e
]

abbrev pub leased_for : ℕ → ℕ → ℤ → Entry
leased_for now secs v = record { value = v; expires = some (now + 1000 * secs) }

-- A command takes the database and the server's clock in ms, and fails with `none`.
pub record Redis : Type 1 where
  pub Db : Type 0
  pub find : Db → ℕ → String → Option Entry
  pub is_over : ℕ → ℕ → Bool
  pub number : ℤ → ℤ
  pub get : Db → ℕ → String → Option ℤ
  pub pttl : Db → ℕ → String → ℤ
  pub pexpiretime : Db → ℕ → String → ℤ
  pub setex : Db → ℕ → String → ℤ → ℤ → Option Db
  pub decrby : Db → ℕ → String → ℤ → Option Db
  pub incrby : Db → ℕ → String → ℤ → Option Db
  -- An entry lives until its expiry; what happens in that very millisecond is left open.
  pub is_over-before : (now t : ℕ) → now < t → is_over now t ≡ false
  pub is_over-after : (now t : ℕ) → t < now → is_over now t ≡ true
  pub number_exact : (z : ℤ) → IsExact z → number z ≡ z
  pub get_lem : (db : Db) (now : ℕ) (k : String) → get db now k ≡ value_of (find db now k)
  pub pttl_lem : (db : Db) (now : ℕ) (k : String) → pttl db now k ≡ time_left now (find db now k)
  pub pexpiretime_lem :
      (db : Db) (now : ℕ) (k : String) → pexpiretime db now k ≡ expiry_of (find db now k)
  pub find_later :
      (db : Db) (now later : ℕ) (k : String)
      → now ≤ later
      → find db later k ≡ still is_over later (find db now k)
  -- SETEX refuses a time of zero, and succeeds on one in range.
  pub setex-zero : (db : Db) (now : ℕ) (k : String) (v : ℤ) → setex db now k (pos 0) v ≡ none
  pub setex-some :
      (db : Db) (now : ℕ) (k : String) (secs : ℕ) (v : ℤ)
      → 0 < secs
      → now + 1000 * secs ≤ max_exact
      → IsExact v
      → setex db now k (pos secs) v ≢ none
  pub find-setex :
      (db : Db) (now : ℕ) (k : String) (secs : ℕ) (v : ℤ) (later : ℕ) (j : String) {db' : Db}
      → setex db now k (pos secs) v ≡ some db'
      → now ≤ later
      → find db' later j ≡ (
          if str_eq k j
          then still is_over later (some (leased_for now secs v))
          else find db later j)
  -- DECRBY and INCRBY on a live key keep its expiry.
  pub decrby-some :
      (db : Db) (now : ℕ) (k : String) (n : ℕ) (e : Entry)
      → find db now k ≡ some e
      → IsExact e.value
      → n ≤ max_exact
      → decrby db now k (pos n) ≢ none
  pub find-decrby :
      (db : Db) (now : ℕ) (k : String) (n : ℕ) (e : Entry) (later : ℕ) (j : String) {db' : Db}
      → find db now k ≡ some e
      → decrby db now k (pos n) ≡ some db'
      → now ≤ later
      → find db' later j ≡ (
          if str_eq k j
          then still is_over later (some (record e { value = e.value -ℤ pos n }))
          else find db later j)
  pub incrby-some :
      (db : Db) (now : ℕ) (k : String) (n : ℕ) (e : Entry)
      → find db now k ≡ some e
      → IsExact e.value
      → n ≤ max_exact
      → incrby db now k (pos n) ≢ none
  pub find-incrby :
      (db : Db) (now : ℕ) (k : String) (n : ℕ) (e : Entry) (later : ℕ) (j : String) {db' : Db}
      → find db now k ≡ some e
      → incrby db now k (pos n) ≡ some db'
      → now ≤ later
      → find db' later j ≡ (
          if str_eq k j
          then still is_over later (some (record e { value = e.value +ℤ pos n }))
          else find db later j)
