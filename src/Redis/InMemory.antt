-- ===== src/Redis/InMemory.antt =====
-- A database in memory that has the laws of `Redis`: they can be met, and the tests run on it.
use text.Mathlib.Text.{◌==◌ as str_eq}
use mathlib.Core.Path.{subst}
use that_limit.Prelude.{
  ℕ, ◌≤◌, ◌<◌, ◌≡◌, ◌≢◌, refl, Bool, true, false, Option, none, some, String, ltb, ◌==◌, Bool-cases,
  inl, inr, if◌then◌else◌, arith,
}
use that_limit.Prelude.Int.{ℤ, pos, negsuc, ◌+ℤ◌, ◌-ℤ◌}
use that_limit.Redis.{Redis, Entry, value_of, expiry_of, time_left, still, leased_for}

abbrev Table : Type 0
Table = String → Option Entry

abbrev over : ℕ → ℕ → Bool
over now t = ltb t now

abbrev at : Table → ℕ → String → Option Entry
at db now k = still over now (db k)

abbrev put : Table → String → Entry → Table
put db k e j = if str_eq k j then some e else db j

abbrev put_for : Table → ℕ → String → ℤ → ℤ → Option Table
put_for db now k (pos secs) v = if secs == 0 then none else some (put db k (leased_for now secs v))
put_for db now k (negsuc _) v = none

-- A missing key counts from zero and gets no expiry.
abbrev plus : Option Entry → ℤ → Entry
plus none n = record { value = n; expires = none }
plus (some e) n = record e { value = e.value +ℤ n }

abbrev minus : Option Entry → ℤ → Entry
minus none n = record { value = pos 0 -ℤ n; expires = none }
minus (some e) n = record e { value = e.value -ℤ n }

some-eq_inv {ℓ} : {A : Type ℓ} {a b : A} → some a ≡ some b → a ≡ b
some-eq_inv h = cc

pub some-ne-none {ℓ} : {A : Type ℓ} (a : A) → some a ≢ none
some-ne-none a h = cc

pub over-before : (now t : ℕ) → now < t → over now t ≡ false
over-before now t h = ground arith

pub over-after : (now t : ℕ) → t < now → over now t ≡ true
over-after now t h = ground arith

pub find_later :
    (db : Table) (now later : ℕ) (k : String)
    → now ≤ later
    → at db later k ≡ still over later (at db now k)
find_later db now later k h = ground arith

pub put_for-some :
    (db : Table) (now : ℕ) (k : String) (secs : ℕ) (v : ℤ)
    → 0 < secs
    → put_for db now k (pos secs) v ≢ none
put_for-some db now k secs v h = ground arith

put-at :
    (db : Table) (k : String) (e : Entry) (later : ℕ) (j : String)
    → at (put db k e) later j ≡ (if str_eq k j then still over later (some e) else at db later j)
put-at db k e later j = ground arith

pub find-put :
    (db : Table) (k : String) (e : Entry) (later : ℕ) (j : String) {db' : Table}
    → some (put db k e) ≡ some db'
    → at db' later j ≡ (if str_eq k j then still over later (some e) else at db later j)
find-put db k e later j {db'} h =
    subst (λ d. at d later j ≡ (if str_eq k j then still over later (some e) else at db later j))
      (some-eq_inv h) (put-at db k e later j)

-- SETEX that succeeded had a time above zero.
pub find-put_for :
    (db : Table) (now : ℕ) (k : String) (secs : ℕ) (v : ℤ) (later : ℕ) (j : String) {db' : Table}
    → put_for db now k (pos secs) v ≡ some db'
    → at db' later j
      ≡ (if str_eq k j then still over later (some (leased_for now secs v)) else at db later j)
find-put_for db now k secs v later j h = elim (Bool-cases (secs == 0)) [
  | inl e ↦ ground arith
  | inr e ↦ find-put db k (leased_for now secs v) later j (rw e at h)
]

abbrev pub in_memory : Redis
in_memory = record {
  Db = Table;
  find = at;
  is_over = over;
  number = λ z. z;
  get = λ db now k. value_of (at db now k);
  pttl = λ db now k. time_left now (at db now k);
  pexpiretime = λ db now k. expiry_of (at db now k);
  setex = put_for;
  decrby = λ db now k n. some (put db k (minus (at db now k) n));
  incrby = λ db now k n. some (put db k (plus (at db now k) n));
  is_over-before = over-before;
  is_over-after = over-after;
  number_exact = λ z h. refl;
  get_lem = λ db now k. refl;
  pttl_lem = λ db now k. refl;
  pexpiretime_lem = λ db now k. refl;
  find_later = find_later;
  setex-zero = λ db now k v. refl;
  setex-some = λ db now k secs v h _ _. put_for-some db now k secs v h;
  find-setex = λ db now k secs v later j h le. find-put_for db now k secs v later j h;
  decrby-some = λ db now k n e f x y. some-ne-none _;
  find-decrby = λ db now k n e later j {db'} f h le.
      find-put db k (minus (some e) (pos n)) later j
        (subst (λ o. some (put db k (minus o (pos n))) ≡ some db') f h);
  incrby-some = λ db now k n e f x y. some-ne-none _;
  find-incrby = λ db now k n e later j {db'} f h le.
      find-put db k (plus (some e) (pos n)) later j
        (subst (λ o. some (put db k (plus o (pos n))) ≡ some db') f h);
}
