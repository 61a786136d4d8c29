-- ===== src/DashMap.antt =====
-- What the store relies on in `dashmap::DashMap` with `bucket::Id` keys. The crate is not part of
-- the repository, so a map is a parameter: its operations, and its documented behaviour as laws.
-- Each operation is one atomic access, as a guard on the key's shard makes it.
pub mod Assoc
use that_limit.Prelude.{◌≡◌, Bool, true, false, Option, none, some, List, [], ◌∷◌, if◌then◌else◌}
use that_limit.Bucket.{BucketId}
use that_limit.Bucket.Ids.{id_eq}

-- Every listed value is what a lookup of its key gives.
abbrev pub Agrees : {V : Type 0} → (BucketId → Option V) → List (BucketId × V) → Type 0
Agrees find [] = Unit
Agrees find ((k, v) ∷ es) = (find k ≡ some v) × Agrees find es

abbrev pub map_some {ℓ} : {A : Type ℓ} → (A → A) → Option A → Option A
map_some f none = none
map_some f (some a) = some (f a)

-- Whether a key stands in a list of entries.
unfoldable pub has_key {ℓ} : {V : Type ℓ} → BucketId → List (BucketId × V) → Bool
has_key k [] = false
has_key k ((j, v) ∷ es) = if id_eq j k then true else has_key k es

-- No key stands twice.
abbrev pub Distinct {ℓ} : {V : Type ℓ} → List (BucketId × V) → Type 0
Distinct [] = Unit
Distinct ((j, v) ∷ es) = (has_key j es ≡ false) × Distinct es

pub record DashMap (V : Type 0) : Type 1 where
  pub Map : Type 0
  pub empty : Map
  pub get : Map → BucketId → Option V
  pub insert : Map → BucketId → V → Map
  pub remove : Map → BucketId → Map
  -- a write through a guard of `get`, as the atomics of a bucket allow
  pub alter : Map → BucketId → (V → V) → Map
  -- what `iter` goes through
  pub entries : Map → List (BucketId × V)
  pub get-empty : (k : BucketId) → get empty k ≡ none
  pub get-insert :
      (m : Map) (k j : BucketId) (v : V)
      → get (insert m k v) j ≡ (if id_eq k j then some v else get m j)
  pub get-remove :
      (m : Map) (k j : BucketId) → get (remove m k) j ≡ (if id_eq k j then none else get m j)
  pub get-alter :
      (m : Map) (k j : BucketId) (f : V → V)
      → get (alter m k f) j ≡ (if id_eq k j then map_some f (get m j) else get m j)
  pub entries_sound : (m : Map) → Agrees (get m) (entries m)
  pub entries_complete :
      (m : Map) (k : BucketId) (v : V) → get m k ≡ some v → has_key k (entries m) ≡ true
  pub entries-Distinct : (m : Map) → Distinct (entries m)
