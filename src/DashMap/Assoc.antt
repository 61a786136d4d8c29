-- ===== src/DashMap/Assoc.antt =====
-- An association list that has the laws of `DashMap`: they can be met, and the tests run on it.
use that_limit.Prelude.{
  ◌≡◌, refl, true, false, Option, none, some, List, [], ◌∷◌, if◌then◌else◌, arith,
}
use that_limit.Bucket.{BucketId}
use that_limit.Bucket.Ids.{id_eq, id_eq_iff, id_eq_refl}
use that_limit.DashMap.{DashMap, Agrees, map_some, has_key, Distinct}

module _ {V : Type 0} where
  abbrev pub get : List (BucketId × V) → BucketId → Option V
  get [] k = none
  get ((j, v) ∷ m) k = if id_eq j k then some v else get m k

  abbrev pub remove : List (BucketId × V) → BucketId → List (BucketId × V)
  remove [] k = []
  remove ((j, v) ∷ m) k = if id_eq j k then remove m k else (j, v) ∷ remove m k

  abbrev pub insert : List (BucketId × V) → BucketId → V → List (BucketId × V)
  insert m k v = (k, v) ∷ remove m k

  abbrev pub alter : List (BucketId × V) → BucketId → (V → V) → List (BucketId × V)
  alter [] k f = []
  alter ((j, v) ∷ m) k f = (j, if id_eq j k then f v else v) ∷ alter m k f

  -- Of the entries with one key the first counts.
  abbrev pub entries : List (BucketId × V) → List (BucketId × V)
  entries [] = []
  entries ((j, v) ∷ m) = (j, v) ∷ remove (entries m) j

  pub get-remove :
      (m : List (BucketId × V)) (k j : BucketId)
      → get (remove m k) j ≡ (if id_eq k j then none else get m j)
  get-remove [] k j = ground arith
  get-remove ((i, v) ∷ m) k j =
      ground (arith, id_eq_iff k j, id_eq_iff i k, id_eq_iff i j, get-remove m k j)

  pub get-insert :
      (m : List (BucketId × V)) (k j : BucketId) (v : V)
      → get (insert m k v) j ≡ (if id_eq k j then some v else get m j)
  get-insert m k j v = ground (arith, get-remove m k j)

  pub get-alter :
      (m : List (BucketId × V)) (k j : BucketId) (f : V → V)
      → get (alter m k f) j ≡ (if id_eq k j then map_some f (get m j) else get m j)
  get-alter [] k j f = ground arith
  get-alter ((i, v) ∷ m) k j f =
      ground (arith, id_eq_iff k j, id_eq_iff i k, id_eq_iff i j, get-alter m k j f)

  has_key-remove :
      (m : List (BucketId × V)) (k j : BucketId)
      → has_key j (remove m k) ≡ (if id_eq k j then false else has_key j m)
  unfolding has_key
  has_key-remove [] k j = ground arith
  has_key-remove ((i, v) ∷ m) k j =
      ground (arith, id_eq_iff k j, id_eq_iff i k, id_eq_iff i j, has_key-remove m k j)

  Distinct-remove : (m : List (BucketId × V)) (k : BucketId) → Distinct m → Distinct (remove m k)
  Distinct-remove [] k d = tt
  Distinct-remove ((i, v) ∷ m) k (a, d) =
      ground (arith, has_key-remove m k i, Distinct-remove m k d)

  pub entries-Distinct : (m : List (BucketId × V)) → Distinct (entries m)
  entries-Distinct [] = tt
  entries-Distinct ((i, v) ∷ m) = (
    ground (arith, has_key-remove (entries m) i i, id_eq_refl i),
    Distinct-remove (entries m) i (entries-Distinct m),
  )

  pub entries_complete :
      (m : List (BucketId × V)) (k : BucketId) (v : V)
      → get m k ≡ some v
      → has_key k (entries m) ≡ true
  unfolding has_key
  entries_complete [] k v h = cc
  entries_complete ((i, w) ∷ m) k v h =
      ground (arith, has_key-remove (entries m) i k, entries_complete m k v)

  -- Entries with other keys are found behind a new first entry too.
  Agrees-behind :
      (m es : List (BucketId × V)) (k : BucketId) (v : V)
      → Agrees (get m) es
      → Agrees (get ((k, v) ∷ m)) (remove es k)
  Agrees-behind m [] k v h = tt
  Agrees-behind m ((i, w) ∷ es) k v (a, h) =
      ground (arith, id_eq_iff k i, id_eq_iff i k, Agrees-behind m es k v h)

  pub entries_sound : (m : List (BucketId × V)) → Agrees (get m) (entries m)
  entries_sound [] = tt
  entries_sound ((i, v) ∷ m) =
      (rw (id_eq_refl i), Agrees-behind m (entries m) i v (entries_sound m))

abbrev pub assoc : (V : Type 0) → DashMap V
assoc V = record {
  Map = List (BucketId × V);
  empty = [];
  get = get;
  insert = insert;
  remove = remove;
  alter = alter;
  entries = entries;
  get-empty = λ k. refl;
  get-insert = get-insert;
  get-remove = get-remove;
  get-alter = get-alter;
  entries_sound = entries_sound;
  entries_complete = entries_complete;
  entries-Distinct = entries-Distinct;
}
