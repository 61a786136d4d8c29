-- ===== src/Serving/Requests.antt =====
-- Requests with the moments of their calls.
use that_limit.Prelude.{suc, ◌≡◌, refl, ap, List, [], ◌∷◌, length}
use that_limit.Bucket.{BucketId}
use that_limit.Platform.{Platform}
use that_limit.Store.{Moment}
use that_limit.Session.{Visit}

module _ (p : Platform) (id : BucketId) where
  abbrev pub moments : Visit p id → List (Moment p)
  moments v = v.m₁ ∷ v.m₂ ∷ v.m₃ ∷ v.m₄ ∷ v.m₅ ∷ v.m₆ ∷ v.m₇ ∷ []

  module _ {R : Type 0} where
    abbrev pub visits : List (Visit p id × R) → List (Visit p id)
    visits [] = []
    visits ((v, _) ∷ rs) = v ∷ visits rs

    pub length-visits : (rs : List (Visit p id × R)) → length (visits rs) ≡ length rs
    length-visits [] = refl
    length-visits (r ∷ rs) = ap suc (length-visits rs)
