-- ===== src/Server/Chunks.antt =====
-- The chunks of the background task come to their end.
use that_limit.Prelude.{
  length, ℕ, suc, ◌+◌, ◌≡◌, refl, ◌⊎◌, inl, inr, none, some, List, [], ◌∷◌, true, arith,
}
use that_limit.Store.Background.Worker.{next_of, all_done}

module _ {ℓ} {A : Type ℓ} where
  abbrev pub total : List (List A) → ℕ
  total [] = 0
  total (c ∷ cs) = length c + total cs

  -- Some chunk has an item left, and is one shorter after it.
  abbrev pub Goes : List (List A) → Type ℓ
  Goes cs =
      (c : ℕ) × (x : A) × (cs' : List (List A)) × (next_of c cs ≡ some (x, cs'))
      × (total cs ≡ suc (total cs'))

  -- No chunk has.
  abbrev pub Ends : List (List A) → Type ℓ
  Ends cs = (next_of 0 cs ≡ none) × (all_done cs ≡ true)

  pub progress : (cs : List (List A)) → Goes cs ⊎ Ends cs
  unfolding next_of all_done
  progress [] = inr (refl, refl)
  progress ((x ∷ xs) ∷ cs) = inl (0, x, xs ∷ cs, refl, omega arith)
  progress ([] ∷ cs) = elim (progress cs) [
    | inl (c, x, cs', e, t) ↦ inl (suc c, x, [] ∷ cs', rw e refl, omega (arith, t))
    | inr (e, d) ↦ inr (refl, d)
  ]
