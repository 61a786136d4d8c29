-- ===== src/Http/Host.antt =====
-- crates/http-adapter/src/extractor.rs, `Host`: the domain of a request is the first label of its
-- host name.
use Prim.Native.Char.{code}
use Prim.Native.String.{String, [], ◌∷◌, ◌++◌}
use text.Mathlib.TextLemmas.{nil-append, cons-append, append-nil}
use that_limit.Prelude.{
  ℕ, ◌≡◌, ◌≢◌, refl, ap, sym, ◌∙◌, Bool, true, false, Option, some, if◌then◌else◌, ite, if_neg,
  ℕ_discrete,
}

-- `split(d).next()`: all before the first `d`.
unfoldable pub before : ℕ → String → String
before d [] = []
before d (c ∷ s) = ite (ℕ_discrete (code c) d) [] (c ∷ before d s)

-- `&s[1..]`
abbrev pub rest : String → String
rest [] = []
rest (c ∷ s) = s

abbrev pub first_is : ℕ → String → Bool
first_is d [] = false
first_is d (c ∷ s) = ite (ℕ_discrete (code c) d) true false

-- `Host::hostname`: an address in brackets without them, or a name without its port.
unfoldable pub hostname : String → String
unfolding before
hostname h = if first_is b'[' h then rest (before b']' h) else before b':' h

-- `Host::domain`
unfoldable pub domain : String → Option String
unfolding hostname
domain h = some (before b'.' (hostname h))

abbrev pub Without : ℕ → String → Type 0
Without d [] = Unit
Without d (c ∷ s) = (code c ≢ d) × Without d s

before-append : (d : ℕ) (s t : String) → Without d s → before d (s ++ t) ≡ s ++ before d t
unfolding before
before-append d [] t h = rw (nil-append t, nil-append)
before-append d (c ∷ s) t h = rw (cons-append c s t) (
    if_neg (ℕ_discrete (code c) d) h.0 _ _
    ∙ ap (◌∷◌ c) (before-append d s t h.1)
    ∙ sym (cons-append c s (before d t)))

first_is-append :
    (d : ℕ) (s t : String) → Without d s → first_is d t ≡ false → first_is d (s ++ t) ≡ false
first_is-append d [] t h e = rw (nil-append t) e
first_is-append d (c ∷ s) t h e = rw (cons-append c s t) (if_neg (ℕ_discrete (code c) d) h.0 _ _)

-- A label: no dot, no colon, no bracket.
pub record IsLabel (s : String) : Type 0 where
  pub dotless : Without b'.' s
  pub colonless : Without b':' s
  pub bracketless : Without b'[' s

-- What may follow the first label of a host name: nothing, more labels, or a port.
pub data Follows : String → Type 0 where
  nothing : Follows []
  labels : (s : String) → Follows ("." ++ s)
  port : (s : String) → Follows (":" ++ s)

domain-append :
    (s t : String)
    → IsLabel s
    → first_is b'[' t ≡ false
    → before b'.' (before b':' t) ≡ []
    → domain (s ++ t) ≡ some s
unfolding domain
domain-append s t l no_bracket ends =
    rw (first_is-append b'[' s t l.bracketless no_bracket, before-append b':' s t l.colonless)
      (ap some (before-append b'.' s (before b':' t) l.dotless ∙ ap (◌++◌ s) ends ∙ append-nil s))

-- If a host name begins with a label without dots, colons and opening brackets, and then ends or
-- goes on with a dot or a colon, its domain is that label.
pub domain_lem : (s t : String) → IsLabel s → Follows t → domain (s ++ t) ≡ some s
unfolding before ℕ_discrete
domain_lem s t l nothing = domain-append s [] l refl refl
domain_lem s t l (labels r) = domain-append s _ l (rw cons-append refl) (rw cons-append refl)
domain_lem s t l (port r) = domain-append s _ l (rw cons-append refl) (rw cons-append refl)
