-- ===== src/Config/Laws.antt =====
-- What a configuration that was loaded satisfies.
use that_limit.Prelude.{
  ℕ, ◌≤◌, ◌≡◌, ◌↔◌, Bool-cases, inl, inr, ◌⊎◌, Bool, true, false, not, Option, some, String, List,
  ◌==◌, ltb, ◌||◌, Result, ok, err, ok_or, map_err, >>=-eq-ok, ok_or-eq-ok, map_err-eq-ok, arith,
}
use that_limit.Config.{
  Policy, UncheckedPolicy, Config, RawConfig, io, json, try_from, try_into, get,
}

-- `1 <= lease_size <= quota`
pub record IsValid (p : Policy) : Type 0 where
  pub at_least_one : 1 ≤ p.lease_size
  pub within_quota : p.lease_size ≤ p.quota

abbrev pub InRange : UncheckedPolicy → Type 0
InRange p = (1 ≤ p.lease_size) × (p.lease_size ≤ p.quota)

abbrev pub as_policy : UncheckedPolicy → Policy
as_policy p = record {
  criteria = p.criteria;
  quota = p.quota;
  lease_size = p.lease_size;
  reset_in = p.reset_in;
}

abbrev pub as_config : RawConfig → Config
as_config raw = record {
  domains = raw.domains;
  cleanup = raw.cleanup;
  protected = as_policy raw.protected;
  public = as_policy raw.public;
}

-- A policy is accepted, unchanged, exactly when its lease size lies in 1..=quota.
pub try_from_iff :
    (p : UncheckedPolicy) (q : Policy) → (try_from p ≡ ok q) ↔ (InRange p × (q ≡ as_policy p))
unfolding try_from
try_from_iff p q = (λ h. ground arith, λ h. ground arith)

abbrev accepts : UncheckedPolicy → Bool
accepts p = not (p.lease_size == 0 || ltb p.quota p.lease_size)

try_from-accepts : (p : UncheckedPolicy) → accepts p ≡ true → try_from p ≡ ok (as_policy p)
unfolding try_from
try_from-accepts p h = ground arith

try_from-refuses :
    (p : UncheckedPolicy) → accepts p ≡ false → try_from p ≡ err "lease_size must be in 1..=quota"
unfolding try_from
try_from-refuses p h = ground arith

try_from-err :
    (p : UncheckedPolicy) → ¬ InRange p → try_from p ≡ err "lease_size must be in 1..=quota"
try_from-err p h = elim (Bool-cases (accepts p)) [
  | inl e ↦ absurd (h (ground arith))
  | inr e ↦ try_from-refuses p e
]

try_into-ok :
    (raw : RawConfig)
    → InRange raw.protected
    → InRange raw.public
    → try_into raw ≡ ok (as_config raw)
unfolding try_into try_from
try_into-ok raw h k = ground arith

try_into_sound :
    (raw : RawConfig) (c : Config)
    → try_into raw ≡ ok c
    → InRange raw.protected × InRange raw.public × (c ≡ as_config raw)
unfolding try_into try_from
try_into_sound raw c h = (ground arith, ground arith, ground arith)

-- Loading succeeds exactly when the file can be read, is a configuration, and both policies have
-- a lease size in 1..=quota; the result is then what the file says.
pub get_iff :
    (read : String → Option (List ℕ)) (from_slice : List ℕ → Result String RawConfig)
    (path : String) (c : Config)
    → (get read from_slice path ≡ ok c) ↔ (
        (content : List ℕ) × (raw : RawConfig) × (read path ≡ some content)
        × (from_slice content ≡ ok raw)
        × InRange raw.protected
        × InRange raw.public
        × (c ≡ as_config raw))
unfolding get
get_iff read from_slice path c = (
  λ h.
      let (content, h', e) = >>=-eq-ok _ (ok_or (read path) io) h in
      let (raw, h'', e') = >>=-eq-ok _ (map_err json (from_slice content)) h' in
      let (prot, publ, same) = try_into_sound raw c h'' in
      (content, raw, ok_or-eq-ok _ _ e, map_err-eq-ok _ _ e', prot, publ, same),
  λ (content, raw, e, e', prot, publ, same). rw (e, e', same) (try_into-ok raw prot publ),
)

-- If the file is read and parsed but one of its policies, or both, has a lease size outside
-- 1..=quota, loading fails with the message of the validation.
pub get-err :
    (read : String → Option (List ℕ)) (from_slice : List ℕ → Result String RawConfig)
    (path : String) (content : List ℕ) (raw : RawConfig)
    → read path ≡ some content
    → from_slice content ≡ ok raw
    → (¬ InRange raw.protected) ⊎ (¬ InRange raw.public)
    → get read from_slice path ≡ err (json "lease_size must be in 1..=quota")
unfolding get try_into
get-err read from_slice path content raw e e' (inl h) = rw (e, e', try_from-err raw.protected h)
get-err read from_slice path content raw e e' (inr h) = elim (Bool-cases (accepts raw.protected)) [
  | inl a ↦ rw (e, e', try_from-accepts raw.protected a, try_from-err raw.public h)
  | inr r ↦ rw (e, e', try_from-refuses raw.protected r)
]
