-- ===== src/Lease/Keys.antt =====
-- Different identities count under different keys.
use text.Mathlib.TextLemmas.{cons-append, append_cancel_left, head-eq_of_cons-eq}
use Prim.Native.Char.{code}
use native.Mathlib.Omega.{arith}
use that_limit.Prelude.{◌≡◌, ap, sym, ◌∙◌, String}
use that_limit.Bucket.{BucketId, IpAddr, public, protected}
use that_limit.Lease.{to_key}

-- If different addresses have different texts, two bucket ids with one key are the same id.
pub to_key-injective :
    (show_ip : IpAddr → String)
    → ((a b : IpAddr) → show_ip a ≡ show_ip b → a ≡ b)
    → (i j : BucketId) → to_key show_ip i ≡ to_key show_ip j
    → i ≡ j
unfolding to_key
to_key-injective show_ip inj (public a) (public b) h =
    ap public (inj a b (append_cancel_left "ip:" _ _ h))
to_key-injective show_ip inj (protected s) (protected t) h =
    ap protected (append_cancel_left "sub:" s t h)
to_key-injective show_ip inj (public a) (protected t) h =
    absurd (
      omega (arith, ap code (head-eq_of_cons-eq (sym (cons-append _ _ _) ∙ h ∙ cons-append _ _ _))))
to_key-injective show_ip inj (protected s) (public b) h =
    absurd (
      omega (arith, ap code (head-eq_of_cons-eq (sym (cons-append _ _ _) ∙ h ∙ cons-append _ _ _))))
