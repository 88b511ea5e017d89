-- ===== src/Middleware/Policy.antt =====
-- The policy of a page and its nonce.
use warder.Base.{
  ℕ, ◌≡◌, refl, sym, ◌∙◌, ap, arith, Bool, false, some, List, [], ◌∷◌, ◌++◌, Text, lit, text_eq,
  Bool-cases, inl, inr, length, length-append,
}
use warder.Middleware.{
  Headers, set, PageRequest, Page, generate_nonce, before_nonce, after_nonce, policy, middleware,
  set_security, set_transport_security, cache_control,
}
use warder.WebAuthn.{atob, btoa}
use warder.WebAuthn.RoundTrip.{IsBytes, atob-btoa}

drop_same : (s : Text) {t u : Text} → s ++ t ≡ s ++ u → t ≡ u
drop_same [] h = h
drop_same (c ∷ s) {t} {u} h = drop_same s (tail_of h)
  where
    tail_of : {a b : Text} → ◌≡◌ {A = Text} (c ∷ a) (c ∷ b) → a ≡ b
    tail_of e = cc

policy-injective : (d : Bool) (m n : Text) → policy d m ≡ policy d n → m ≡ n
unfolding policy
policy-injective d m n h = same_prefix m n (after_nonce d) (drop_same before_nonce h)
  where
    too_long : (x : ℕ) (s t : Text) → t ≡ (x ∷ s) ++ t → ⊥
    too_long x s t e = omega (arith, ap length e, length-append s t)

    same_prefix : (m n t : Text) → m ++ t ≡ n ++ t → m ≡ n
    same_prefix [] [] t e = refl
    same_prefix [] (y ∷ n) t e = absurd (too_long y n t e)
    same_prefix (x ∷ m) [] t e = absurd (too_long x m t (sym e))
    same_prefix (x ∷ m) (y ∷ n) t e =
        let (a, b) : (x ≡ y) × (m ++ t ≡ n ++ t) = (cc, cc) in let rest = same_prefix m n t b in cc

btoa-injective : (xs ys : List ℕ) → IsBytes xs → IsBytes ys → btoa xs ≡ btoa ys → xs ≡ ys
btoa-injective xs ys hx hy e =
    let read : some xs ≡ some ys = sym (atob-btoa xs hx) ∙ (ap atob e ∙ atob-btoa ys hy) in cc

-- What a page and its response agree on.
pub record IsGuarded (d : Bool) (bytes : List ℕ) (request : PageRequest) (p : Page) : Type 0 where
  pub sent : p.response (lit "content-security-policy") ≡ some (policy d (btoa bytes))
  pub seen :
      p.forwarded (lit "content-security-policy") ≡ p.response (lit "content-security-policy")
  pub nonce : p.forwarded (lit "x-nonce") ≡ some (btoa bytes)
  pub framed : p.response (lit "x-frame-options") ≡ some (lit "DENY")
  pub typed : p.response (lit "x-content-type-options") ≡ some (lit "nosniff")
  pub cached : p.response (lit "cache-control") ≡ some (cache_control request.pathname)

other_header :
    (protocol k : Text) (headers : Headers)
    → text_eq k (lit "strict-transport-security") ≡ false
    → set_transport_security protocol headers k ≡ headers k
unfolding set_transport_security set
other_header protocol k headers e = elim (Bool-cases (text_eq protocol (lit "https:"))) [
  | inl h ↦ rw (h, e) refl
  | inr h ↦ rw h refl
]

module _ (d : Bool) (next : Headers) (bytes : List ℕ) (request : PageRequest) where
  sent_policy :
      (middleware d next bytes request).response (lit "content-security-policy")
      ≡ some (policy d (btoa bytes))
  unfolding middleware set generate_nonce set_security lit text_eq
  sent_policy = other_header request.protocol (lit "content-security-policy") _ refl

  -- The page sees, in the headers of its request, the very policy that its response carries, and the
  -- nonce of that policy; no header set after the policy replaces it, and the frame, type and cache
  -- headers hold as well, whatever headers the response had before and whatever the scheme.
  pub middleware-IsGuarded : IsGuarded d bytes request (middleware d next bytes request)
  unfolding middleware set generate_nonce set_security lit text_eq
  middleware-IsGuarded = record {
    sent = sent_policy;
    seen = sym sent_policy;
    nonce = refl;
    framed = other_header request.protocol (lit "x-frame-options") _ refl;
    typed = other_header request.protocol (lit "x-content-type-options") _ refl;
    cached = refl;
  }

-- Two responses carry the same policy only if the same bytes were drawn for their nonces: nothing of
-- the 128 random bits is lost on the way into the header.
pub middleware-injective :
    (d : Bool) (next next' : Headers) (xs ys : List ℕ) (r r' : PageRequest)
    → IsBytes xs
    → IsBytes ys
    → (middleware d next xs r).response (lit "content-security-policy")
      ≡ (middleware d next' ys r').response (lit "content-security-policy")
    → xs ≡ ys
middleware-injective d next next' xs ys r r' hx hy e =
    let same : some (policy d (btoa xs)) ≡ some (policy d (btoa ys)) =
      sym (sent_policy d next xs r) ∙ (e ∙ sent_policy d next' ys r') in
    btoa-injective xs ys hx hy (policy-injective d (btoa xs) (btoa ys) cc)
