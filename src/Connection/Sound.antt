-- ===== src/Connection/Sound.antt =====
-- What a connection URI that is accepted guarantees.
use warder.Base.{
  ◌≤◌, ◌≡◌, ◌≢◌, ◌⊎◌, inl, inr, refl, arith, Bool, true, false, ◌&&◌, not, Option, some, [], ◌∷◌,
  Text, lit, text_eq, text_eq_iff, is_empty, length, Bool-cases, Option-cases, decode_uri_component,
}
use warder.Connection.{
  Url, Transport, https, http, Posture, development, production, Parsed, parsed, refused, Refusal,
  ◌>>=◌, refuse_if, is_production, transport_of, posture_of, service_token_of, declared_origin,
  default_origin, resolve_app_origin, posture_name, drop_trailing_slashes, drop_leading_slashes,
}

pub >>=-eq-parsed {ℓ κ} :
    {A : Type ℓ} {B : Type κ} (m : Parsed A) (f : A → Parsed B) {b : B}
    → (m >>= f) ≡ parsed b
    → (a : A) × (m ≡ parsed a) × (f a ≡ parsed b)
>>=-eq-parsed (parsed a) f h = (a, refl, h)
>>=-eq-parsed (refused r) f h = cc

pub refuse_if-eq-parsed :
    (b : Bool) (r : Refusal) (x : Unit {0}) → refuse_if b r ≡ parsed x → b ≡ false
refuse_if-eq-parsed true r x h = cc
refuse_if-eq-parsed false r x h = refl

pub not_empty : (s : Text) → is_empty s ≡ false → s ≢ []
unfolding is_empty
not_empty [] h e = cc
not_empty (c ∷ s) h e = cc

pub empty : (s : Text) → not (is_empty s) ≡ false → s ≡ []
unfolding is_empty
empty [] h = refl
empty (c ∷ s) h = cc

-- The scheme states the transport.
abbrev pub States : Text → Transport → Type 0
States protocol https = protocol ≡ lit "warder:"
States protocol http = protocol ≡ lit "warder+insecure:"

pub transport_of_sound : (s : Text) (t : Transport) → transport_of s ≡ parsed t → States s t
unfolding transport_of
transport_of_sound s https h = ground (arith, text_eq_iff s (lit "warder:"))
transport_of_sound s http h =
    ground (arith, text_eq_iff s (lit "warder:"), text_eq_iff s (lit "warder+insecure:"))

pub service_token_sound :
    (url : Url) (t : Text)
    → service_token_of url ≡ parsed t
    → (decode_uri_component url.username ≡ some t) × (32 ≤ length t)
unfolding service_token_of
service_token_sound url t h = ground arith

pub posture_of_sound :
    (s : Text) (p : Posture)
    → posture_of s ≡ parsed p
    → drop_trailing_slashes (drop_leading_slashes s) ≡ posture_name p
unfolding posture_of posture_name
posture_of_sound s development h =
    ground (arith, text_eq_iff (drop_trailing_slashes (drop_leading_slashes s)) (lit "development"))
posture_of_sound s production h =
    ground (arith, text_eq_iff (drop_trailing_slashes (drop_leading_slashes s)) (lit "production"))

-- The origin that the browser announces, with what production asks of it.
abbrev pub IsOrigin : (Text → Option Url) → Url → Posture → Text → Type 0
IsOrigin new_url url production origin =
    (declared : Text) × (site : Url) × (url.param (lit "origin") ≡ some declared)
    × (new_url declared ≡ some site)
    × (site.protocol ≡ lit "https:")
    × (origin ≡ site.origin)
IsOrigin new_url url development origin =
    (origin ≡ lit "http://localhost:3000")
    ⊎ ((declared : Text) × (site : Url) × (url.param (lit "origin") ≡ some declared)
        × (new_url declared ≡ some site)
        × (origin ≡ site.origin))

module _ (new_url : Text → Option Url) where
  declared_origin_sound :
      (declared : Text) (p : Posture) (origin : Text)
      → declared_origin new_url declared p ≡ parsed origin
      → (site : Url) × (new_url declared ≡ some site)
        × (origin ≡ site.origin)
        × (not (text_eq site.protocol (lit "https:")) && is_production p ≡ false)
  unfolding declared_origin
  declared_origin_sound declared p origin h = elim (Option-cases (new_url declared)) [
    | inl e ↦ absurd (ground arith)
    | inr (site, e) ↦ (site, e, ground arith, ground arith)
  ]

  declared-IsOrigin :
      (url : Url) (declared : Text) (p : Posture) (origin : Text)
      → url.param (lit "origin") ≡ some declared
      → declared_origin new_url declared p ≡ parsed origin
      → IsOrigin new_url url p origin
  declared-IsOrigin url declared development origin e h =
      let (site, found, same, checked) = declared_origin_sound declared development origin h in
      inr (declared, site, e, found, same)
  declared-IsOrigin url declared production origin e h =
      let (site, found, same, checked) = declared_origin_sound declared production origin h in
      (
        declared,
        site,
        e,
        found,
        unfold is_production in ground (arith, text_eq_iff site.protocol (lit "https:")),
        same,
      )

  default-IsOrigin :
      (url : Url) (p : Posture) (origin : Text)
      → default_origin new_url p ≡ parsed origin
      → IsOrigin new_url url p origin
  unfolding default_origin
  default-IsOrigin url development origin h = inl (ground arith)
  default-IsOrigin url production origin h = cc

  pub resolve_sound :
      (url : Url) (p : Posture) (origin : Text)
      → resolve_app_origin new_url url p ≡ parsed origin
      → IsOrigin new_url url p origin
  unfolding resolve_app_origin
  resolve_sound url p origin h = elim (Option-cases (url.param (lit "origin"))) [
    | inl e ↦ default-IsOrigin url p origin (ground arith)
    | inr (declared, e) ↦ elim (Bool-cases (is_empty declared)) [
      | inl none_given ↦ default-IsOrigin url p origin (ground arith)
      | inr given ↦ declared-IsOrigin url declared p origin e (ground arith)
    ]
  ]
