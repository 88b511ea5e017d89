-- ===== src/Connection/Secrecy.antt =====
-- Where the service credential goes: into `serviceToken`, and nowhere else.
use warder.Base.{◌≡◌, refl, sym, ◌∙◌, Option, Text, [], not, is_empty, ◌&&◌}
use warder.Connection.{
  Url, Posture, Connection, Parsed, parsed, refused, ◌>>=◌, service_token_of, connection_of,
  transport_of, posture_of, refuse_if, is_production, is_http, resolve_app_origin,
}

-- A result with the credential blanked out.
abbrev pub without_token : Parsed Connection → Parsed Connection
without_token (parsed c) = parsed (record c { service_token = [] })
without_token (refused r) = refused r

abbrev pub with_username : Url → Text → Url
with_username url name = record url { username = name }

-- The two results agree in all but the credential.
pub record IsSameButToken (p q : Parsed Connection) : Type 0 where
  pub agree : without_token p ≡ without_token q

same_bind :
    {A : Type 0} (m : Parsed A) (f g : A → Parsed Connection)
    → ((a : A) → IsSameButToken (f a) (g a))
    → IsSameButToken (m >>= f) (m >>= g)
same_bind (parsed a) f g h = h a
same_bind (refused r) f g h = record { agree = refl }

token_bind :
    {A : Type 0} (m n : Parsed A) {s t : A} (f g : A → Parsed Connection)
    → m ≡ parsed s
    → n ≡ parsed t
    → IsSameButToken (f s) (g t)
    → IsSameButToken (m >>= f) (n >>= g)
token_bind m n f g p q h = rw (p, q) h

origin_bind :
    {A : Type 0} (m n : Parsed A) (f g : A → Parsed Connection)
    → m ≡ n
    → ((a : A) → IsSameButToken (f a) (g a))
    → IsSameButToken (m >>= f) (n >>= g)
origin_bind m n f g e h = rw e (same_bind n f g h)

module _ (new_url : Text → Option Url) (url : Url) where
  origin_fixed :
      (a : Text) (p : Posture)
      → resolve_app_origin new_url (with_username url a) p ≡ resolve_app_origin new_url url p
  unfolding resolve_app_origin
  origin_fixed a p = refl

  -- Two URIs that differ in their user name alone, and hold acceptable credentials, lead to the same
  -- refusal, or to connections that differ in `serviceToken` alone. So no address, description, or
  -- error message depends on the credential.
  pub connection_of-IsSameButToken :
      (a b s t : Text)
      → service_token_of (with_username url a) ≡ parsed s
      → service_token_of (with_username url b) ≡ parsed t
      → IsSameButToken
          (connection_of new_url (with_username url a))
          (connection_of new_url (with_username url b))
  unfolding connection_of
  connection_of-IsSameButToken a b s t ha hb =
      same_bind (transport_of url.protocol) _ _ λ transport.
        same_bind (refuse_if (not (is_empty url.password)) _) _ _ λ _.
          token_bind (service_token_of (with_username url a))
            (service_token_of (with_username url b)) _ _ ha hb
            (same_bind (refuse_if (is_empty url.hostname) _) _ _ λ _.
              same_bind (posture_of url.pathname) _ _ λ posture.
                same_bind (refuse_if (is_production posture && is_http transport) _) _ _ λ _.
                  origin_bind (resolve_app_origin new_url (with_username url a) posture)
                    (resolve_app_origin new_url (with_username url b) posture) _ _
                    (origin_fixed a posture ∙ sym (origin_fixed b posture))
                    λ origin. record { agree = refl })
