-- ===== src/Screens/Access/Grid.antt =====
-- A cell of the grid against what a grant means.
use warder.Base.{
  ◌≡◌, ◌↔◌, ◌⊎◌, inl, inr, refl, ap, Bool, true, ◌&&◌, and_parts, Option, none, some, List, Text,
  text_eq, text_eq_iff, text_eq_refl, any, any_sound, any_complete, Holds, Holds-filter,
  Holds-filtered,
}
use warder.Screens.Access.{Grant, null_or, applicable, matching, reaches}

-- A scope that is not narrowed, or is narrowed to `id`.
abbrev pub Includes : Option Text → Text → Type 0
Includes scope id = (scope ≡ none) ⊎ (scope ≡ some id)

null_or_iff : (o : Option Text) (id : Text) → (null_or o id ≡ true) ↔ Includes o id
unfolding null_or
null_or_iff none id = (λ _. inl refl, λ _. refl)
null_or_iff (some v) id = (
  λ h. inr (ap some ((text_eq_iff v id).0 h)),
  λ h. elim h [ inl e ↦ cc | inr e ↦ let same : v ≡ id = cc in rw same (text_eq_refl id) ],
)

-- The grant gives its subject something on the secret, in the environment.
pub record Covers (environment_id subject_id secret_id : Text) (g : Grant) : Type 0 where
  pub environment : Includes g.environment_id environment_id
  pub subject : g.subject_id ≡ subject_id
  pub secret : Includes g.secret_id secret_id

module _ (environment_id : Text) (grants : List Grant) (subject_id secret_id : Text) where
  covering : (g : Grant) → Bool
  covering g = text_eq g.subject_id subject_id && null_or g.secret_id secret_id

  found_sound :
      (g : Grant)
      → Holds (matching subject_id secret_id (applicable environment_id grants)) g
      → Holds grants g × Covers environment_id subject_id secret_id g
  unfolding matching applicable
  found_sound g h =
      let (held, e) = Holds-filtered _ (applicable environment_id grants) g h in
      let (here, scope) = Holds-filtered _ grants g held in
      let (same, secret) = and_parts _ _ e in
      (
        here,
        record {
          environment = (null_or_iff g.environment_id environment_id).0 scope;
          subject = (text_eq_iff g.subject_id subject_id).0 same;
          secret = (null_or_iff g.secret_id secret_id).0 secret;
        },
      )

  found_complete :
      (g : Grant)
      → Holds grants g
      → Covers environment_id subject_id secret_id g
      → Holds (matching subject_id secret_id (applicable environment_id grants)) g
  unfolding matching applicable
  found_complete g held c =
      let same = (text_eq_iff g.subject_id subject_id).1 c.subject in
      let secret = (null_or_iff g.secret_id secret_id).1 c.secret in
      let scope = (null_or_iff g.environment_id environment_id).1 c.environment in
      Holds-filter _ (applicable environment_id grants) g (rw (same, secret) refl)
        (Holds-filter _ grants g scope held)

  -- There is a grant for it.
  abbrev pub IsGranted : (Grant → Bool) → Type 0
  IsGranted capability =
      (g : Grant) × Holds grants g
      × Covers environment_id subject_id secret_id g
      × (capability g ≡ true)

  capability_iff :
      (capability : Grant → Bool)
      → (any capability (matching subject_id secret_id (applicable environment_id grants)) ≡ true)
        ↔ IsGranted capability
  capability_iff capability = (
    λ h.
        let (g, held, can) =
          any_sound capability (matching subject_id secret_id (applicable environment_id grants))
            h in
        let (here, c) = found_sound g held in (g, here, c, can),
    λ (g, here, c, can).
        any_complete capability (matching subject_id secret_id (applicable environment_id grants)) g
          (found_complete g here c) can,
  )

  -- A cell of the grid shows use, or reading, exactly when some grant of the project gives the subject
  -- that capability on the secret: one that names the secret or every secret, in this environment or
  -- in every environment.
  pub reaches_iff :
      (((reaches environment_id grants subject_id secret_id).use_it ≡ true)
        ↔ IsGranted (λ g. g.can_use))
      × (((reaches environment_id grants subject_id secret_id).read_it ≡ true)
          ↔ IsGranted (λ g. g.can_reveal))
  unfolding reaches
  reaches_iff = (capability_iff (λ g. g.can_use), capability_iff (λ g. g.can_reveal))
