-- ===== src/Screens/Access/Grouping.antt =====
-- The groups of the access screen against the list that they are made of.
use warder.Base.{
  ◌≡◌, inl, inr, refl, sym, ◌∙◌, ap, Bool, true, false, not, ◌&&◌, Bool-cases, Option, none, some,
  List, [], ◌∷◌, ◌++◌, append-nil, append_assoc, Text, text_eq, text_eq_iff, text_eq_refl, is_empty,
  filter, if◌then◌else◌,
}
use warder.Screens.Access.{
  Grant, ByEnvironment, group_of, push_grant, Groups, place_grant, place_grants, grouped,
}

-- Whether the grant is for one environment, and this is it.
abbrev pub is_for : Text → Option Text → Bool
is_for id none = false
is_for id (some e) = not (is_empty e) && text_eq e id

abbrev pub in_environment : Text → Grant → Bool
in_environment id g = is_for id g.environment_id

push-same :
    (id : Text) (g : Grant) (groups : ByEnvironment)
    → group_of id (push_grant id g groups) ≡ group_of id groups ++ g ∷ []
unfolding group_of push_grant
push-same id g [] = rw (text_eq_refl id) refl
push-same id g ((e, grants) ∷ groups) = elim (Bool-cases (text_eq e id)) [
  | inl k ↦ rw (k, group_of, k) refl
  | inr k ↦ rw (k, group_of, k) (push-same id g groups)
]

text_eq_trans : (s t u : Text) → text_eq s t ≡ true → text_eq s u ≡ text_eq t u
text_eq_trans s t u h = ap (λ x. text_eq x u) ((text_eq_iff s t).0 h)

push-other :
    (id e : Text) (g : Grant) (groups : ByEnvironment)
    → text_eq e id ≡ false
    → group_of id (push_grant e g groups) ≡ group_of id groups
unfolding group_of push_grant
push-other id e g [] other = rw other refl
push-other id e g ((x, grants) ∷ groups) other = elim (Bool-cases (text_eq x e)) [
  | inl k ↦
      let apart : text_eq x id ≡ false = text_eq_trans x e id k ∙ other in
      rw (k, group_of, apart) refl
  | inr k ↦ elim (Bool-cases (text_eq x id)) [
    | inl l ↦ rw (k, group_of, l) refl
    | inr l ↦ rw (k, group_of, l) (push-other id e g groups other)
  ]
]

module _ (id : Text) (named : is_empty id ≡ false) where
  -- What one grant adds to the group of the environment.
  added_to : Option Text → Grant → List Grant
  added_to o g = if is_for id o then g ∷ [] else []

  placed :
      (o : Option Text) (g : Grant) (s : Groups)
      → group_of id (place_grant o g s).by_environment
        ≡ group_of id s.by_environment ++ added_to o g
  unfolding place_grant added_to
  placed none g s = sym (append-nil _)
  placed (some e) g s = elim (Bool-cases (is_empty e)) [
    | inl k ↦ rw k (sym (append-nil _))
    | inr k ↦ elim (Bool-cases (text_eq e id)) [
      | inl l ↦
          let same = (text_eq_iff e id).0 l in rw (k, l) (rw same (push-same id g s.by_environment))
      | inr l ↦ rw (k, l) (push-other id e g s.by_environment l ∙ sym (append-nil _))
    ]
  ]

  filter-step :
      (g : Grant) (grants : List Grant)
      → added_to g.environment_id g ++ filter (in_environment id) grants
        ≡ filter (in_environment id) (g ∷ grants)
  unfolding added_to
  filter-step g grants = elim (Bool-cases (is_for id g.environment_id)) [
    | inl e ↦ rw e refl
    | inr e ↦ rw e refl
  ]

  all_placed :
      (grants : List Grant) (s : Groups)
      → group_of id (place_grants grants s).by_environment
        ≡ group_of id s.by_environment ++ filter (in_environment id) grants
  unfolding place_grants
  all_placed [] s = sym (append-nil _)
  all_placed (g ∷ grants) s =
      all_placed grants (place_grant g.environment_id g s)
      ∙ (ap (λ l. l ++ filter (in_environment id) grants) (placed g.environment_id g s)
          ∙ (append_assoc (group_of id s.by_environment) (added_to g.environment_id g) _
              ∙ ap (λ l. group_of id s.by_environment ++ l) (filter-step g grants)))

-- What one grant adds to the grants for the project.
wide_of : Option Text → Grant → List Grant
wide_of none g = g ∷ []
wide_of (some id) g = if is_empty id then g ∷ [] else []

wide_placed :
    (o : Option Text) (g : Grant) (s : Groups)
    → (place_grant o g s).project_wide ≡ s.project_wide ++ wide_of o g
unfolding place_grant wide_of
wide_placed none g s = refl
wide_placed (some id) g s = elim (Bool-cases (is_empty id)) [
  | inl k ↦ rw k refl
  | inr k ↦ rw k (sym (append-nil _))
]

abbrev has_no_environment : Option Text → Bool
has_no_environment none = true
has_no_environment (some id) = is_empty id

wide-step :
    (o : Option Text) (g : Grant) (rest : List Grant)
    → wide_of o g ++ rest ≡ (if has_no_environment o then g ∷ rest else rest)
unfolding wide_of
wide-step none g rest = refl
wide-step (some id) g rest = elim (Bool-cases (is_empty id)) [
  | inl k ↦ rw k refl
  | inr k ↦ rw k refl
]

abbrev pub for_project : Grant → Bool
for_project g = has_no_environment g.environment_id

all_wide :
    (grants : List Grant) (s : Groups)
    → (place_grants grants s).project_wide ≡ s.project_wide ++ filter for_project grants
unfolding place_grants
all_wide [] s = sym (append-nil _)
all_wide (g ∷ grants) s =
    all_wide grants (place_grant g.environment_id g s)
    ∙ (ap (λ l. l ++ filter for_project grants) (wide_placed g.environment_id g s)
        ∙ (append_assoc s.project_wide (wide_of g.environment_id g) _
            ∙ ap (λ l. s.project_wide ++ l)
                (wide-step g.environment_id g (filter for_project grants))))

-- The loop with its map does what two filters would do: the group of an environment, whose id is not
-- empty, is the list of its grants in their order, none lost and none twice, and the grants for the whole project are those with
-- no environment or an empty one.
pub grouped-filters :
    (id : Text) (grants : List Grant)
    → is_empty id ≡ false
    → (group_of id (grouped grants).by_environment ≡ filter (in_environment id) grants)
      × ((grouped grants).project_wide ≡ filter for_project grants)
unfolding grouped group_of
grouped-filters id grants named = (
  all_placed id named grants (record { project_wide = []; by_environment = [] }),
  all_wide grants (record { project_wide = []; by_environment = [] }),
)
