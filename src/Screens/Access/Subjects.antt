-- ===== src/Screens/Access/Subjects.antt =====
-- The rows of the grid.
use warder.Base.{
  ◌≢◌, inl, inr, sym, Bool, Bool-cases, List, [], ◌∷◌, Text, All, Holds, Holds-cons, Holds-self,
  Holds-cases, Holds-All,
}
use warder.Screens.Access.{Grant, Subject, insert_subject, sort_subjects, subjects_of, applicable}
use warder.Screens.Access.Adding.{
  IsOther, IsDistinct, IsListed, IsGrantee, add-IsDistinct, add-IsListed, add-AllGrantee,
}

module _ (before : Text → Text → Bool) where
  insert-IsOther :
      (id : Text) (s : Subject) (subjects : List Subject)
      → s.id ≢ id
      → All (IsOther id) subjects
      → All (IsOther id) (insert_subject before s subjects)
  unfolding insert_subject
  insert-IsOther id s [] other h = (other, tt)
  insert-IsOther id s (t ∷ subjects) other (p, h) = elim (Bool-cases (before s.name t.name)) [
    | inl e ↦ rw e (other, (p, h))
    | inr e ↦ rw e (p, insert-IsOther id s subjects other h)
  ]

  insert-IsDistinct :
      (s : Subject) (subjects : List Subject)
      → All (IsOther s.id) subjects
      → IsDistinct subjects
      → IsDistinct (insert_subject before s subjects)
  unfolding insert_subject
  insert-IsDistinct s [] p h = (tt, tt)
  insert-IsDistinct s (t ∷ subjects) (q, p) (r, h) = elim (Bool-cases (before s.name t.name)) [
    | inl e ↦ rw e ((q, p), (r, h))
    | inr e ↦
        rw e (
          insert-IsOther t.id s subjects (λ same. q (sym same)) r,
          insert-IsDistinct s subjects p h,
        )
  ]

  sort-IsOther :
      (id : Text) (subjects : List Subject)
      → All (IsOther id) subjects
      → All (IsOther id) (sort_subjects before subjects)
  unfolding sort_subjects
  sort-IsOther id [] h = tt
  sort-IsOther id (s ∷ subjects) (p, h) =
      insert-IsOther id s (sort_subjects before subjects) p (sort-IsOther id subjects h)

  sort-IsDistinct :
      (subjects : List Subject) → IsDistinct subjects → IsDistinct (sort_subjects before subjects)
  unfolding sort_subjects
  sort-IsDistinct [] h = tt
  sort-IsDistinct (s ∷ subjects) (p, h) =
      insert-IsDistinct s (sort_subjects before subjects) (sort-IsOther s.id subjects p)
        (sort-IsDistinct subjects h)

  insert-Holds :
      (s : Subject) (subjects : List Subject) (v : Subject)
      → Holds (s ∷ subjects) v
      → Holds (insert_subject before s subjects) v
  unfolding insert_subject
  insert-Holds s [] v h = h
  insert-Holds s (t ∷ subjects) v h = elim (Bool-cases (before s.name t.name)) [
    | inl e ↦ rw e h
    | inr e ↦ elim (Holds-cases s (t ∷ subjects) v h) [
      | inl same ↦ rw e (
          Holds-cons t (insert_subject before s subjects) v
            (insert-Holds s subjects v (Holds-self s subjects v same)))
      | inr later ↦ elim (Holds-cases t subjects v later) [
        | inl same ↦ rw e (Holds-self t (insert_subject before s subjects) v same)
        | inr last ↦ rw e (
            Holds-cons t (insert_subject before s subjects) v
              (insert-Holds s subjects v (Holds-cons s subjects v last)))
      ]
    ]
  ]

  sort-Holds :
      (subjects : List Subject) (v : Subject)
      → Holds subjects v
      → Holds (sort_subjects before subjects) v
  unfolding sort_subjects
  sort-Holds [] v h = h
  sort-Holds (s ∷ subjects) v h = elim (Holds-cases s subjects v h) [
    | inl e ↦
        insert-Holds s (sort_subjects before subjects) v
          (Holds-self s (sort_subjects before subjects) v e)
    | inr later ↦
        insert-Holds s (sort_subjects before subjects) v
          (Holds-cons s (sort_subjects before subjects) v (sort-Holds subjects v later))
  ]

  insert-All :
      (P : Subject → Type 0) (s : Subject) (subjects : List Subject)
      → P s
      → All P subjects
      → All P (insert_subject before s subjects)
  unfolding insert_subject
  insert-All P s [] p h = (p, tt)
  insert-All P s (t ∷ subjects) p (q, h) = elim (Bool-cases (before s.name t.name)) [
    | inl e ↦ rw e (p, (q, h))
    | inr e ↦ rw e (q, insert-All P s subjects p h)
  ]

  sort-All :
      (P : Subject → Type 0) (subjects : List Subject)
      → All P subjects
      → All P (sort_subjects before subjects)
  unfolding sort_subjects
  sort-All P [] h = tt
  sort-All P (s ∷ subjects) (p, h) =
      insert-All P s (sort_subjects before subjects) p (sort-All P subjects h)

  -- The rows of the grid are exactly the identities of the grants that apply to the environment: each
  -- has a row, however many grants it has and whatever the order of names, none has two, and every row
  -- is that of an identity with such a grant.
  pub subjects_of-IsDistinct :
      (environment_id : Text) (grants : List Grant)
      → IsDistinct (subjects_of before environment_id grants)
        × All
            (λ g. IsListed g.subject_id (subjects_of before environment_id grants))
            (applicable environment_id grants)
        × All
            (IsGrantee (applicable environment_id grants))
            (subjects_of before environment_id grants)
  unfolding subjects_of
  subjects_of-IsDistinct environment_id grants = (
    sort-IsDistinct _ (add-IsDistinct (applicable environment_id grants) [] tt),
    Holds-All _ (applicable environment_id grants) λ g held.
        let (s, h, same) = add-IsListed (applicable environment_id grants) [] g held in
        (s, sort-Holds _ s h, same),
    sort-All _ _ (
        add-AllGrantee (applicable environment_id grants) (applicable environment_id grants) []
          (λ g held. held) tt),
  )
