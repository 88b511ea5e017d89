-- ===== src/Screens/Access/Adding.antt =====
-- The map of identities in web/components/access-grid.tsx, filled from the grants.
use warder.Base.{
  ◌≡◌, ◌≢◌, inl, inr, refl, sym, ◌∙◌, ap, false, Bool-cases, List, [], ◌∷◌, Text, text_eq,
  text_eq_iff, All, Holds, Holds-cons, Holds-self, Holds-cases,
}
use warder.Screens.Access.{Grant, Subject, subject_of, set_subject, add_subjects}

-- No identity is listed twice.
abbrev pub IsOther : Text → Subject → Type 0
IsOther id s = s.id ≢ id

abbrev pub IsDistinct : List Subject → Type 0
IsDistinct [] = Unit
IsDistinct (s ∷ subjects) = All (IsOther s.id) subjects × IsDistinct subjects

-- It is listed.
abbrev pub IsListed : Text → List Subject → Type 0
IsListed id subjects = (s : Subject) × Holds subjects s × (s.id ≡ id)

text_differs : (s t : Text) → text_eq s t ≡ false → s ≢ t
text_differs s t h e = let same = (text_eq_iff s t).1 e in cc

set-IsOther :
    (id : Text) (s : Subject) (subjects : List Subject)
    → s.id ≢ id
    → All (IsOther id) subjects
    → All (IsOther id) (set_subject s subjects)
unfolding set_subject
set-IsOther id s [] other h = (other, tt)
set-IsOther id s (t ∷ subjects) other (p, h) = elim (Bool-cases (text_eq t.id s.id)) [
  | inl e ↦ rw e (other, h)
  | inr e ↦ rw e (p, set-IsOther id s subjects other h)
]

set-IsDistinct :
    (s : Subject) (subjects : List Subject)
    → IsDistinct subjects
    → IsDistinct (set_subject s subjects)
unfolding set_subject
set-IsDistinct s [] h = (tt, tt)
set-IsDistinct s (t ∷ subjects) (p, h) = elim (Bool-cases (text_eq t.id s.id)) [
  | inl e ↦ let same = (text_eq_iff t.id s.id).0 e in rw e (rw (← same) p, h)
  | inr e ↦ rw e (
    set-IsOther t.id s subjects (λ same. text_differs t.id s.id e (sym same)) p,
    set-IsDistinct s subjects h,
  )
]

set-IsListed :
    (id : Text) (s : Subject) (subjects : List Subject)
    → IsListed id subjects
    → IsListed id (set_subject s subjects)
unfolding set_subject
set-IsListed id s [] (t, ([], after, e), same) = cc
set-IsListed id s [] (t, (b ∷ before, after, e), same) = cc
set-IsListed id s (u ∷ subjects) (t, held, same) = elim (Bool-cases (text_eq u.id s.id)) [
  | inl k ↦ elim (Holds-cases u subjects t held) [
    | inl e ↦ rw k (
      s,
      Holds-self s subjects s refl,
      sym ((text_eq_iff u.id s.id).0 k) ∙ (ap (λ (x : Subject). x.id) (sym e) ∙ same),
    )
    | inr later ↦ rw k (t, Holds-cons s subjects t later, same)
  ]
  | inr k ↦ elim (Holds-cases u subjects t held) [
    | inl e ↦ rw k (t, Holds-self u (set_subject s subjects) t e, same)
    | inr later ↦
        let (v, h, at) = set-IsListed id s subjects (t, later, same) in
        rw k (v, Holds-cons u (set_subject s subjects) v h, at)
  ]
]

set_self : (s : Subject) (subjects : List Subject) → IsListed s.id (set_subject s subjects)
unfolding set_subject
set_self s [] = (s, Holds-self s [] s refl, refl)
set_self s (t ∷ subjects) = elim (Bool-cases (text_eq t.id s.id)) [
  | inl e ↦ rw e (s, Holds-self s subjects s refl, refl)
  | inr e ↦
      let (v, h, at) = set_self s subjects in
      rw e (v, Holds-cons t (set_subject s subjects) v h, at)
]

pub add-IsDistinct :
    (grants : List Grant) (subjects : List Subject)
    → IsDistinct subjects
    → IsDistinct (add_subjects grants subjects)
unfolding add_subjects
add-IsDistinct [] subjects h = h
add-IsDistinct (g ∷ grants) subjects h =
    add-IsDistinct grants (set_subject (subject_of g) subjects)
      (set-IsDistinct (subject_of g) subjects h)

add_keeps :
    (id : Text) (grants : List Grant) (subjects : List Subject)
    → IsListed id subjects
    → IsListed id (add_subjects grants subjects)
unfolding add_subjects
add_keeps id [] subjects h = h
add_keeps id (g ∷ grants) subjects h =
    add_keeps id grants (set_subject (subject_of g) subjects)
      (set-IsListed id (subject_of g) subjects h)

pub add-IsListed :
    (grants : List Grant) (subjects : List Subject) (g : Grant)
    → Holds grants g
    → IsListed g.subject_id (add_subjects grants subjects)
unfolding add_subjects subject_of
add-IsListed [] subjects g ([], after, e) = cc
add-IsListed [] subjects g (b ∷ before, after, e) = cc
add-IsListed (x ∷ grants) subjects g held = elim (Holds-cases x grants g held) [
  | inl e ↦ rw e (
      add_keeps x.subject_id grants (set_subject (subject_of x) subjects)
        (set_self (subject_of x) subjects))
  | inr later ↦ add-IsListed grants (set_subject (subject_of x) subjects) g later
]

-- The row of some grant.
abbrev pub IsGrantee : List Grant → Subject → Type 0
IsGrantee grants s = (g : Grant) × Holds grants g × (s ≡ subject_of g)

set-All :
    (P : Subject → Type 0) (s : Subject) (subjects : List Subject)
    → P s
    → All P subjects
    → All P (set_subject s subjects)
unfolding set_subject
set-All P s [] p h = (p, tt)
set-All P s (t ∷ subjects) p (q, h) = elim (Bool-cases (text_eq t.id s.id)) [
  | inl e ↦ rw e (p, h)
  | inr e ↦ rw e (q, set-All P s subjects p h)
]

pub add-AllGrantee :
    (all grants : List Grant) (subjects : List Subject)
    → ((g : Grant) → Holds grants g → Holds all g)
    → All (IsGrantee all) subjects
    → All (IsGrantee all) (add_subjects grants subjects)
unfolding add_subjects
add-AllGrantee all [] subjects among h = h
add-AllGrantee all (g ∷ grants) subjects among h =
    add-AllGrantee all grants (set_subject (subject_of g) subjects)
      (λ x held. among x (Holds-cons g grants x held))
      (set-All (IsGrantee all) (subject_of g) subjects
        (g, among g (Holds-self g grants g refl), refl) h)
