-- ===== src/Screens/Access.antt =====
-- web/components/access-grid.tsx and web/components/access-matrix.tsx: who can reach which secret.
pub mod Grid
pub mod Grouping
pub mod Adding
pub mod Subjects
use warder.Base.{
  ℕ, ◌≡◌, Bool, true, false, ◌&&◌, ◌||◌, not, Option, none, some, List, [], ◌∷◌, ◌++◌, map, Text,
  lit, text_eq, is_empty, is_space, trim, to_upper, any, filter, ◌==◌, if◌then◌else◌,
}

pub data SubjectType : Type 0 where
  user machine : SubjectType

-- `Grant`
pub record Grant : Type 0 where
  pub id : Text
  pub subject_type : SubjectType
  pub subject_id : Text
  pub subject_name : Text
  pub subject_kind : Text
  pub scope : Text
  pub environment_id : Option Text
  pub secret_id : Option Text
  pub capabilities : List Text
  pub can_use : Bool
  pub can_reveal : Bool
  pub expires_at : Option Text
  pub reason : Text
  pub temporary : Bool

-- An identity of the grid.
pub record Subject : Type 0 where
  pub id : Text
  pub name : Text
  pub kind : Text
  pub type_of : SubjectType

-- `v === null || v === id`
unfoldable pub null_or : Option Text → Text → Bool
null_or none id = true
null_or (some v) id = text_eq v id

unfoldable pub applicable : Text → List Grant → List Grant
applicable environment_id grants =
    filter (λ (g : Grant). null_or g.environment_id environment_id) grants

unfoldable pub subject_of : Grant → Subject
subject_of g = record {
  id = g.subject_id;
  name = g.subject_name;
  kind = g.subject_kind;
  type_of = g.subject_type;
}

-- `Map.set` on the entries of a map, in order of insertion.
unfoldable pub set_subject : Subject → List Subject → List Subject
set_subject s [] = s ∷ []
set_subject s (t ∷ subjects) =
    let rest = set_subject s subjects in if text_eq t.id s.id then s ∷ subjects else t ∷ rest

-- The map of `grants`, on top of what it holds already.
unfoldable pub add_subjects : List Grant → List Subject → List Subject
unfolding set_subject subject_of
add_subjects [] subjects = subjects
add_subjects (g ∷ grants) subjects = add_subjects grants (set_subject (subject_of g) subjects)

-- The stable sort by `a.name.localeCompare(b.name)`; `before a b` is a result of at most 0.
unfoldable pub insert_subject : (Text → Text → Bool) → Subject → List Subject → List Subject
insert_subject before s [] = s ∷ []
insert_subject before s (t ∷ subjects) =
    let rest = insert_subject before s subjects in
    if before s.name t.name then s ∷ t ∷ subjects else t ∷ rest

unfoldable pub sort_subjects : (Text → Text → Bool) → List Subject → List Subject
unfolding insert_subject
sort_subjects before [] = []
sort_subjects before (s ∷ subjects) = insert_subject before s (sort_subjects before subjects)

unfoldable pub subjects_of : (Text → Text → Bool) → Text → List Grant → List Subject
unfolding applicable add_subjects sort_subjects
subjects_of before environment_id grants =
    sort_subjects before (add_subjects (applicable environment_id grants) [])

pub record Reaching : Type 0 where
  pub use_it : Bool
  pub read_it : Bool

unfoldable pub matching : Text → Text → List Grant → List Grant
unfolding null_or
matching subject_id secret_id grants =
    filter (λ (g : Grant). text_eq g.subject_id subject_id && null_or g.secret_id secret_id) grants

-- One cell of the grid.
unfoldable pub reaches : Text → List Grant → Text → Text → Reaching
unfolding applicable matching
reaches environment_id grants subject_id secret_id =
    let found = matching subject_id secret_id (applicable environment_id grants) in
    record {
      use_it = any (λ (g : Grant). g.can_use) found;
      read_it = any (λ (g : Grant). g.can_reveal) found;
    }

unfoldable pub access_label : Reaching → Text
access_label r =
    if r.use_it && r.read_it
    then lit "may use and read"
    else if r.use_it
    then lit "may use"
    else if r.read_it
    then lit "may read"
    else lit "no access"

-- `split(/[\s@._-]+/).filter(Boolean)`
unfoldable pub is_separator : ℕ → Bool
is_separator c = is_space c || c == b'@' || c == b'.' || c == b'_' || c == b'-'

unfoldable pub push_part : Text → List Text → List Text
push_part part parts = if is_empty part then parts else part ∷ parts

-- The parts, and the part that the text starts in.
unfoldable pub name_parts : Text → Text × List Text
unfolding is_separator push_part
name_parts [] = ([], [])
name_parts (c ∷ s) =
    let (part, parts) = name_parts s in
    if is_separator c then ([], push_part part parts) else (c ∷ part, parts)

unfoldable pub parts_of : Text → List Text
unfolding name_parts push_part
parts_of name = let (part, parts) = name_parts name in push_part part parts

unfoldable pub second_initial : Text → List Text → Text
second_initial [] parts = []
second_initial (c ∷ []) [] = []
second_initial (c ∷ d ∷ s) [] = d ∷ []
second_initial (c ∷ s) ([] ∷ parts) = []
second_initial (c ∷ s) ((d ∷ t) ∷ parts) = d ∷ []

unfoldable pub person_initials : List Text → Text
unfolding second_initial
person_initials [] = lit "?"
person_initials ([] ∷ parts) = lit "?"
person_initials ((c ∷ s) ∷ parts) = to_upper (c ∷ second_initial (c ∷ s) parts)

unfoldable pub machine_mark : Text → Option Text
machine_mark kind =
    if text_eq kind (lit "WORKLOAD")
    then some (lit "WL")
    else if text_eq kind (lit "CI")
    then some (lit "CI")
    else if text_eq kind (lit "AI_AGENT")
    then some (lit "AI")
    else if text_eq kind (lit "SERVICE")
    then some (lit "SV")
    else none

unfoldable pub initials : Text → Text → Text
unfolding machine_mark parts_of person_initials
initials name kind = elim (machine_mark (to_upper kind)) [
  | some mark ↦ mark
  | none ↦ person_initials (parts_of (trim name))
]

-- The groups of the access screen: `byEnvironment` with the entries in order, and the rest.
abbrev pub ByEnvironment : Type 0
ByEnvironment = List (Text × List Grant)

unfoldable pub group_of : Text → ByEnvironment → List Grant
group_of id [] = []
group_of id ((e, grants) ∷ groups) =
    let later = group_of id groups in if text_eq e id then grants else later

unfoldable pub push_grant : Text → Grant → ByEnvironment → ByEnvironment
push_grant id g [] = (id, g ∷ []) ∷ []
push_grant id g ((e, grants) ∷ groups) =
    let later = push_grant id g groups in
    if text_eq e id then (e, grants ++ g ∷ []) ∷ groups else (e, grants) ∷ later

pub record Groups : Type 0 where
  pub project_wide : List Grant
  pub by_environment : ByEnvironment

-- `!grant.environmentId`
unfoldable pub is_wide : Grant → Bool
is_wide g = elim g.environment_id [ none ↦ true | some id ↦ is_empty id ]

-- One round of the loop.
unfoldable pub place_grant : Option Text → Grant → Groups → Groups
unfolding push_grant
place_grant none g s = record s { project_wide = s.project_wide ++ g ∷ [] }
place_grant (some id) g s =
    if is_empty id
    then record s { project_wide = s.project_wide ++ g ∷ [] }
    else record s { by_environment = push_grant id g s.by_environment }

unfoldable pub place_grants : List Grant → Groups → Groups
unfolding place_grant
place_grants [] s = s
place_grants (g ∷ grants) s = place_grants grants (place_grant g.environment_id g s)

unfoldable pub grouped : List Grant → Groups
unfolding place_grants
grouped grants = place_grants grants (record { project_wide = []; by_environment = [] })
