-- ===== src/Tests/Views.antt =====
-- The list of secrets with a revealed row, and the access screen.
use warder.Base.{
  All, runs, ◌≡◌, ◌↔◌, refl, arith, Bool, true, false, Option, none, some, List, [], ◌∷◌, Text, lit,
  is_empty, filter,
}
use warder.Screens.Access.{Grant, user, applicable, subjects_of, reaches, grouped, group_of}
use warder.Screens.Access.Grid.{IsGranted, reaches_iff}
use warder.Screens.Access.Grouping.{in_environment, for_project, grouped-filters}
use warder.Screens.Access.Adding.{IsDistinct, IsListed, IsGrantee}
use warder.Screens.Access.Subjects.{subjects_of-IsDistinct}
use warder.Screens.SecretsTable.{Secret, selected, filtered}
use warder.Screens.SecretsTable.Reveal.{Reveal, hidden, tick}
use warder.Screens.SecretsTable.Shown.{
  Happening, asked, answered, second, happen, IsTimed, runs-IsTimed, AllFire, seconds_pass,
  seconds_pass-hides, IsPane, selected-IsPane,
}

abbrev happenings : List Happening
happenings =
    asked
    ∷ answered (some (lit "v"))
    ∷ second 0
    ∷ answered none
    ∷ answered (some (lit "w"))
    ∷ second 1
    ∷ []

runs-IsTimed_example : IsTimed (runs happen happenings hidden)
runs-IsTimed_example = runs-IsTimed happenings

abbrev shown : Reveal
shown = record {
  revealed = some (lit "v");
  countdown = 2;
  pending = false;
  running = 0 ∷ 1 ∷ [];
  next = 2;
}

both-fire : AllFire (1 ∷ 0 ∷ []) shown
unfolding warder.Screens.SecretsTable.Reveal.is_running tick
both-fire = (refl, (refl, tt))

seconds_pass-hides_example : (seconds_pass (1 ∷ 0 ∷ []) shown).revealed ≡ none
seconds_pass-hides_example =
    seconds_pass-hides (1 ∷ 0 ∷ []) shown (omega arith) (omega arith) both-fire

abbrev secret : Text → Text → Secret
secret id status = record {
  id = id;
  key = lit "API_KEY";
  description = [];
  masked = lit "••••";
  version = some 1;
  status = status;
  expires_at = none;
  last_used_at = none;
  can_use = true;
  can_reveal = true;
  can_rotate = false;
}

abbrev listed_secrets : List Secret
listed_secrets = secret (lit "1") (lit "ACTIVE") ∷ secret (lit "2") (lit "EXPIRED") ∷ []

selected-IsPane_example :
    IsPane
      (filtered (lit "api") (lit "EXPIRED") listed_secrets)
      (selected (lit "api") (lit "EXPIRED") (some (lit "1")) listed_secrets)
selected-IsPane_example =
    selected-IsPane (lit "api") (lit "EXPIRED") (some (lit "1")) listed_secrets

abbrev grant : Text → Option Text → Grant
grant subject environment = record {
  id = lit "g";
  subject_type = user;
  subject_id = subject;
  subject_name = lit "Ada";
  subject_kind = lit "USER";
  scope = lit "SECRET";
  environment_id = environment;
  secret_id = none;
  capabilities = lit "USE" ∷ [];
  can_use = true;
  can_reveal = false;
  expires_at = none;
  reason = [];
  temporary = false;
}

abbrev grants : List Grant
grants =
    grant (lit "ada") none
    ∷ grant (lit "bob") (some (lit "dev"))
    ∷ grant (lit "ada") (some (lit "dev"))
    ∷ []

reaches_iff_example :
    (((reaches (lit "dev") grants (lit "ada") (lit "1")).use_it ≡ true)
      ↔ IsGranted (lit "dev") grants (lit "ada") (lit "1") (λ g. g.can_use))
    × (((reaches (lit "dev") grants (lit "ada") (lit "1")).read_it ≡ true)
        ↔ IsGranted (lit "dev") grants (lit "ada") (lit "1") (λ g. g.can_reveal))
reaches_iff_example = reaches_iff (lit "dev") grants (lit "ada") (lit "1")

abbrev any_order : Text → Text → Bool
any_order a b = true

subjects_of-IsDistinct_example :
    IsDistinct (subjects_of any_order (lit "dev") grants)
    × All
        (λ g. IsListed g.subject_id (subjects_of any_order (lit "dev") grants))
        (applicable (lit "dev") grants)
    × All (IsGrantee (applicable (lit "dev") grants)) (subjects_of any_order (lit "dev") grants)
subjects_of-IsDistinct_example = subjects_of-IsDistinct any_order (lit "dev") grants

dev_named : is_empty (lit "dev") ≡ false
unfolding is_empty lit
dev_named = refl

grouped-filters_example :
    (group_of (lit "dev") (grouped grants).by_environment
      ≡ filter (in_environment (lit "dev")) grants)
    × ((grouped grants).project_wide ≡ filter for_project grants)
grouped-filters_example = grouped-filters (lit "dev") grants dev_named
