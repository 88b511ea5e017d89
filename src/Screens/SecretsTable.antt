-- ===== src/Screens/SecretsTable.antt =====
-- web/components/secrets-table.tsx: the list of secrets with its filter and selection, and a row that
-- shows a revealed value for a while.
pub mod Reveal
pub mod Shown
use warder.Base.{
  ℕ, ◌≡◌, Bool, true, false, ◌&&◌, ◌||◌, not, Option, none, some, List, [], ◌∷◌, ◌++◌, Text, lit,
  text_eq, includes, is_empty, trim, to_lower, length, filter, ltb, ◌==◌, if◌then◌else◌,
  number_text,
}

pub record Secret : Type 0 where
  pub id : Text
  pub key : Text
  pub description : Text
  pub masked : Text
  pub version : Option ℕ
  pub status : Text
  pub expires_at : Option Text
  pub last_used_at : Option Text
  pub can_use : Bool
  pub can_reveal : Bool
  pub can_rotate : Bool

-- Whether the trimmed, lower-case needle is in the key or the description.
unfoldable pub mentions : Text → Secret → Bool
mentions needle secret =
    includes (to_lower secret.key) needle || includes (to_lower secret.description) needle

unfoldable pub passes_filter : Text → Text → Secret → Bool
unfolding mentions
passes_filter query status secret =
    let needle = to_lower (trim query) in
    if not (is_empty status) && not (text_eq secret.status status)
    then false
    else if is_empty needle
    then true
    else mentions needle secret

unfoldable pub filtered : Text → Text → List Secret → List Secret
filtered query status secrets = filter (passes_filter query status) secrets

-- `find((secret) => secret.id === selectedId)`
unfoldable pub find_secret : Option Text → List Secret → Option Secret
find_secret id [] = none
find_secret none (s ∷ secrets) = none
find_secret (some id) (s ∷ secrets) =
    let later = find_secret (some id) secrets in if text_eq s.id id then some s else later

unfoldable pub first_secret : List Secret → Option Secret
first_secret [] = none
first_secret (s ∷ secrets) = some s

unfoldable pub or_first : Option Secret → List Secret → Option Secret
unfolding first_secret
or_first (some s) secrets = some s
or_first none secrets = first_secret secrets

-- The secret that the detail pane shows.
unfoldable pub selected : Text → Text → Option Text → List Secret → Option Secret
unfolding filtered find_secret or_first
selected query status selected_id secrets =
    or_first (find_secret selected_id (filtered query status secrets))
      (filtered query status secrets)

unfoldable pub filters_active : Text → Text → Bool
filters_active query status = not (is_empty query) || not (is_empty status)

-- `FilterReset`: the query and the status after it.
unfoldable pub filter_reset : Text × Text
filter_reset = ([], [])

pub data Tone : Type 0 where
  failing ready neutral : Tone

unfoldable pub tone : Secret → Tone
tone secret =
    if text_eq secret.status (lit "EXPIRED") || text_eq secret.status (lit "REVOKED")
    then failing
    else if text_eq secret.status (lit "ACTIVE")
    then ready
    else neutral

-- The titles of the two dots.
unfoldable pub reach_title : ℕ → Text → Text
reach_title n verb =
    if n == 1
    then lit "1 identity may " ++ (verb ++ lit " this")
    else number_text n ++ (lit " identities may " ++ (verb ++ lit " this"))
