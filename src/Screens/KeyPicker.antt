-- ===== src/Screens/KeyPicker.antt =====
-- web/components/secret-key-picker.tsx: the field that narrows a token to some secrets of an environment.
pub mod Happenings
pub mod Among
pub mod Available
use warder.Base.{
  ℕ, ◌≡◌, length, get_elem?, ◌==◌, Bool, true, false, ◌&&◌, ◌||◌, not, Option, none, some, List, [],
  ◌∷◌, ◌++◌, Text, lit, text_eq, includes, one_of, is_empty, trim, to_lower, filter, if◌then◌else◌,
}

-- A run of the effect that is not cancelled: which request it made, and what was selected then.
pub record Flight : Type 0 where
  pub number : ℕ
  pub chosen : List Text

-- `selected` belongs to the dialog around the field. `requests` are the environments that were asked for
-- so far, in order: the answer to each arrives under its number. `flight` is the run of the effect whose
-- `cancelled` is still false; a cancelled one is none.
pub record Picker : Type 0 where
  pub environment_id : Text
  pub keys : List Text
  pub loading : Bool
  pub error : Option Text
  pub is_open : Bool
  pub query : Text
  pub selected : List Text
  pub requests : List Text
  pub flight : Option Flight

-- The effect on a change of the environment; the request before it is cancelled.
unfoldable pub change_environment : Text → Picker → Picker
change_environment id p =
    if is_empty id then record p { environment_id = id; keys = []; flight = none } else record p {
      environment_id = id;
      loading = true;
      error = none;
      requests = p.requests ++ id ∷ [];
      flight = some (record { number = length p.requests; chosen = p.selected });
    }

unfoldable pub secrets_path : Text → Text
secrets_path id = lit "/api/environments/" ++ (id ++ lit "/secrets")

abbrev pub blank : Text → List Text → Picker
blank id selected = record {
  environment_id = id;
  keys = [];
  loading = false;
  error = none;
  is_open = false;
  query = [];
  selected = selected;
  requests = [];
  flight = none;
}

-- The field as it first appears, with its first effect.
unfoldable pub mounted : Text → List Text → Picker
unfolding change_environment
mounted id selected = change_environment id (blank id selected)

-- The answer to the request of that number, in the run of the effect that made it.
unfoldable pub loaded_keys : ℕ → List Text → Option Flight → Picker → Picker
loaded_keys n available none p = p
loaded_keys n available (some f) p =
    if f.number == n
    then record p {
      keys = available;
      selected = filter (one_of available) f.chosen;
      loading = false;
      flight = none;
    }
    else p

unfoldable pub loaded : ℕ → List Text → Picker → Picker
unfolding loaded_keys
loaded n available p = loaded_keys n available p.flight p

unfoldable pub failed_keys : ℕ → Text → Option Flight → Picker → Picker
failed_keys n message none p = p
failed_keys n message (some f) p =
    if f.number == n then record p { error = some message; loading = false; flight = none } else p

unfoldable pub failed : ℕ → Text → Picker → Picker
unfolding failed_keys
failed n message p = failed_keys n message p.flight p

unfoldable pub matches_query : Text → Text → Bool
matches_query needle key = is_empty needle || includes (to_lower key) needle

unfoldable pub matches : Picker → List Text
unfolding matches_query
matches p = filter (matches_query (to_lower (trim p.query))) p.keys

unfoldable pub without : Text → List Text → List Text
without key selected = filter (λ k. not (text_eq k key)) selected

unfoldable pub toggle : Text → Picker → Picker
unfolding without
toggle key p = record p {
  selected = if one_of p.selected key then without key p.selected else p.selected ++ key ∷ [];
  query = [];
}

-- `selected.slice(0, -1)`
unfoldable pub drop_last : List Text → List Text
drop_last [] = []
drop_last (k ∷ []) = []
drop_last (k ∷ l ∷ selected) = k ∷ drop_last (l ∷ selected)

-- `matches.find((key) => !selected.includes(key))`
unfoldable pub first_unselected : List Text → List Text → Option Text
first_unselected selected [] = none
first_unselected selected (key ∷ keys) =
    let later = first_unselected selected keys in if one_of selected key then later else some key

unfoldable pub choose_first : Option Text → Picker → Picker
unfolding toggle
choose_first none p = p
choose_first (some key) p = if is_empty key then p else toggle key p

pub data Key : Type 0 where
  backspace enter escape arrow_down other : Key

-- The keys by which the handler goes on behind its first test.
unfoldable pub press : Key → Picker → Picker
unfolding matches first_unselected choose_first
press backspace p = p
press enter p =
    if is_empty (matches p) then p else choose_first (first_unselected p.selected (matches p)) p
press escape p = record p { is_open = false }
press arrow_down p = record p { is_open = true }
press other p = p

unfoldable pub is_backspace : Key → Bool
is_backspace backspace = true
is_backspace enter = false
is_backspace escape = false
is_backspace arrow_down = false
is_backspace other = false

unfoldable pub key_down : Key → Picker → Picker
unfolding drop_last press is_backspace
key_down key p =
    if is_backspace key && (is_empty p.query && not (is_empty p.selected))
    then record p { selected = drop_last p.selected }
    else press key p

-- The field is there to be used: not loading, no error, and some keys.
unfoldable pub is_shown : Picker → Bool
is_shown p =
    not p.loading && ((elim p.error [ none ↦ true | some m ↦ false ]) && not (is_empty p.keys))
