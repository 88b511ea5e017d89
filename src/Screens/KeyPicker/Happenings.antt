-- ===== src/Screens/KeyPicker/Happenings.antt =====
-- What can happen to the field of secret-key-picker.tsx, in any order.
use warder.Base.{ℕ, true, ◌&&◌, Option, none, some, List, Text, one_of, get_elem?, if◌then◌else◌}
use warder.Screens.KeyPicker.{
  Picker, change_environment, loaded, failed, matches, without, toggle, Key, key_down, is_shown,
}

-- A request is answered or refused by its number, at any time, also when it was cancelled long ago. A key
-- is clicked on in the list or taken off again only while the field is shown, and the list offers the
-- matches only.
pub data Happening : Type 0 where
  environment_changed : Text → Happening
  arrived : ℕ → Happening
  refused : ℕ → Text → Happening
  clicked : Text → Happening
  taken_off : Text → Happening
  typed : Text → Happening
  pressed : Key → Happening

unfoldable pub click : Text → Picker → Picker
click key p = if is_shown p && one_of (matches p) key then toggle key p else p

unfoldable pub take_off : Text → Picker → Picker
take_off key p = if is_shown p then record p { selected = without key p.selected } else p

unfoldable pub press_shown : Key → Picker → Picker
press_shown key p = if is_shown p then key_down key p else p

-- `contents` is what the server answers to a request: its number, and the environment it asked for.
module _ (contents : ℕ → Text → List Text) where
  unfoldable pub answer_to : ℕ → Option Text → Picker → Picker
  answer_to n none p = p
  answer_to n (some id) p = loaded n (contents n id) p

  unfoldable pub happen : Happening → Picker → Picker
  unfolding answer_to click take_off press_shown
  happen (environment_changed id) p = change_environment id p
  happen (arrived n) p = answer_to n (get_elem? p.requests n) p
  happen (refused n message) p = failed n message p
  happen (clicked key) p = click key p
  happen (taken_off key) p = take_off key p
  happen (typed query) p = record p { query = query; is_open = true }
  happen (pressed key) p = press_shown key p
