-- ===== src/Screens/KeyPicker/Available.antt =====
-- What can be selected.
use warder.Base.{
  runs, runs_keep, ap, Bool, false, ℕ, ◌≡◌, inl, inr, refl, sym, ◌∙◌, true, not, ◌&&◌, Bool-cases,
  and_parts, Option, none, some, List, [], Text, one_of, is_empty, get_elem?, ◌==◌, ==_iff, All,
  All-concat, All-filter,
}
use warder.Screens.KeyPicker.{
  Flight, Picker, change_environment, blank, mounted, loaded_keys, loaded, failed_keys, failed,
  matches, without, toggle, first_unselected, choose_first, Key, backspace, enter, escape,
  arrow_down, other, press, is_backspace, key_down, is_shown,
}
use warder.Screens.KeyPicker.Happenings.{
  Happening, environment_changed, arrived, refused, clicked, taken_off, typed, pressed, click,
  take_off, press_shown, answer_to, happen,
}
use warder.Screens.KeyPicker.Among.{
  Among, matches-Among, one_of_self, filtered-Among, drop_last-All, first-Among, get_elem-last,
}

module _ (contents : ℕ → Text → List Text) where
  -- Either the keys are those that the server holds in the chosen environment, and the selection is among
  -- them, and no answer is awaited that could replace them; or they are not there: they are awaited by a
  -- request for that very environment, could not be loaded, or no environment is chosen.
  pub data IsAvailable (p : Picker) : Type 0 where
    awaited :
        (f : Flight)
        → p.loading ≡ true
        → p.flight ≡ some f
        → get_elem? p.requests f.number ≡ some p.environment_id
        → IsAvailable p
    missing : (message : Text) → p.flight ≡ none → p.error ≡ some message → IsAvailable p
    nowhere : p.flight ≡ none → is_empty p.environment_id ≡ true → IsAvailable p
    among :
        (n : ℕ)
        → p.flight ≡ none
        → p.keys ≡ contents n p.environment_id
        → All (Among p.keys) p.selected
        → IsAvailable p

  -- It still is after a change of the selection and of what does not matter.
  changed_selection :
      (selected : List Text) (query : Text) (is_open : Bool) (p : Picker)
      → (All (Among p.keys) p.selected → All (Among p.keys) selected)
      → IsAvailable p
      → IsAvailable (record p { selected = selected; query = query; is_open = is_open })
  changed_selection selected query is_open p keep (awaited f l e r) = awaited f l e r
  changed_selection selected query is_open p keep (missing message e m) = missing message e m
  changed_selection selected query is_open p keep (nowhere e n) = nowhere e n
  changed_selection selected query is_open p keep (among n e k h) = among n e k (keep h)

  toggle-IsAvailable :
      (key : Text) (p : Picker) → Among p.keys key → IsAvailable p → IsAvailable (toggle key p)
  unfolding toggle without
  toggle-IsAvailable key p known h =
      changed_selection _ [] p.is_open p
        (λ all. elim (Bool-cases (one_of p.selected key)) [
          | inl k ↦ rw k (All-filter (Among p.keys) _ p.selected all)
          | inr k ↦ rw k (All-concat (Among p.keys) p.selected key all known)
        ])
        h

  chosen-IsAvailable :
      (p : Picker) (o : Option Text)
      → first_unselected p.selected (matches p) ≡ o
      → IsAvailable p
      → IsAvailable (choose_first o p)
  unfolding choose_first
  chosen-IsAvailable p none e h = h
  chosen-IsAvailable p (some key) e h = elim (Bool-cases (is_empty key)) [
    | inl k ↦ rw k h
    | inr k ↦
        let known =
          matches-Among p key
            (one_of_self (matches p) key (first-Among p.selected (matches p) key e)) in
        rw k (toggle-IsAvailable key p known h)
  ]

  press-IsAvailable : (key : Key) (p : Picker) → IsAvailable p → IsAvailable (press key p)
  unfolding press
  press-IsAvailable backspace p h = h
  press-IsAvailable enter p h = elim (Bool-cases (is_empty (matches p))) [
    | inl e ↦ rw e h
    | inr e ↦ rw e (chosen-IsAvailable p (first_unselected p.selected (matches p)) refl h)
  ]
  press-IsAvailable escape p h = changed_selection p.selected p.query false p (λ all. all) h
  press-IsAvailable arrow_down p h = changed_selection p.selected p.query true p (λ all. all) h
  press-IsAvailable other p h = h

  key_down-IsAvailable : (key : Key) (p : Picker) → IsAvailable p → IsAvailable (key_down key p)
  unfolding key_down
  key_down-IsAvailable key p h =
      elim (Bool-cases (is_backspace key && (is_empty p.query && not (is_empty p.selected)))) [
        | inl e ↦ rw e (
            changed_selection _ p.query p.is_open p
              (λ all. drop_last-All (Among p.keys) p.selected all) h)
        | inr e ↦ rw e (press-IsAvailable key p h)
      ]

  changed-IsAvailable : (id : Text) (p : Picker) → IsAvailable (change_environment id p)
  unfolding change_environment
  changed-IsAvailable id p = elim (Bool-cases (is_empty id)) [
    | inl k ↦ rw k (nowhere refl k)
    | inr k ↦ rw k (awaited _ refl refl (get_elem-last p.requests id))
  ]

  -- An answer counts only while its request is awaited, so it is one for the chosen environment.
  awaited-IsAvailable :
      (n : ℕ) (id : Text) (p : Picker) (f : Flight)
      → get_elem? p.requests n ≡ some id
      → get_elem? p.requests f.number ≡ some p.environment_id
      → IsAvailable p
      → IsAvailable (loaded_keys n (contents n id) (some f) p)
  unfolding loaded_keys
  awaited-IsAvailable n id p f r asked h = elim (Bool-cases (f.number == n)) [
    | inl k ↦
        let number = sym ((==_iff f.number n).0 k) in
        let known = same (sym r ∙ (ap (λ m. get_elem? p.requests m) number ∙ asked)) in
        rw k (among n refl (ap (contents n) known) (filtered-Among (contents n id) f.chosen))
    | inr k ↦ rw k h
  ]
    where
      same : {a b : Text} → ◌≡◌ {A = Option Text} (some a) (some b) → a ≡ b
      same e = cc

  flight-Asked :
      (p : Picker) (f : Flight)
      → p.flight ≡ some f
      → IsAvailable p
      → get_elem? p.requests f.number ≡ some p.environment_id
  flight-Asked p f e (awaited g l k asked) = rw (same (sym e ∙ k)) asked
    where
      same : {a b : Flight} → ◌≡◌ {A = Option Flight} (some a) (some b) → a ≡ b
      same e = cc
  flight-Asked p f e (missing message k m) = cc
  flight-Asked p f e (nowhere k m) = cc
  flight-Asked p f e (among n k m h) = cc

  loaded-IsAvailable :
      (n : ℕ) (id : Text) (p : Picker) (o : Option Flight)
      → p.flight ≡ o
      → get_elem? p.requests n ≡ some id
      → IsAvailable p
      → IsAvailable (loaded_keys n (contents n id) o p)
  unfolding loaded_keys
  loaded-IsAvailable n id p none e r h = h
  loaded-IsAvailable n id p (some f) e r h = awaited-IsAvailable n id p f r (flight-Asked p f e h) h

  answer_to-IsAvailable :
      (n : ℕ) (o : Option Text) (p : Picker)
      → get_elem? p.requests n ≡ o
      → IsAvailable p
      → IsAvailable (answer_to contents n o p)
  unfolding answer_to loaded
  answer_to-IsAvailable n none p r h = h
  answer_to-IsAvailable n (some id) p r h = loaded-IsAvailable n id p p.flight refl r h

  refused-IsAvailable :
      (n : ℕ) (message : Text) (p : Picker) (f : Flight)
      → IsAvailable p
      → IsAvailable (failed_keys n message (some f) p)
  unfolding failed_keys
  refused-IsAvailable n message p f h = elim (Bool-cases (f.number == n)) [
    | inl k ↦ rw k (missing message refl refl)
    | inr k ↦ rw k h
  ]

  failed-IsAvailable :
      (n : ℕ) (message : Text) (p : Picker) (o : Option Flight)
      → IsAvailable p
      → IsAvailable (failed_keys n message o p)
  unfolding failed_keys
  failed-IsAvailable n message p none h = h
  failed-IsAvailable n message p (some f) h = refused-IsAvailable n message p f h

  happen-IsAvailable :
      (x : Happening) (p : Picker) → IsAvailable p → IsAvailable (happen contents x p)
  unfolding happen failed click take_off press_shown without
  happen-IsAvailable (environment_changed id) p h = changed-IsAvailable id p
  happen-IsAvailable (arrived n) p h = answer_to-IsAvailable n (get_elem? p.requests n) p refl h
  happen-IsAvailable (refused n message) p h = failed-IsAvailable n message p p.flight h
  happen-IsAvailable (typed query) p h = changed_selection p.selected query true p (λ all. all) h
  happen-IsAvailable (clicked key) p h = elim (Bool-cases (is_shown p && one_of (matches p) key)) [
    | inl e ↦ rw e (toggle-IsAvailable key p (matches-Among p key (and_parts _ _ e).1) h)
    | inr e ↦ rw e h
  ]
  happen-IsAvailable (taken_off key) p h = elim (Bool-cases (is_shown p)) [
    | inl e ↦ rw e (
        changed_selection _ p.query p.is_open p (λ all. All-filter (Among p.keys) _ p.selected all)
          h)
    | inr e ↦ rw e h
  ]
  happen-IsAvailable (pressed key) p h = elim (Bool-cases (is_shown p)) [
    | inl e ↦ rw e (key_down-IsAvailable key p h)
    | inr e ↦ rw e h
  ]

  -- However environments are switched, requests are answered late, fail or are cancelled, and keys are
  -- clicked, typed or taken off: unless a request for the chosen environment is awaited, an error shows
  -- or no environment is chosen, the keys are those that the server answered for the chosen environment,
  -- and every selected key is one of them, also when it was selected for another environment.
  pub runs-IsAvailable :
      (happenings : List Happening) (id : Text) (selected : List Text)
      → IsAvailable (runs (happen contents) happenings (mounted id selected))
  unfolding mounted
  runs-IsAvailable happenings id selected =
      runs_keep (happen contents) IsAvailable happen-IsAvailable happenings _
        (changed-IsAvailable id (blank id selected))
