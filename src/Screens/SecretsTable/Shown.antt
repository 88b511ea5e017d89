-- ===== src/Screens/SecretsTable/Shown.antt =====
-- How long a revealed value is shown, and what the detail pane shows.
use warder.Base.{
  runs, runs_keep, ℕ, ◌+◌, ◌≤◌, ◌≡◌, refl, arith, ◌⊎◌, inl, inr, true, Bool-cases, Option, none,
  some, List, [], ◌∷◌, ◌++◌, Text, text_eq, length, leb, Holds, Holds-self, Holds-cons,
}
use warder.Screens.SecretsTable.{Secret, filtered, find_secret, first_secret, or_first, selected}
use warder.Screens.SecretsTable.Reveal.{
  Reveal, hidden, reveal_seconds, start_countdown, ask, show, count_down, is_running, tick,
}

-- What can happen while the row is on the page.
pub data Happening : Type 0 where
  asked : Happening
  answered : Option Text → Happening
  second : ℕ → Happening

unfoldable pub happen : Happening → Reveal → Reveal
happen asked s = ask s
happen (answered value) s = show value s
happen (second i) s = tick i s

-- A value that is shown has seconds left, 30 at most, and an interval that counts them.
abbrev pub IsTimed : Reveal → Type 0
IsTimed s =
    (s.revealed ≡ none)
    ⊎ ((1 ≤ s.countdown) × (s.countdown ≤ reveal_seconds) × (1 ≤ length s.running))

append-pos : (xs : List ℕ) (x : ℕ) → 1 ≤ length (xs ++ x ∷ [])
append-pos [] x = omega arith
append-pos (y ∷ xs) x = omega arith

count_down-IsTimed : (i : ℕ) (s : Reveal) → IsTimed s → IsTimed (count_down i s)
unfolding count_down
count_down-IsTimed i s t = elim (Bool-cases (leb s.countdown 1)) [
  | inl e ↦ rw e (inl refl)
  | inr e ↦ rw e (elim t [
    | inl gone ↦ inl gone
    | inr (low, high, runs) ↦ inr (ground arith, omega (arith, high), runs)
  ])
]

tick-IsTimed : (i : ℕ) (s : Reveal) → IsTimed s → IsTimed (tick i s)
unfolding tick
tick-IsTimed i s t = elim (Bool-cases (is_running i s)) [
  | inl e ↦ rw e (count_down-IsTimed i s t)
  | inr e ↦ rw e t
]

happen-IsTimed : (h : Happening) (s : Reveal) → IsTimed s → IsTimed (happen h s)
unfolding happen ask show start_countdown
happen-IsTimed asked s t = t
happen-IsTimed (answered none) s t = t
happen-IsTimed (answered (some value)) s t =
    inr (omega arith, omega arith, append-pos s.running s.next)
happen-IsTimed (second i) s t = tick-IsTimed i s t

-- In every order of reveals, answers, failures and seconds, of any number of intervals at once: a value
-- that is on screen has between 1 and 30 seconds left, and an interval is running that takes it away.
pub runs-IsTimed : (happenings : List Happening) → IsTimed (runs happen happenings hidden)
runs-IsTimed happenings = runs_keep happen IsTimed happen-IsTimed happenings hidden (inl refl)

-- Seconds of running intervals, each running when it fires.
abbrev pub AllFire : List ℕ → Reveal → Type 0
AllFire [] s = Unit
AllFire (i ∷ is) s = (is_running i s ≡ true) × AllFire is (tick i s)

unfoldable pub seconds_pass : List ℕ → Reveal → Reveal
seconds_pass [] s = s
seconds_pass (i ∷ is) s = seconds_pass is (tick i s)

stays_hidden : (i : ℕ) (s : Reveal) → s.revealed ≡ none → (tick i s).revealed ≡ none
unfolding tick count_down
stays_hidden i s e = elim (Bool-cases (is_running i s)) [
  | inl r ↦ elim (Bool-cases (leb s.countdown 1)) [ inl c ↦ rw (r, c) refl | inr c ↦ rw (r, c) e ]
  | inr r ↦ rw r e
]

all_hidden : (is : List ℕ) (s : Reveal) → s.revealed ≡ none → (seconds_pass is s).revealed ≡ none
unfolding seconds_pass
all_hidden [] s e = e
all_hidden (i ∷ is) s e = all_hidden is (tick i s) (stays_hidden i s e)

tick-counts :
    (i : ℕ) (s : Reveal)
    → is_running i s ≡ true
    → ((tick i s).revealed ≡ none) ⊎ ((tick i s).countdown + 1 ≡ s.countdown)
unfolding tick count_down
tick-counts i s r = elim (Bool-cases (leb s.countdown 1)) [
  | inl c ↦ inl (rw (r, c) refl)
  | inr c ↦ inr (rw (r, c) (ground arith))
]

-- A value does not outlive the seconds on its countdown: once as many seconds have passed, of whichever
-- running intervals, and nothing was revealed in between, it is gone; after 30 seconds at the latest,
-- since no countdown starts higher.
pub seconds_pass-hides :
    (is : List ℕ) (s : Reveal)
    → 1 ≤ length is
    → s.countdown ≤ length is
    → AllFire is s
    → (seconds_pass is s).revealed ≡ none
unfolding seconds_pass tick
seconds_pass-hides [] s some_seconds enough fires = absurd (omega arith)
seconds_pass-hides (i ∷ []) s some_seconds enough (r, fires) =
    elim (Bool-cases (leb s.countdown 1)) [
      | inl c ↦ rw (r, c, tick, count_down) refl
      | inr c ↦ absurd (ground arith)
    ]
seconds_pass-hides (i ∷ j ∷ is) s some_seconds enough (r, fires) = elim (tick-counts i s r) [
  | inl gone ↦ all_hidden (j ∷ is) (tick i s) gone
  | inr less ↦
      seconds_pass-hides (j ∷ is) (tick i s) (omega arith) (omega (arith, less, enough)) fires
]

find-Holds :
    (id : Option Text) (secrets : List Secret) (s : Secret)
    → find_secret id secrets ≡ some s
    → Holds secrets s
unfolding find_secret
find-Holds id [] s e = cc
find-Holds none (x ∷ secrets) s e = cc
find-Holds (some id) (x ∷ secrets) s e = elim (Bool-cases (text_eq x.id id)) [
  | inl k ↦ Holds-self x secrets s (same x s (rw k at e))
  | inr k ↦ Holds-cons x secrets s (find-Holds (some id) secrets s (rw k at e))
]
  where
    same : (x s : Secret) → ◌≡◌ {A = Option Secret} (some x) (some s) → s ≡ x
    same x s e = cc

-- What the pane shows.
pub data IsPane (shown : List Secret) : Option Secret → Type 0 where
  nothing_left : shown ≡ [] → IsPane shown none
  on_screen : (s : Secret) → Holds shown s → IsPane shown (some s)

pane :
    (o : Option Secret) (shown : List Secret)
    → ((s : Secret) → o ≡ some s → Holds shown s)
    → IsPane shown (or_first o shown)
unfolding or_first first_secret
pane (some s) shown h = on_screen s (h s refl)
pane none [] h = nothing_left refl
pane none (s ∷ shown) h = on_screen s (Holds-self s shown s refl)

-- The detail pane never describes a secret that the filter has taken off the screen: it shows one of
-- the listed secrets whenever there is one, and nothing when there is none.
pub selected-IsPane :
    (query status : Text) (selected_id : Option Text) (secrets : List Secret)
    → IsPane (filtered query status secrets) (selected query status selected_id secrets)
unfolding selected
selected-IsPane query status selected_id secrets =
    pane (find_secret selected_id (filtered query status secrets)) (filtered query status secrets)
      λ s e. find-Holds selected_id (filtered query status secrets) s e
