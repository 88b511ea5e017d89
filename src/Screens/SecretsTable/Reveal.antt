-- ===== src/Screens/SecretsTable/Reveal.antt =====
-- A row's revealed value and its countdown.
use warder.Base.{
  ℕ, ◌+◌, ◌-◌, Bool, true, false, ◌&&◌, not, Option, none, some, List, [], ◌∷◌, ◌++◌, Text, lit,
  is_empty, any, filter, leb, ◌==◌, if◌then◌else◌,
}
use warder.Screens.SecretsTable.{Secret}

-- `running` are the intervals that are not cleared, by number; `next` is the number of the next one.
pub record Reveal : Type 0 where
  pub revealed : Option Text
  pub countdown : ℕ
  pub pending : Bool
  pub running : List ℕ
  pub next : ℕ

abbrev pub reveal_seconds : ℕ
reveal_seconds = 30

abbrev pub hidden : Reveal
hidden = record { revealed = none; countdown = 0; pending = false; running = []; next = 0 }

unfoldable pub start_countdown : Reveal → Reveal
start_countdown s = record s {
  countdown = reveal_seconds;
  running = s.running ++ s.next ∷ [];
  next = s.next + 1;
}

-- `reveal` up to its request, and with the answer: the value, or `none` if the call threw.
unfoldable pub ask : Reveal → Reveal
ask s = record s { pending = true }

unfoldable pub show : Option Text → Reveal → Reveal
unfolding start_countdown
show (some value) s = record (start_countdown (record s { revealed = some value })) {
  pending = false;
}
show none s = record s { pending = false }

unfoldable pub clear_interval : ℕ → List ℕ → List ℕ
clear_interval i running = filter (λ j. not (j == i)) running

-- One second of a running interval.
unfoldable pub count_down : ℕ → Reveal → Reveal
unfolding clear_interval
count_down i s =
    if leb s.countdown 1
    then record s { revealed = none; countdown = 0; running = clear_interval i s.running }
    else record s { countdown = s.countdown - 1 }

unfoldable pub is_running : ℕ → Reveal → Bool
is_running i s = any (λ j. j == i) s.running

-- The timer of the interval `i` fires; a cleared one does not.
unfoldable pub tick : ℕ → Reveal → Reveal
unfolding count_down is_running
tick i s = if is_running i s then count_down i s else s

-- The row leaves the page.
unfoldable pub unmount : Reveal → Reveal
unmount s = record s { running = [] }

-- Whether the button is there.
unfoldable pub offers_reveal : Secret → Reveal → Bool
offers_reveal secret s =
    secret.can_reveal && (elim s.revealed [ none ↦ true | some value ↦ is_empty value ])

unfoldable pub revealed_message : Secret → Text
revealed_message secret = secret.key ++ lit " revealed. This was recorded in the audit trail."
