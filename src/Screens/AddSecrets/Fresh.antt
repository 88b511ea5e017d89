-- ===== src/Screens/AddSecrets/Fresh.antt =====
-- The ids of the rows of the dialog: none is drawn twice.
use warder.Base.{ℕ, ◌≤◌, ◌⊎◌, List, map, All, Holds}
use warder.Screens.AddSecrets.{Row, Dialog}

-- The ids of the rows on the screen.
abbrev pub ids_of : Dialog → List ℕ
ids_of d = map (λ (row : Row). row.id) d.rows

-- The row has one of some ids, or one drawn from `low` on.
abbrev pub IsKeptOrFresh : List ℕ → ℕ → Row → Type 0
IsKeptOrFresh ids low row = Holds ids row.id ⊎ (low ≤ row.id)

-- What holds from then on.
pub record IsLater (ids : List ℕ) (low : ℕ) (e : Dialog) : Type 0 where
  pub drawn : low ≤ e.next_row_id
  pub rows : All (IsKeptOrFresh ids low) e.rows
