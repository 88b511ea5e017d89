-- ===== src/Screens/AddSecrets/Pasting.antt =====
-- What a pasted file does to the rows that are there.
use warder.Base.{ℕ, ◌≡◌, ◌⊎◌, List, [], ◌∷◌, ◌++◌, to_upper, All, Holds}
use warder.Dotenv.{ParsedEntry}
use warder.Screens.AddSecrets.{Row, Dialog, new_row}
use warder.Screens.AddSecrets.Keeping.{Stays, IsTaken, IsFilled, HoldsEntry}

-- The rows after a paste into the row at `at`.
pub record IsMerged (at : ℕ) (entries : List ParsedEntry) (d e : Dialog) : Type 0 where
  pub rows : List Row
  pub id : ℕ
  pub blank_last : e.rows ≡ rows ++ new_row id [] [] ∷ []
  pub keeps : (row : Row) → Stays at d.rows row → Holds rows row
  pub adds :
      (entry : ParsedEntry)
      → Holds entries entry
      → (IsTaken at d.rows (to_upper entry.key) → ⊥)
      → HoldsEntry rows entry
  pub nothing_else : All (λ row. Stays at d.rows row ⊎ IsFilled at d.rows entries row) rows
