-- ===== src/Screens/AddSecrets/Rows.antt =====
-- The rows of the dialog through all that can happen to it.
use warder.Base.{
  ℕ, ◌+◌, ◌≤◌, ◌≡◌, arith, inl, inr, Bool, not, ◌&&◌, ◌||◌, Bool-cases, Option, List, [], ◌∷◌, ◌++◌,
  map, Text, is_empty, trim, to_upper, one_of, length, filter, ◌==◌,
}
use warder.Dotenv.{ParsedEntry}
use warder.Screens.AddSecrets.Merge.{
  kept_rows, upper_keys, added_rows, new_entries, merged_rows, paste_into_key,
}
use warder.Screens.AddSecrets.{
  Row, Dialog, rerender, set_key, set_value, remove_row, add_another, open_change, cancel,
}
use warder.Screens.AddSecrets.Submit.{Answer, submit, settle}

-- All that can happen to a dialog.
pub data Event : Type 0 where
  rendered added_another cancelled submitted : Event
  typed_key typed_value : ℕ → Text → Event
  removed : ℕ → Event
  pasted : Text → ℕ → Event
  open_changed : Bool → Event
  settled : List Row → Answer → Event

module _ (current : Text) (iso : Text → Option Text) where
  unfoldable pub handle : Event → Dialog → Dialog
  handle rendered d = rerender d
  handle added_another d = add_another d
  handle cancelled d = cancel d
  handle submitted d = (submit iso d).0
  handle (typed_key id next) d = set_key id next d
  handle (typed_value id next) d = set_value id next d
  handle (removed id) d = remove_row id d
  handle (pasted text at) d = (paste_into_key text at d).1
  handle (open_changed next) d = open_change current next d
  handle (settled rows answer) d = settle current rows answer d

-- The ids rise from row to row, within bounds.
abbrev pub IsRising : ℕ → List Row → ℕ → Type 0
IsRising low [] high = low ≤ high
IsRising low (row ∷ rows) high = (low ≤ row.id) × IsRising (row.id + 1) rows high

pub IsRising-lower :
    (a b : ℕ) (rows : List Row) (high : ℕ) → a ≤ b → IsRising b rows high → IsRising a rows high
IsRising-lower a b [] high le h = omega (arith, le, h)
IsRising-lower a b (row ∷ rows) high le (p, h) = (omega (arith, le, p), h)

pub IsRising-higher :
    (low : ℕ) (rows : List Row) (a b : ℕ) → a ≤ b → IsRising low rows a → IsRising low rows b
IsRising-higher low [] a b le h = omega (arith, le, h)
IsRising-higher low (row ∷ rows) a b le (p, h) = (p, IsRising-higher (row.id + 1) rows a b le h)

pub IsRising-append :
    (low : ℕ) (xs : List Row) (middle : ℕ) (ys : List Row) (high : ℕ)
    → IsRising low xs middle
    → IsRising middle ys high
    → IsRising low (xs ++ ys) high
IsRising-append low [] middle ys high h k = IsRising-lower low middle ys high h k
IsRising-append low (x ∷ xs) middle ys high (p, h) k =
    (p, IsRising-append (x.id + 1) xs middle ys high h k)

pub IsRising-filter :
    (p : Row → Bool) (low : ℕ) (rows : List Row) (high : ℕ)
    → IsRising low rows high
    → IsRising low (filter p rows) high
IsRising-filter p low [] high h = h
IsRising-filter p low (row ∷ rows) high (le, h) =
    let rest = IsRising-filter p (row.id + 1) rows high h in
    elim (Bool-cases (p row)) [
      | inl e ↦ rw e (le, rest)
      | inr e ↦ rw e (IsRising-lower low (row.id + 1) (filter p rows) high (omega (arith, le)) rest)
    ]

pub IsRising-map :
    (f : Row → Row)
    → ((r : Row) → (f r).id ≡ r.id)
    → (low : ℕ) (rows : List Row) (high : ℕ) → IsRising low rows high
    → IsRising low (map f rows) high
IsRising-map f same low [] high h = h
IsRising-map f same low (row ∷ rows) high (le, h) =
    rw (same row) (le, IsRising-map f same (row.id + 1) rows high h)

IsRising-kept :
    (at index low : ℕ) (rows : List Row) (high : ℕ)
    → IsRising low rows high
    → IsRising low (kept_rows at index rows) high
unfolding kept_rows
IsRising-kept at index low [] high h = h
IsRising-kept at index low (row ∷ rows) high (le, h) =
    let rest = IsRising-kept at (index + 1) (row.id + 1) rows high h in
    elim (Bool-cases
      (not (index == at) && (not (is_empty (trim row.key)) || not (is_empty row.value)))) [
        | inl e ↦ rw e (le, rest)
        | inr e ↦ rw e (
            IsRising-lower low (row.id + 1) (kept_rows at (index + 1) rows) high (omega (arith, le))
              rest)
      ]

IsRising-added :
    (existing : List Text) (next : ℕ) (entries : List ParsedEntry)
    → IsRising next
        (added_rows existing next entries)
        (next + length (added_rows existing next entries))
unfolding added_rows
IsRising-added existing next [] = omega arith
IsRising-added existing next (e ∷ entries) = elim (Bool-cases (one_of existing (to_upper e.key))) [
  | inl k ↦ rw k (IsRising-added existing next entries)
  | inr k ↦ rw k (
    omega arith,
    IsRising-higher (next + 1) (added_rows existing (next + 1) entries) _ _ (omega arith)
        (IsRising-added existing (next + 1) entries),
  )
]

pub merged-IsRising :
    (at next : ℕ) (entries : List ParsedEntry) (rows : List Row)
    → IsRising 0 rows next
    → IsRising 0
        (merged_rows at next entries rows)
        (next + length (new_entries at next entries rows) + 1)
unfolding merged_rows new_entries
merged-IsRising at next entries rows h =
    IsRising-append 0 (kept_rows at 0 rows) next _ _ (IsRising-kept at 0 0 rows next h) (
      IsRising-append next (added_rows (upper_keys (kept_rows at 0 rows)) next entries) _ _ _
        (IsRising-added (upper_keys (kept_rows at 0 rows)) next entries) (omega arith, omega arith))

-- The invariant: the rows have different ids, and none has an id that is still to be drawn.
abbrev pub IsNumbered : Dialog → Type 0
IsNumbered d = IsRising 0 d.rows d.next_row_id
