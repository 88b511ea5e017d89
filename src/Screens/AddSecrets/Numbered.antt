-- ===== src/Screens/AddSecrets/Numbered.antt =====
-- Every event leaves the rows numbered.
use warder.Base.{
  runs, runs_keep, ℕ, ◌≡◌, refl, arith, inl, inr, Bool, true, false, not, Bool-cases, Option, none,
  some, List, Text, is_empty, ◌==◌,
}
use warder.Dotenv.{parse_dotenv, looks_like_dotenv}
use warder.Screens.AddSecrets.Merge.{absorb_result, absorb, paste_into_key}
use warder.Screens.AddSecrets.{
  Row, Dialog, first_render, new_row, rerender, reset, with_key, with_value, set_key, set_value,
  remove_row, add_another, open_change, cancel, filled_rows,
}
use warder.Screens.AddSecrets.Rows.{
  Event, rendered, added_another, cancelled, submitted, typed_key, typed_value, removed, pasted,
  open_changed, settled, handle, IsRising-higher, IsRising-append, IsRising-filter, IsRising-map,
  merged-IsRising, IsNumbered,
}
use warder.Screens.Shared.{expiry_of}
use warder.Screens.AddSecrets.Submit.{
  Answer, added, rejected, submit, submit_filled, send_batch, first_without_value, settle,
  add_details, cleared, failed_with,
}

reset-IsNumbered : (current : Text) (d : Dialog) → IsNumbered (reset current d)
unfolding reset new_row
reset-IsNumbered current d = (omega arith, omega arith)

absorb-IsNumbered :
    (text : Text) (at : ℕ) (d : Dialog) → IsNumbered d → IsNumbered (absorb text at d)
unfolding absorb absorb_result
absorb-IsNumbered text at d h = elim (Bool-cases (is_empty (parse_dotenv text).entries)) [
  | inl e ↦ rw e h
  | inr e ↦ rw e (merged-IsRising at d.next_row_id (parse_dotenv text).entries d.rows h)
]

paste-IsNumbered :
    (text : Text) (at : ℕ) (d : Dialog) → IsNumbered d → IsNumbered (paste_into_key text at d).1
unfolding paste_into_key
paste-IsNumbered text at d h = elim (Bool-cases (looks_like_dotenv text)) [
  | inl e ↦ rw e (absorb-IsNumbered text at d h)
  | inr e ↦ rw e h
]

pub with_key-id : (id : ℕ) (next : Text) (r : Row) → (with_key id next r).id ≡ r.id
unfolding with_key
with_key-id id next r = elim (Bool-cases (r.id == id)) [ inl e ↦ rw e refl | inr e ↦ rw e refl ]

pub with_value-id : (id : ℕ) (next : Text) (r : Row) → (with_value id next r).id ≡ r.id
unfolding with_value
with_value-id id next r = elim (Bool-cases (r.id == id)) [ inl e ↦ rw e refl | inr e ↦ rw e refl ]

open_change-IsNumbered :
    (current : Text) (next : Bool) (d : Dialog)
    → IsNumbered d
    → IsNumbered (open_change current next d)
unfolding open_change
open_change-IsNumbered current true d h = h
open_change-IsNumbered current false d h = reset-IsNumbered current (record d { is_open = false })

-- Submitting leaves the rows as they are, and draws no id.
pub record IsUntouched (d e : Dialog) : Type 0 where
  pub rows : e.rows ≡ d.rows
  pub next : e.next_row_id ≡ d.next_row_id

module _ (iso : Text → Option Text) where
  sent-IsUntouched : (d : Dialog) (expiry : Option Text) → IsUntouched d (send_batch iso d expiry).0
  unfolding send_batch failed_with cleared
  sent-IsUntouched d none = record { rows = refl; next = refl }
  sent-IsUntouched d (some expires_at) = record { rows = refl; next = refl }

  filled-IsUntouched : (d : Dialog) (o : Option Row) → IsUntouched d (submit_filled iso d o).0
  unfolding submit_filled failed_with cleared
  filled-IsUntouched d (some row) = record { rows = refl; next = refl }
  filled-IsUntouched d none = sent-IsUntouched d (expiry_of iso d.expires_at)

  pub submit-IsUntouched : (d : Dialog) → IsUntouched d (submit iso d).0
  unfolding submit failed_with cleared
  submit-IsUntouched d = elim (Bool-cases (is_empty (filled_rows d.rows))) [
    | inl e ↦ rw e (record { rows = refl; next = refl })
    | inr e ↦ rw e (filled-IsUntouched d (first_without_value (filled_rows d.rows)))
  ]

untouched-IsNumbered : (d e : Dialog) → IsUntouched d e → IsNumbered d → IsNumbered e
untouched-IsNumbered d e u h = rw (u.rows, u.next) h

pub details-IsUntouched :
    (details : Option (List (Text × Text))) (rows : List Row) (d : Dialog)
    → IsUntouched d (add_details details rows d)
unfolding add_details
details-IsUntouched none rows d = record { rows = refl; next = refl }
details-IsUntouched (some details) rows d = record { rows = refl; next = refl }

settle-IsNumbered :
    (current : Text) (rows : List Row) (answer : Answer) (d : Dialog)
    → IsNumbered d
    → IsNumbered (settle current rows answer d)
unfolding settle failed_with
settle-IsNumbered current rows (added count) d h = reset-IsNumbered current d
settle-IsNumbered current rows (rejected details message) d h =
    untouched-IsNumbered d (add_details details rows d) (details-IsUntouched details rows d) h

module _ (current : Text) (iso : Text → Option Text) where
  handle-IsNumbered : (e : Event) (d : Dialog) → IsNumbered d → IsNumbered (handle current iso e d)
  unfolding handle rerender add_another cancel set_key set_value remove_row new_row
  handle-IsNumbered rendered d h = IsRising-higher 0 d.rows d.next_row_id _ (omega arith) h
  handle-IsNumbered added_another d h =
      IsRising-append 0 d.rows d.next_row_id _ _ h (omega arith, omega arith)
  handle-IsNumbered cancelled d h = h
  handle-IsNumbered submitted d h = untouched-IsNumbered d _ (submit-IsUntouched iso d) h
  handle-IsNumbered (typed_key id next) d h =
      IsRising-map (with_key id next) (with_key-id id next) 0 d.rows _ h
  handle-IsNumbered (typed_value id next) d h =
      IsRising-map (with_value id next) (with_value-id id next) 0 d.rows _ h
  handle-IsNumbered (removed id) d h =
      IsRising-filter (λ (row : Row). not (row.id == id)) 0 d.rows _ h
  handle-IsNumbered (pasted text at) d h = paste-IsNumbered text at d h
  handle-IsNumbered (open_changed next) d h = open_change-IsNumbered current next d h
  handle-IsNumbered (settled rows answer) d h = settle-IsNumbered current rows answer d h

  first-IsNumbered :
      (environment_id : Text) (next : ℕ) → IsNumbered (first_render environment_id next)
  unfolding first_render new_row
  first-IsNumbered environment_id next = (omega arith, omega arith)

  pub numbered :
      (events : List Event) (environment_id : Text) (next : ℕ)
      → IsNumbered (runs (handle current iso) events (first_render environment_id next))
  numbered events environment_id next =
      runs_keep (handle current iso) IsNumbered handle-IsNumbered events _
        (first-IsNumbered environment_id next)
