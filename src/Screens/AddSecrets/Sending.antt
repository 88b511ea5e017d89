-- ===== src/Screens/AddSecrets/Sending.antt =====
-- What the dialog sends.
use warder.Base.{
  ◌≡◌, refl, ◌⊎◌, inl, inr, Bool, true, false, Bool-cases, Option, none, some, List, [], ◌∷◌, Text,
  is_empty, filter, All, arith, sym, not, trim, map, ◌++◌, lit, text_eq, Holds, Holds-self,
  Holds-cons, Json, str, arr, array_of, object, prop?, field?,
}
use warder.Screens.AddSecrets.{Row, Dialog, is_filled, filled_rows}
use warder.Screens.Shared.{Call, expiry_of}
use warder.Screens.AddSecrets.Submit.{
  batch_call, batch_body, batch_path, secret_body, first_without_value, cleared, failed_with,
  send_batch, submit_filled, submit,
}

empty_text : (s : Text) → is_empty s ≡ true → s ≡ []
unfolding is_empty
empty_text [] h = refl
empty_text (c ∷ s) h = cc

no_rows : (rows : List Row) → is_empty rows ≡ true → rows ≡ []
unfolding is_empty
no_rows [] h = refl
no_rows (r ∷ rows) h = cc

-- A row with a key and a value.
pub record IsComplete (row : Row) : Type 0 where
  pub has_key : is_empty (trim row.key) ≡ false
  pub has_value : is_empty row.value ≡ false

keyed : (row : Row) → is_filled row ≡ true → is_empty (trim row.key) ≡ false
unfolding is_filled
keyed row h = ground (arith, h)

complete_rows :
    (rows : List Row)
    → All (λ r. is_filled r ≡ true) rows
    → first_without_value rows ≡ none
    → All IsComplete rows
unfolding first_without_value
complete_rows [] h e = tt
complete_rows (row ∷ rows) (k, h) e = elim (Bool-cases (is_empty row.value)) [
  | inl v ↦ absurd (some_ne (rw v at e))
  | inr v ↦ (record { has_key = keyed row k; has_value = v }, complete_rows rows h (rw v at e))
]
  where
    some_ne : {r : Row} → ◌≡◌ {A = Option Row} (some r) none → ⊥
    some_ne e = cc

filter-All : (p : Row → Bool) (rows : List Row) → All (λ r. p r ≡ true) (filter p rows)
filter-All p [] = tt
filter-All p (row ∷ rows) = elim (Bool-cases (p row)) [
  | inl e ↦ rw e (e, filter-All p rows)
  | inr e ↦ rw e (filter-All p rows)
]

-- The rows that count: those whose key is not blank.
abbrev pub rows_with_key : List Row → List Row
rows_with_key rows = filter (λ (row : Row). not (is_empty (trim row.key))) rows

filled_rows-with_key : (rows : List Row) → filled_rows rows ≡ rows_with_key rows
unfolding filled_rows is_filled
filled_rows-with_key rows = refl

-- What a submission lacks.
pub data IsUnready (iso : Text → Option Text) (d : Dialog) : Type 0 where
  no_key : rows_with_key d.rows ≡ [] → IsUnready iso d
  no_value : (row : Row) → Holds (rows_with_key d.rows) row → row.value ≡ [] → IsUnready iso d
  no_time : expiry_of iso d.expires_at ≡ none → IsUnready iso d

-- A submission that is refused in the browser for what it lacks: it says why, sends nothing, and does
-- not start to wait.
pub record IsHeld (iso : Text → Option Text) (d : Dialog) (p : Dialog × Option Call) : Type 0 where
  pub why : IsUnready iso d
  pub no_call : p.1 ≡ none
  pub says : (message : Text) × ((p.0).error ≡ some message)
  pub idle : ((p.0).pending ≡ d.pending) ⊎ ((p.0).pending ≡ false)

-- The item of the batch for a row.
abbrev pub item_for : Row → Json
item_for row =
    object ((lit "key", some (str (trim row.key))) ∷ (lit "value", some (str row.value)) ∷ [])

-- One that is sent: to the environment of the dialog, one item for each row with a key, at least one of
-- them, each with a value; and the dialog waits.
pub record IsSent (iso : Text → Option Text) (d : Dialog) (p : Dialog × Option Call) : Type 0 where
  pub call : Call
  pub sent : p.1 ≡ some call
  pub path : call.path ≡ lit "/api/environments/" ++ (d.environment_id ++ lit "/secrets/batch")
  pub method : call.options.method ≡ some (lit "POST")
  pub secrets :
      prop? (lit "secrets") call.options.body
      ≡ some (arr (array_of (map item_for (rows_with_key d.rows))))
  pub expiry : Text
  pub readable : expiry_of iso d.expires_at ≡ some expiry
  pub expiry_sent : prop? (lit "expiresAt") call.options.body ≡ some (str expiry)
  pub some_rows : is_empty (rows_with_key d.rows) ≡ false
  pub complete : All IsComplete (rows_with_key d.rows)
  pub waits : (p.0).pending ≡ true
  pub quiet : (p.0).error ≡ none

map-item : (rows : List Row) → map secret_body rows ≡ map item_for rows
unfolding secret_body
map-item rows = refl

without_value :
    (rows : List Row) (row : Row)
    → first_without_value rows ≡ some row
    → Holds rows row × (row.value ≡ [])
unfolding first_without_value
without_value [] row e = cc
without_value (r ∷ rows) row e = elim (Bool-cases (is_empty r.value)) [
  | inl k ↦
      let same : r ≡ row = cc_some (rw k at e) in
      (Holds-self r rows row (sym same), rw same at (empty_text r.value k))
  | inr k ↦
      let (held, bare) = without_value rows row (rw k at e) in (Holds-cons r rows row held, bare)
]
  where
    cc_some : {a b : Row} → ◌≡◌ {A = Option Row} (some a) (some b) → a ≡ b
    cc_some e = cc

module _ (iso : Text → Option Text) (d : Dialog) where
  batch_cases :
      (e : Option Text)
      → expiry_of iso d.expires_at ≡ e
      → is_empty (filled_rows d.rows) ≡ false
      → All IsComplete (filled_rows d.rows)
      → IsHeld iso d (send_batch iso d e) ⊎ IsSent iso d (send_batch iso d e)
  unfolding send_batch failed_with cleared batch_call batch_body batch_path prop? field? text_eq lit
      filled_rows is_filled secret_body
  batch_cases none e filled complete =
      inl (record { why = no_time e; no_call = refl; says = (_, refl); idle = inr refl })
  batch_cases (some expiry) e filled complete = inr (record {
    call = batch_call d expiry;
    sent = refl;
    path = refl;
    method = refl;
    secrets = refl;
    expiry = expiry;
    readable = e;
    expiry_sent = refl;
    some_rows = filled;
    complete = complete;
    waits = refl;
    quiet = refl;
  })

  filled_cases :
      (o : Option Row)
      → first_without_value (filled_rows d.rows) ≡ o
      → is_empty (filled_rows d.rows) ≡ false
      → IsHeld iso d (submit_filled iso d o) ⊎ IsSent iso d (submit_filled iso d o)
  unfolding submit_filled failed_with cleared filled_rows is_filled
  filled_cases (some row) e filled = inl (record {
    why =
        no_value row (without_value (rows_with_key d.rows) row e).0
          (without_value (rows_with_key d.rows) row e).1;
    no_call = refl;
    says = (_, refl);
    idle = inl refl;
  })
  filled_cases none e filled =
      batch_cases (expiry_of iso d.expires_at) refl filled
        (complete_rows (filled_rows d.rows) (filter-All is_filled d.rows) e)

  -- A submission sends one item for each row whose key is not blank, with the trimmed key and the value
  -- as it stands, to the environment of the dialog, and waits; there is at least one such row, and each
  -- has a value. Only when there is no such row, or one has no value, or the expiry cannot be written,
  -- nothing is sent; then the dialog shows why, and does not start to wait.
  pub submit_cases : IsHeld iso d (submit iso d) ⊎ IsSent iso d (submit iso d)
  unfolding submit failed_with cleared filled_rows is_filled
  submit_cases = elim (Bool-cases (is_empty (filled_rows d.rows))) [
    | inl e ↦ rw e (
        inl (record {
          why = no_key (no_rows (rows_with_key d.rows) e);
          no_call = refl;
          says = (_, refl);
          idle = inl refl;
        }))
    | inr e ↦ rw e (filled_cases (first_without_value (filled_rows d.rows)) refl e)
  ]
