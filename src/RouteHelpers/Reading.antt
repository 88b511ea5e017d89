-- ===== src/RouteHelpers/Reading.antt =====
-- What the readers of a body accept.
use warder.Base.{
  ℕ, ◌≤◌, ◌≡◌, ◌≢◌, ◌↔◌, refl, sym, ◌∙◌, ap, arith, false, Option, none, some, [], ◌∷◌, Text,
  is_empty, trim, length, IsTrimmed, trim-IsTrimmed, Json, null, bool, num, str, arr, obj, Fields,
  field?,
}
use warder.RouteHelpers.{bounded, required_text, require_string}
use warder.World.{World, ok}

-- A text that `requireString` returns for the text `s` of a field.
pub record IsReading (s t : Text) (max_length : ℕ) : Type 0 where
  pub trimmed : t ≡ trim s
  pub filled : t ≢ []
  pub fits : length t ≤ max_length

-- The value is a text whose trimming is `t`.
abbrev pub Reads : Option Json → Text → ℕ → Type 0
Reads v t max_length = (s : Text) × (v ≡ some (str s)) × IsReading s t max_length

bounded_sound :
    (name t r : Text) (max_length : ℕ) (w w' : World)
    → bounded name t max_length w ≡ ok r w'
    → (r ≡ t) × (w' ≡ w) × (length t ≤ max_length)
unfolding bounded
bounded_sound name t r max_length w w' h = ground arith

not_empty : (s : Text) → is_empty s ≡ false → s ≢ []
unfolding is_empty
not_empty [] h e = cc
not_empty (c ∷ s) h e = cc

is_filled : (s : Text) → s ≢ [] → is_empty s ≡ false
unfolding is_empty
is_filled [] h = absurd (h refl)
is_filled (c ∷ s) h = refl

text_sound :
    (name s t : Text) (max_length : ℕ) (w w' : World)
    → required_text name (some (str s)) max_length w ≡ ok t w'
    → (w' ≡ w) × (t ≡ trim s) × (is_empty (trim s) ≡ false) × (length (trim s) ≤ max_length)
unfolding required_text
text_sound name s t max_length w w' h = ground arith

required_sound :
    (name : Text) (v : Option Json) (t : Text) (max_length : ℕ) (w w' : World)
    → required_text name v max_length w ≡ ok t w'
    → (w' ≡ w) × Reads v t max_length
required_sound name (some (str s)) t max_length w w' h =
    let (same, trimmed, filled, fits) = text_sound name s t max_length w w' h in
    (
      same,
      (
        s,
        refl,
        record {
          trimmed = trimmed;
          filled = λ e. not_empty (trim s) filled (sym trimmed ∙ e);
          fits = rw trimmed fits;
        },
      ),
    )
required_sound name (some null) t max_length w w' h = unfold required_text in cc
required_sound name (some (bool b)) t max_length w w' h = unfold required_text in cc
required_sound name (some (num n)) t max_length w w' h = unfold required_text in cc
required_sound name (some (arr vs)) t max_length w w' h = unfold required_text in cc
required_sound name (some (obj fs)) t max_length w w' h = unfold required_text in cc
required_sound name none t max_length w w' h = unfold required_text in cc

required_complete :
    (name : Text) (v : Option Json) (t : Text) (max_length : ℕ) (w : World)
    → Reads v t max_length
    → required_text name v max_length w ≡ ok t w
unfolding required_text bounded
required_complete name v t max_length w (s, e, r) =
    let filled : is_empty (trim s) ≡ false = rw (← r.trimmed) (is_filled t r.filled) in
    let fits : length (trim s) ≤ max_length = rw (← r.trimmed) r.fits in
    rw e (ground (arith, filled, fits, r.trimmed))

-- `requireString` returns `t`, and leaves the state alone, exactly when the field holds a text whose
-- trimming is `t`, not empty and within the bound; so what a route forwards of a required field has
-- lost the white space at both ends.
pub require_string_iff :
    (body : Fields) (name t : Text) (max_length : ℕ) (w w' : World)
    → (require_string body name max_length w ≡ ok t w')
      ↔ ((w' ≡ w) × Reads (field? name body) t max_length)
unfolding require_string
require_string_iff body name t max_length w w' = (
  required_sound name (field? name body) t max_length w w',
  λ (same, reads).
      required_complete name (field? name body) t max_length w reads ∙ ap (ok t) (sym same),
)

-- Whatever the route forwards of a required field is trimmed.
pub require_string-IsTrimmed :
    (body : Fields) (name t : Text) (max_length : ℕ) (w w' : World)
    → require_string body name max_length w ≡ ok t w'
    → IsTrimmed t
require_string-IsTrimmed body name t max_length w w' h =
    let (same, (s, e, r)) = (require_string_iff body name t max_length w w').0 h in
    rw r.trimmed (trim-IsTrimmed s)
