-- ===== src/Base/Trim.antt =====
-- What trimming does to a text.
use Prim.Native.Nat.{ℕ}
use mathlib.Core.Path.{◌≡◌, refl}
use mathlib.Core.Bool.{false}
use mathlib.Core.Logic.{inl, inr}
use mathlib.Core.List.{[], ◌∷◌}
use warder.Base.Tests.{Bool-cases}
use warder.Base.Strings.{Text, is_space, trim_start, trim_end, keep_unless_edge, trim}

-- The first code unit is no white space.
abbrev pub StartsDark : Text → Type 0
StartsDark [] = Unit
StartsDark (c ∷ s) = is_space c ≡ false

abbrev pub EndsDark : Text → Type 0
EndsDark [] = Unit
EndsDark (c ∷ []) = is_space c ≡ false
EndsDark (c ∷ d ∷ s) = EndsDark (d ∷ s)

-- No white space at either end.
abbrev pub IsTrimmed : Text → Type 0
IsTrimmed s = StartsDark s × EndsDark s

trim_start-StartsDark : (s : Text) → StartsDark (trim_start s)
unfolding trim_start
trim_start-StartsDark [] = tt
trim_start-StartsDark (c ∷ s) = elim (Bool-cases (is_space c)) [
  | inl e ↦ rw e (trim_start-StartsDark s)
  | inr e ↦ rw e e
]

keep-EndsDark : (c : ℕ) (s : Text) → EndsDark s → EndsDark (keep_unless_edge c s)
unfolding keep_unless_edge
keep-EndsDark c [] h = elim (Bool-cases (is_space c)) [ inl e ↦ rw e tt | inr e ↦ rw e e ]
keep-EndsDark c (d ∷ s) h = h

trim_end-EndsDark : (s : Text) → EndsDark (trim_end s)
unfolding trim_end
trim_end-EndsDark [] = tt
trim_end-EndsDark (c ∷ s) = keep-EndsDark c (trim_end s) (trim_end-EndsDark s)

keep-StartsDark : (c : ℕ) (s : Text) → is_space c ≡ false → StartsDark (keep_unless_edge c s)
unfolding keep_unless_edge
keep-StartsDark c [] h = rw h h
keep-StartsDark c (d ∷ s) h = h

trim_end-StartsDark : (s : Text) → StartsDark s → StartsDark (trim_end s)
unfolding trim_end
trim_end-StartsDark [] h = tt
trim_end-StartsDark (c ∷ s) h = keep-StartsDark c (trim_end s) h

pub trim-IsTrimmed : (s : Text) → IsTrimmed (trim s)
unfolding trim
trim-IsTrimmed s =
    (trim_end-StartsDark (trim_start s) (trim_start-StartsDark s), trim_end-EndsDark (trim_start s))

pub trim_start-StartsDark_id : (s : Text) → StartsDark s → trim_start s ≡ s
unfolding trim_start
trim_start-StartsDark_id [] h = refl
trim_start-StartsDark_id (c ∷ s) h = rw h

pub trim_end-EndsDark_id : (s : Text) → EndsDark s → trim_end s ≡ s
unfolding trim_end keep_unless_edge
trim_end-EndsDark_id [] h = refl
trim_end-EndsDark_id (c ∷ []) h = rw h
trim_end-EndsDark_id (c ∷ d ∷ s) h = rw (trim_end-EndsDark_id (d ∷ s) h, keep_unless_edge) refl

pub trim-IsTrimmed_id : (s : Text) → IsTrimmed s → trim s ≡ s
unfolding trim
trim-IsTrimmed_id s (a, b) = rw (trim_start-StartsDark_id s a) (trim_end-EndsDark_id s b)

pub trim-trim : (s : Text) → trim (trim s) ≡ trim s
trim-trim s = trim-IsTrimmed_id (trim s) (trim-IsTrimmed s)
