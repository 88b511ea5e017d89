-- ===== src/Docs/Slugs.antt =====
-- The anchors of headings.
use warder.Base.{
  ℕ, ◌≡◌, refl, ap, ap₂, arith, inl, inr, Bool, true, false, Bool-cases, [], ◌∷◌, Text, is_space,
  trim, trim_start, trim_end, keep_unless_edge, EndsDark, IsTrimmed, trim-IsTrimmed_id, to_lower,
  lower_unit, filter, All,
}
use warder.Docs.Markdown.{join_words, is_slug_unit, slugify_heading}

lower_unit-lower_unit : (c : ℕ) → lower_unit (lower_unit c) ≡ lower_unit c
unfolding lower_unit
lower_unit-lower_unit c = ground arith

module _ (letter_or_number : ℕ → Bool) where
  -- A unit that the pattern keeps, in small letters.
  pub record IsKept (c : ℕ) : Type 0 where
    pub allowed : is_slug_unit letter_or_number c ≡ true
    pub small : lower_unit c ≡ c

  -- One that may stand in an anchor: white space may not.
  pub record IsAnchorUnit (c : ℕ) : Type 0 where
    pub kept : IsKept c
    pub no_space : is_space c ≡ false

  filtered-AllKept : (s : Text) → All IsKept (filter (is_slug_unit letter_or_number) (to_lower s))
  unfolding to_lower
  filtered-AllKept [] = tt
  filtered-AllKept (c ∷ s) = elim (Bool-cases (is_slug_unit letter_or_number (lower_unit c))) [
    | inl e ↦ rw e (record { allowed = e; small = lower_unit-lower_unit c }, filtered-AllKept s)
    | inr e ↦ rw e (filtered-AllKept s)
  ]

  hyphen : IsAnchorUnit b'-'
  unfolding is_slug_unit lower_unit is_space
  hyphen = record { kept = record { allowed = ground arith; small = refl }; no_space = refl }

  join-AllAnchor :
      (joined : Bool) (s : Text) → All IsKept s → All IsAnchorUnit (join_words joined s)
  unfolding join_words
  join-AllAnchor joined [] h = tt
  join-AllAnchor joined (c ∷ s) (p, h) = elim (Bool-cases (is_space c)) [
    | inl e ↦ elim (Bool-cases joined) [
      | inl j ↦ rw (e, j) (join-AllAnchor true s h)
      | inr j ↦ rw (e, j) (hyphen, join-AllAnchor true s h)
    ]
    | inr e ↦ rw e (record { kept = p; no_space = e }, join-AllAnchor false s h)
  ]

  lower_fixed : (s : Text) → All IsAnchorUnit s → to_lower s ≡ s
  unfolding to_lower
  lower_fixed [] h = refl
  lower_fixed (c ∷ s) (p, h) = ap₂ (λ x xs. x ∷ xs) p.kept.small (lower_fixed s h)

  filter_fixed : (s : Text) → All IsAnchorUnit s → filter (is_slug_unit letter_or_number) s ≡ s
  filter_fixed [] h = refl
  filter_fixed (c ∷ s) (p, h) = rw p.kept.allowed (ap (λ x. c ∷ x) (filter_fixed s h))

  join_fixed : (s : Text) → All IsAnchorUnit s → join_words false s ≡ s
  unfolding join_words
  join_fixed [] h = refl
  join_fixed (c ∷ s) (p, h) = rw (join_words, p.no_space) (ap (λ x. c ∷ x) (join_fixed s h))

  ends_dark : (s : Text) → All IsAnchorUnit s → EndsDark s
  ends_dark [] h = tt
  ends_dark (c ∷ []) (p, h) = p.no_space
  ends_dark (c ∷ d ∷ s) (p, h) = ends_dark (d ∷ s) h

  anchor-IsTrimmed : (s : Text) → All IsAnchorUnit s → IsTrimmed s
  anchor-IsTrimmed [] h = (tt, tt)
  anchor-IsTrimmed (c ∷ s) (p, h) = (p.no_space, ends_dark (c ∷ s) (p, h))

  trim_start-AllKept : (s : Text) → All IsKept s → All IsKept (trim_start s)
  unfolding trim_start
  trim_start-AllKept [] h = tt
  trim_start-AllKept (c ∷ s) (p, h) = elim (Bool-cases (is_space c)) [
    | inl e ↦ rw e (trim_start-AllKept s h)
    | inr e ↦ rw e (p, h)
  ]

  keep-AllKept : (c : ℕ) (s : Text) → IsKept c → All IsKept s → All IsKept (keep_unless_edge c s)
  unfolding keep_unless_edge
  keep-AllKept c [] p h = elim (Bool-cases (is_space c)) [ inl e ↦ rw e tt | inr e ↦ rw e (p, tt) ]
  keep-AllKept c (d ∷ s) p h = (p, h)

  trim_end-AllKept : (s : Text) → All IsKept s → All IsKept (trim_end s)
  unfolding trim_end
  trim_end-AllKept [] h = tt
  trim_end-AllKept (c ∷ s) (p, h) = keep-AllKept c (trim_end s) p (trim_end-AllKept s h)

  trim-AllKept : (s : Text) → All IsKept s → All IsKept (trim s)
  unfolding trim
  trim-AllKept s h = trim_end-AllKept (trim_start s) (trim_start-AllKept s h)

  slugify-AllAnchor : (text : Text) → All IsAnchorUnit (slugify_heading letter_or_number text)
  unfolding slugify_heading
  slugify-AllAnchor text =
      join-AllAnchor false (trim (filter (is_slug_unit letter_or_number) (to_lower text))) (
        trim-AllKept (filter (is_slug_unit letter_or_number) (to_lower text))
          (filtered-AllKept text))

  slugify_fixed : (s : Text) → All IsAnchorUnit s → slugify_heading letter_or_number s ≡ s
  unfolding slugify_heading
  slugify_fixed s h =
      rw (lower_fixed s h, filter_fixed s h, trim-IsTrimmed_id s (anchor-IsTrimmed s h))
        (join_fixed s h)

  -- An anchor holds letters, digits, underscores and hyphens only: no white space and no capital of
  -- ASCII. Made into an anchor once more, it stays as it is, so a hand-written anchor can be compared
  -- with the anchor of its heading.
  pub slugify_heading-IsAnchor :
      (text : Text)
      → All IsAnchorUnit (slugify_heading letter_or_number text)
        × (slugify_heading letter_or_number (slugify_heading letter_or_number text)
            ≡ slugify_heading letter_or_number text)
  slugify_heading-IsAnchor text = (slugify-AllAnchor text, slugify_fixed _ (slugify-AllAnchor text))
