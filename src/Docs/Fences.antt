-- ===== src/Docs/Fences.antt =====
-- Code blocks and headings.
use warder.Base.{
  ◌≡◌, refl, ◌∙◌, ap, ℕ, Bool, true, false, not, Option, none, some, List, [], ◌∷◌, ◌++◌, Text, All,
}
use warder.Docs.Markdown.{Heading, is_fence, match_heading, add_heading, headings_in}

abbrev pub IsProse : Text → Type 0
IsProse line = is_fence line ≡ false

module _ (letter_or_number : ℕ → Bool) where
  -- Inside a block no line counts, up to its end.
  inside-nothing :
      (code rest : List Text)
      → All IsProse code
      → headings_in letter_or_number true (code ++ rest) ≡ headings_in letter_or_number true rest
  unfolding headings_in
  inside-nothing [] rest h = refl
  inside-nothing (line ∷ code) rest (p, h) = rw (headings_in, p) (inside-nothing code rest h)

  add-append :
      (o : Option (ℕ × Text)) (xs ys : List Heading)
      → add_heading letter_or_number o (xs ++ ys) ≡ add_heading letter_or_number o xs ++ ys
  unfolding add_heading
  add-append none xs ys = refl
  add-append (some m) xs ys = refl

  outside-append :
      (prose rest : List Text)
      → All IsProse prose
      → headings_in letter_or_number false (prose ++ rest)
        ≡ headings_in letter_or_number false prose ++ headings_in letter_or_number false rest
  unfolding headings_in
  outside-append [] rest h = refl
  outside-append (line ∷ prose) rest (p, h) =
      rw (headings_in, p)
        (ap (add_heading letter_or_number (match_heading line)) (outside-append prose rest h)
          ∙ add-append (match_heading line) (headings_in letter_or_number false prose)
              (headings_in letter_or_number false rest))

  at_fence :
      (inside : Bool) (line : Text) (lines : List Text)
      → is_fence line ≡ true
      → headings_in letter_or_number inside (line ∷ lines)
        ≡ headings_in letter_or_number (not inside) lines
  unfolding headings_in
  at_fence inside line lines fence = rw (headings_in, fence) refl

  -- After prose without a fence, a block that a fence opens and the next fence closes, so that no line
  -- between them is a fence of either kind, gives no heading and hides none: the headings are those of
  -- the prose and of what follows the block.
  pub headings_in-fenced :
      (prose : List Text) (opening : Text) (code : List Text) (closing : Text) (rest : List Text)
      → All IsProse prose
      → is_fence opening ≡ true
      → All IsProse code
      → is_fence closing ≡ true
      → headings_in letter_or_number false (prose ++ opening ∷ (code ++ closing ∷ rest))
        ≡ headings_in letter_or_number false prose ++ headings_in letter_or_number false rest
  headings_in-fenced prose opening code closing rest plain opens inner ends =
      outside-append prose (opening ∷ (code ++ closing ∷ rest)) plain
      ∙ ap (λ l. headings_in letter_or_number false prose ++ l)
          (at_fence false opening (code ++ closing ∷ rest) opens
            ∙ (inside-nothing code (closing ∷ rest) inner ∙ at_fence true closing rest ends))
