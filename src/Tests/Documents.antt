-- ===== src/Tests/Documents.antt =====
-- The published documents, and a heading.
use warder.Base.{
  ◌≡◌, ◌↔◌, refl, ℕ, Bool, true, false, ◌&&◌, ◌||◌, Option, none, some, List, [], ◌∷◌, ◌++◌, Text,
  lit, leb, All,
}
use warder.Docs.{find_doc, doc_neighbours, using_warder, developer_guide}
use warder.Docs.Fences.{headings_in-fenced}
use warder.Docs.Markdown.{is_fence, headings_in, slugify_heading}
use warder.Docs.Order.{doc_neighbours_iff}
use warder.Docs.Slugs.{IsAnchorUnit, slugify_heading-IsAnchor}

first_found : find_doc using_warder.slug ≡ some using_warder
unfolding find_doc using_warder warder.Docs.all_docs warder.Base.text_eq lit
first_found = refl

second_found : find_doc developer_guide.slug ≡ some developer_guide
unfolding find_doc developer_guide warder.Docs.all_docs warder.Base.text_eq lit
second_found = refl

doc_neighbours_iff_example :
    ((doc_neighbours using_warder.slug).next ≡ some developer_guide)
    ↔ ((doc_neighbours developer_guide.slug).previous ≡ some using_warder)
doc_neighbours_iff_example =
    doc_neighbours_iff using_warder developer_guide first_found second_found

abbrev ascii_word : ℕ → Bool
ascii_word c = leb b'a' c && leb c b'z' || leb b'0' c && leb c b'9'

slugify_heading-IsAnchor_example :
    All
      (IsAnchorUnit ascii_word)
      (slugify_heading ascii_word (lit "Worked example: a Next.js application"))
    × (slugify_heading ascii_word
          (slugify_heading ascii_word (lit "Worked example: a Next.js application"))
        ≡ slugify_heading ascii_word (lit "Worked example: a Next.js application"))
slugify_heading-IsAnchor_example =
    slugify_heading-IsAnchor ascii_word (lit "Worked example: a Next.js application")

slug-test :
    slugify_heading ascii_word (lit "Worked example: a Next.js application")
    ≡ lit "worked-example-a-nextjs-application"
unfolding slugify_heading lit warder.Base.trim warder.Base.to_lower
slug-test = refl

abbrev fence : Text
fence = lit "```"

fence-opens : is_fence fence ≡ true
unfolding is_fence lit warder.Base.starts_with warder.Base.trim_start warder.Base.is_space
fence-opens = refl

plain_lines : All (λ line. is_fence line ≡ false) (lit "## Install" ∷ [])
unfolding is_fence lit warder.Base.starts_with warder.Base.trim_start warder.Base.is_space
plain_lines = (refl, tt)

headings_in-fenced_example :
    headings_in ascii_word false (
      (lit "## Install" ∷ []) ++ fence ∷ ((lit "## Install" ∷ []) ++ fence ∷ (lit "### Next" ∷ [])))
    ≡ headings_in ascii_word false (lit "## Install" ∷ [])
      ++ headings_in ascii_word false (lit "### Next" ∷ [])
headings_in-fenced_example =
    headings_in-fenced ascii_word (lit "## Install" ∷ []) fence (lit "## Install" ∷ []) fence
      (lit "### Next" ∷ []) plain_lines fence-opens plain_lines fence-opens
