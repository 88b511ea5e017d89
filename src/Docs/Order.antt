-- ===== src/Docs/Order.antt =====
-- The reading order, forwards and backwards.
use warder.Base.{
  ℕ, zero, suc, ◌≡◌, refl, ◌↔◌, ap, inl, inr, true, false, Bool-cases, Option, none, some, List, [],
  ◌∷◌, Text, lit, text_eq, text_eq_iff, get_elem?, All,
}
use warder.Docs.{
  DocMeta, all_docs, find_in, index_in, find_doc, before_index, neighbours_at, doc_neighbours,
  flatten, doc_sections, using_warder, developer_guide, threat_model, limitations, audit_doc,
}

-- No two documents share a slug.
abbrev pub IsOther : Text → DocMeta → Type 0
IsOther slug doc = text_eq slug doc.slug ≡ false

abbrev pub IsDistinct : List DocMeta → Type 0
IsDistinct [] = Unit
IsDistinct (doc ∷ docs) = All (IsOther doc.slug) docs × IsDistinct docs

some-injective : {A : Type 0} {x y : A} → ◌≡◌ {A = Option A} (some x) (some y) → x ≡ y
some-injective e = cc

none-some : {A : Type 0} {x : A} → ◌≡◌ {A = Option A} none (some x) → ⊥
none-some e = cc

-- The place where a slug was found holds its document.
found_at :
    (slug : Text) (docs : List DocMeta) (d : DocMeta)
    → find_in slug docs ≡ some d
    → (i : ℕ) × (index_in slug docs ≡ some i) × (get_elem? docs i ≡ some d)
unfolding find_in index_in
found_at slug [] d e = absurd (none-some e)
found_at slug (doc ∷ docs) d e = elim (Bool-cases (text_eq doc.slug slug)) [
  | inl k ↦ (0, rw k refl, rw k at e)
  | inr k ↦
      let (i, at_index, held) = found_at slug docs d (rw k at e) in
      (suc i, rw (k, at_index) refl, held)
]

All-get :
    (slug : Text) (docs : List DocMeta) (i : ℕ) (d : DocMeta)
    → All (IsOther slug) docs
    → get_elem? docs i ≡ some d
    → IsOther slug d
All-get slug [] i d h e = absurd (none-some e)
All-get slug (doc ∷ docs) zero d (p, h) e = rw (some-injective e) at p
All-get slug (doc ∷ docs) (suc i) d (p, h) e = All-get slug docs i d h e

-- A document is found at its place by its own slug.
placed :
    (docs : List DocMeta) (i : ℕ) (d : DocMeta)
    → IsDistinct docs
    → get_elem? docs i ≡ some d
    → (index_in d.slug docs ≡ some i) × (find_in d.slug docs ≡ some d)
unfolding find_in index_in
placed [] i d h e = absurd (none-some e)
placed (doc ∷ docs) zero d h e =
    let same = some-injective e in
    let here : text_eq doc.slug d.slug ≡ true =
      (text_eq_iff doc.slug d.slug).1 (ap (λ (x : DocMeta). x.slug) same) in
    (rw here refl, rw here e)
placed (doc ∷ docs) (suc i) d (p, h) e =
    let other = All-get doc.slug docs i d p e in
    let (at_index, found) = placed docs i d h e in (rw (other, at_index) refl, rw other found)

all_docs-IsDistinct : IsDistinct all_docs
unfolding all_docs flatten doc_sections using_warder developer_guide threat_model limitations
    audit_doc lit text_eq
all_docs-IsDistinct = (
  (refl, (refl, (refl, (refl, tt)))),
  ((refl, (refl, (refl, tt))), ((refl, (refl, tt)), ((refl, tt), (tt, tt)))),
)

module _ (docs : List DocMeta) (distinct : IsDistinct docs) (slug : Text) (d e : DocMeta)
    (found : find_in slug docs ≡ some d) where
  forwards :
      (neighbours_at docs (index_in slug docs)).next ≡ some e
      → (find_in e.slug docs ≡ some e)
        × ((neighbours_at docs (index_in e.slug docs)).previous ≡ some d)
  unfolding neighbours_at before_index
  forwards next =
      let (i, at_index, held) = found_at slug docs d found in
      let after : get_elem? docs (suc i) ≡ some e = rw at_index at next in
      let (placed_at, known) = placed docs (suc i) e distinct after in (known, rw placed_at held)

  backwards_from :
      (i : ℕ)
      → get_elem? docs i ≡ some d
      → before_index docs i ≡ some e
      → (find_in e.slug docs ≡ some e) × ((neighbours_at docs (index_in e.slug docs)).next ≡ some d)
  unfolding neighbours_at before_index
  backwards_from zero held before = absurd (none-some before)
  backwards_from (suc i) held before =
      let (placed_at, known) = placed docs i e distinct before in (known, rw placed_at held)

  backwards :
      (neighbours_at docs (index_in slug docs)).previous ≡ some e
      → (find_in e.slug docs ≡ some e) × ((neighbours_at docs (index_in e.slug docs)).next ≡ some d)
  unfolding neighbours_at
  backwards previous =
      let (i, at_index, held) = found_at slug docs d found in
      backwards_from i held (rw at_index at previous)

-- Every step through the documents can be taken back: of two published documents, the one calls the
-- other its next exactly when the other calls the one its previous.
pub doc_neighbours_iff :
    (d e : DocMeta)
    → find_doc d.slug ≡ some d
    → find_doc e.slug ≡ some e
    → ((doc_neighbours d.slug).next ≡ some e) ↔ ((doc_neighbours e.slug).previous ≡ some d)
unfolding find_doc doc_neighbours
doc_neighbours_iff d e published also = (
  λ h. (forwards all_docs all_docs-IsDistinct d.slug d e published h).1,
  λ h. (backwards all_docs all_docs-IsDistinct e.slug e d also h).1,
)
