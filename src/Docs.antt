-- ===== src/Docs.antt =====
-- web/lib/docs.ts: the documents that are published, in reading order.
pub mod Markdown
pub mod Order
pub mod Slugs
pub mod Fences
use warder.Base.{
  ℕ, zero, suc, ◌+◌, Bool, true, false, Option, none, some, List, [], ◌∷◌, ◌++◌, Text, lit, text_eq,
  get_elem?, if◌then◌else◌,
}
use mathlib.Core.Option
use warder.Docs.Markdown.{Heading, strip_leading_h1, extract_headings}

pub record DocMeta : Type 0 where
  pub slug : Text
  pub file : Text
  pub title : Text
  pub summary : Text

pub record DocSection : Type 0 where
  pub title : Text
  pub blurb : Text
  pub docs : List DocMeta

unfoldable pub using_warder : DocMeta
using_warder = record {
  slug = lit "using-warder";
  file = lit "using-warder.md";
  title = lit "Using Warder in your application";
  summary =
      lit
        "What stays in your .env, where the two remaining variables come from, and how frontends fit.";
}

unfoldable pub developer_guide : DocMeta
developer_guide = record {
  slug = lit "developer-guide";
  file = lit "developer-guide.md";
  title = lit "Developer guide";
  summary = lit "Every command you need, in the order you need them.";
}

unfoldable pub threat_model : DocMeta
threat_model = record {
  slug = lit "security/threat-model";
  file = lit "security/threat-model.md";
  title = lit "Threat model";
  summary = lit "What is protected, from whom, and how each defence is verified.";
}

unfoldable pub limitations : DocMeta
limitations = record {
  slug = lit "security/limitations";
  file = lit "security/limitations.md";
  title = lit "Limitations";
  summary = lit "What Warder does not protect against, stated plainly.";
}

unfoldable pub audit_doc : DocMeta
audit_doc = record {
  slug = lit "security/audit";
  file = lit "security/audit.md";
  title = lit "Audit";
  summary = lit "What is recorded, what is never recorded, and why.";
}

unfoldable pub doc_sections : List DocSection
unfolding using_warder developer_guide threat_model limitations audit_doc
doc_sections =
    record {
      title = lit "Start here";
      blurb = lit "What changes in your application, and the commands you will use.";
      docs = using_warder ∷ developer_guide ∷ [];
    }
    ∷ record {
      title = lit "Security";
      blurb =
          lit
            "What is protected and what is not, so the claims on this site can be checked rather than taken.";
      docs = threat_model ∷ limitations ∷ audit_doc ∷ [];
    }
    ∷ []

unfoldable pub flatten : List DocSection → List DocMeta
flatten [] = []
flatten (s ∷ sections) = s.docs ++ flatten sections

unfoldable pub all_docs : List DocMeta
unfolding flatten doc_sections
all_docs = flatten doc_sections

-- `find` and `findIndex` by the slug.
unfoldable pub find_in : Text → List DocMeta → Option DocMeta
find_in slug [] = none
find_in slug (doc ∷ docs) =
    let later = find_in slug docs in if text_eq doc.slug slug then some doc else later

unfoldable pub index_in : Text → List DocMeta → Option ℕ
index_in slug [] = none
index_in slug (doc ∷ docs) =
    let later = Option.map (λ i. suc i) (index_in slug docs) in
    if text_eq doc.slug slug then some 0 else later

unfoldable pub find_doc : Text → Option DocMeta
unfolding find_in
find_doc slug = find_in slug all_docs

pub record Neighbours : Type 0 where
  pub previous : Option DocMeta
  pub next : Option DocMeta

-- `docs[index - 1]`, which is nothing before the first.
unfoldable pub before_index : List DocMeta → ℕ → Option DocMeta
before_index docs zero = none
before_index docs (suc i) = get_elem? docs i

unfoldable pub neighbours_at : List DocMeta → Option ℕ → Neighbours
unfolding before_index
neighbours_at docs none = record { previous = none; next = none }
neighbours_at docs (some i) = record {
  previous = before_index docs i;
  next = get_elem? docs (suc i);
}

unfoldable pub doc_neighbours : Text → Neighbours
unfolding index_in neighbours_at
doc_neighbours slug = neighbours_at all_docs (index_in slug all_docs)

pub record LoadedDoc : Type 0 where
  pub meta : DocMeta
  pub body : Text
  pub headings : List Heading

-- `null`, the exception on a file that cannot be read, or the document.
pub data Loading : Type 0 where
  unknown : Loading
  unreadable : Text → Loading
  loaded : LoadedDoc → Loading

module _ (letter_or_number : ℕ → Bool) (read_file : Text → Option Text) where
  unfoldable pub prepare : DocMeta → Text → LoadedDoc
  prepare meta raw = record {
    meta = meta;
    body = strip_leading_h1 raw;
    headings = extract_headings letter_or_number raw;
  }

  unfoldable pub load_meta : Option DocMeta → Loading
  unfolding prepare
  load_meta none = unknown
  load_meta (some meta) = elim (read_file meta.file) [
    | none ↦ unreadable meta.file
    | some raw ↦ loaded (prepare meta raw)
  ]

  unfoldable pub load_doc : Text → Loading
  unfolding load_meta find_doc
  load_doc slug = load_meta (find_doc slug)
