-- ===== src/Legal/Chunks.antt =====
-- `chunk_law` of src/compliance/legal/chunker.py.
--
-- A parameter gives `strip`, the length of a text, what the two patterns find, and a slice of a text.
pub mod Contents
pub mod Numbering
use reguard.Prelude.{
  ℕ, zero, suc, ◌+◌, ltb, String, str_append, str_eq, Bool, true, false, not, ◌&&◌, Option, none,
  some, List, [], ◌∷◌, ◌++◌, is_empty, length, if◌then◌else◌,
}

-- A match of the marker's pattern: where it starts, and its group.
pub record Marker : Type 0 where
  pub start : ℕ
  pub group : String

pub record ChunkText : Type 0 where
  pub strip : String → String
  pub len : String → ℕ
  pub markers : String → List Marker
  pub slice : String → ℕ → ℕ → String
  -- `re.sub` of the leading marker
  pub drop_marker : String → String

pub record ParsedRecital : Type 0 where
  pub number : String
  pub text : String

pub record ParsedArticle : Type 0 where
  pub article_number : String
  pub title : String
  pub text : String

pub record ParsedAnnex : Type 0 where
  pub code : String
  pub title : String
  pub raw_text : String

pub record ParsedLaw : Type 0 where
  pub recitals : List ParsedRecital
  pub articles : List ParsedArticle
  pub annexes : List ParsedAnnex

pub data ChunkKind : Type 0 where
  recital article_paragraph annex : ChunkKind

pub record Chunk : Type 0 where
  pub idx : ℕ
  pub chunk_kind : ChunkKind
  pub location : String
  pub full_text : String
  pub char_count : ℕ

-- `not text`
abbrev pub is_blank : String → Bool
is_blank s = str_eq s ""

-- `f"({group})"`
abbrev pub in_parens : String → String
in_parens group = str_append "(" (str_append group ")")

module _ (tx : ChunkText) where
  -- The loop over the matches: a segment goes to the start of the next marker, or to the end, and its
  -- path has the groups of all markers up to its own; `path` has those of the earlier ones.
  unfoldable pub segments : String → String → List Marker → List (String × String)
  segments text path [] = []
  segments text path (m ∷ rest) =
      let end : ℕ = elim rest [ [] ↦ tx.len text | ◌∷◌ n later ↦ n.start ] in
      let sub_path = str_append path (in_parens m.group) in
      (sub_path, tx.strip (tx.drop_marker (tx.strip (tx.slice text m.start end))))
      ∷ segments text sub_path rest

  unfoldable pub with_preamble : String → List Marker → List (String × String)
  unfolding segments
  with_preamble text [] = ("", text) ∷ []
  with_preamble text (m ∷ rest) =
      let preamble = tx.strip (tx.slice text 0 m.start) in
      if ltb 0 m.start && not (is_blank preamble)
      then ("", preamble) ∷ segments text "" (m ∷ rest)
      else segments text "" (m ∷ rest)

  unfoldable pub split_article_paragraphs : String → List (String × String)
  unfolding with_preamble
  split_article_paragraphs text =
      if is_blank (tx.strip text)
      then []
      else with_preamble (tx.strip text) (tx.markers (tx.strip text))

  unfoldable pub recital_chunks : ℕ → List ParsedRecital → List Chunk
  recital_chunks idx [] = []
  recital_chunks idx (r ∷ rest) =
      let text = tx.strip r.text in
      elim (is_blank text) [
        | true ↦ recital_chunks idx rest
        | false ↦
            record {
              idx = idx;
              chunk_kind = recital;
              location = str_append "Recital " r.number;
              full_text = str_append "Recital " (str_append r.number (str_append ": " text));
              char_count = tx.len text + 20;
            }
            ∷ recital_chunks (suc idx) rest
      ]

  abbrev pub title_str : ParsedArticle → String
  title_str a =
      str_append "Article "
        (str_append a.article_number (if is_blank a.title then "" else str_append " — " a.title))

  abbrev pub article_location : ParsedArticle → String → String
  article_location a sub_path =
      let location = str_append "Art. " a.article_number in
      if is_blank sub_path then location else str_append location (in_parens sub_path)

  abbrev pub paragraph_chunk : ℕ → ParsedArticle → String → String → Chunk
  paragraph_chunk idx a sub_path sub_text =
      let full_text = str_append (title_str a) (str_append "\n" (tx.strip sub_text)) in
      record {
        idx = idx;
        chunk_kind = article_paragraph;
        location = article_location a sub_path;
        full_text = full_text;
        char_count = tx.len full_text;
      }

  unfoldable pub paragraph_chunks : ℕ → ParsedArticle → List (String × String) → List Chunk
  paragraph_chunks idx a [] = []
  paragraph_chunks idx a ((sub_path, sub_text) ∷ rest) = elim (is_blank (tx.strip sub_text)) [
    | true ↦ paragraph_chunks idx a rest
    | false ↦ paragraph_chunk idx a sub_path sub_text ∷ paragraph_chunks (suc idx) a rest
  ]

  -- One article; with no paragraphs its text is a chunk of its own.
  unfoldable pub article_chunks : ℕ → ParsedArticle → List Chunk
  unfolding split_article_paragraphs paragraph_chunks
  article_chunks idx a =
      let paragraphs = split_article_paragraphs a.text in
      paragraph_chunks idx a paragraphs
      ++ (if is_empty paragraphs && not (is_blank (tx.strip a.text))
          then paragraph_chunk (idx + length (paragraph_chunks idx a paragraphs)) a "" a.text ∷ []
          else [])

  unfoldable pub all_article_chunks : ℕ → List ParsedArticle → List Chunk
  unfolding article_chunks
  all_article_chunks idx [] = []
  all_article_chunks idx (a ∷ rest) =
      let here = article_chunks idx a in here ++ all_article_chunks (idx + length here) rest

  unfoldable pub annex_text : ParsedAnnex → String
  annex_text a = if is_blank a.raw_text then a.title else tx.strip a.raw_text

  unfoldable pub annex_chunks : ℕ → List ParsedAnnex → List Chunk
  unfolding annex_text
  annex_chunks idx [] = []
  annex_chunks idx (a ∷ rest) =
      let full_text = str_append "ANNEX " (
        str_append a.code
          (str_append " — " (str_append a.title (str_append "\n" (annex_text a))))) in
      elim (is_blank (annex_text a)) [
        | true ↦ annex_chunks idx rest
        | false ↦
            record {
              idx = idx;
              chunk_kind = annex;
              location = str_append "Annex " a.code;
              full_text = full_text;
              char_count = tx.len full_text;
            }
            ∷ annex_chunks (suc idx) rest
      ]

  unfoldable pub chunk_law : ParsedLaw → List Chunk
  unfolding recital_chunks all_article_chunks annex_chunks
  chunk_law p =
      let recitals = recital_chunks 0 p.recitals in
      let articles = all_article_chunks (length recitals) p.articles in
      recitals ++ (articles ++ annex_chunks (length recitals + length articles) p.annexes)
