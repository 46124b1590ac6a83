-- ===== src/Legal/Chunks/Contents.antt =====
-- What the chunks say, whatever their numbers.
use reguard.Prelude.{
  ℕ, suc, ◌+◌, String, str_append, Bool, true, false, not, ◌&&◌, List, [], ◌∷◌, ◌++◌, map, keep,
  ◌≡◌, refl, ap, ◌∙◌, inl, inr, is_empty, length, Bool-cases, if◌then◌else◌,
}
use reguard.Legal.Chunks.{
  ChunkText, ParsedRecital, ParsedArticle, ParsedAnnex, Chunk, is_blank, title_str,
  article_location, paragraph_chunk, split_article_paragraphs, recital_chunks, paragraph_chunks,
  article_chunks, all_article_chunks, annex_text, annex_chunks,
}

-- The location, the text and the count
abbrev pub Content : Type 0
Content = String × String × ℕ

abbrev pub content : Chunk → Content
content c = (c.location, c.full_text, c.char_count)

content-append : (cs ds : List Chunk) → map content (cs ++ ds) ≡ map content cs ++ map content ds
content-append [] ds = refl
content-append (c ∷ cs) ds = ap (λ (xs : List Content). content c ∷ xs) (content-append cs ds)

module _ (tx : ChunkText) where
  abbrev pub recital_content : ParsedRecital → Content
  recital_content r = (
    str_append "Recital " r.number,
    str_append "Recital " (str_append r.number (str_append ": " (tx.strip r.text))),
    tx.len (tx.strip r.text) + 20,
  )

  abbrev pub paragraph_content : ParsedArticle → String × String → Content
  paragraph_content a (path, text) =
      let full_text = str_append (title_str tx a) (str_append "\n" (tx.strip text)) in
      (article_location tx a path, full_text, tx.len full_text)

  -- The paragraphs of an article that say something, or the whole article if it has none.
  abbrev pub article_contents : ParsedArticle → List Content
  article_contents a =
      let paragraphs = split_article_paragraphs tx a.text in
      map (paragraph_content a)
        (keep (λ (p : String × String). not (is_blank (tx.strip p.1))) paragraphs)
      ++ (if is_empty paragraphs && not (is_blank (tx.strip a.text))
          then paragraph_content a ("", a.text) ∷ []
          else [])

  abbrev pub all_article_contents : List ParsedArticle → List Content
  all_article_contents [] = []
  all_article_contents (a ∷ as') = article_contents a ++ all_article_contents as'

  abbrev pub annex_content : ParsedAnnex → Content
  annex_content a =
      let full_text = str_append "ANNEX " (
        str_append a.code
          (str_append " — " (str_append a.title (str_append "\n" (annex_text tx a))))) in
      (str_append "Annex " a.code, full_text, tx.len full_text)

  pub recital_chunks-content :
      (n : ℕ) (rs : List ParsedRecital)
      → map content (recital_chunks tx n rs)
        ≡ map recital_content (keep (λ (r : ParsedRecital). not (is_blank (tx.strip r.text))) rs)
  unfolding recital_chunks
  recital_chunks-content n [] = refl
  recital_chunks-content n (r ∷ rs) = elim (Bool-cases (is_blank (tx.strip r.text))) [
    | inl blank ↦ rw (blank, recital_chunks) (recital_chunks-content n rs)
    | inr full ↦
        rw (full, recital_chunks)
          (ap (λ (cs : List Content). recital_content r ∷ cs) (recital_chunks-content (suc n) rs))
  ]

  paragraph_chunks-content :
      (n : ℕ) (a : ParsedArticle) (ps : List (String × String))
      → map content (paragraph_chunks tx n a ps)
        ≡ map
            (paragraph_content a)
            (keep (λ (p : String × String). not (is_blank (tx.strip p.1))) ps)
  unfolding paragraph_chunks
  paragraph_chunks-content n a [] = refl
  paragraph_chunks-content n a ((path, text) ∷ ps) = elim (Bool-cases (is_blank (tx.strip text))) [
    | inl blank ↦ rw (blank, paragraph_chunks) (paragraph_chunks-content n a ps)
    | inr full ↦
        rw (full, paragraph_chunks)
          (ap (λ (cs : List Content). paragraph_content a (path, text) ∷ cs)
            (paragraph_chunks-content (suc n) a ps))
  ]

  article_chunks-content :
      (n : ℕ) (a : ParsedArticle) → map content (article_chunks tx n a) ≡ article_contents a
  unfolding article_chunks
  article_chunks-content n a =
      let ps = split_article_paragraphs tx a.text in
      let cs = paragraph_chunks tx n a ps in
      content-append cs _
      ∙ rw (paragraph_chunks-content n a ps) (
          ap
            (λ (ends : List Content).
              map (paragraph_content a)
                (keep (λ (p : String × String). not (is_blank (tx.strip p.1))) ps)
              ++ ends)
            (whole (is_empty ps && not (is_blank (tx.strip a.text)))))
    where
      whole :
          (b : Bool)
          → map content (
              if b
              then paragraph_chunk tx
                  (n + length (paragraph_chunks tx n a (split_article_paragraphs tx a.text)))
                  a
                  ""
                  a.text
                ∷ []
              else [])
            ≡ (if b then paragraph_content a ("", a.text) ∷ [] else [])
      whole true = refl
      whole false = refl

  pub all_article_chunks-content :
      (n : ℕ) (as' : List ParsedArticle)
      → map content (all_article_chunks tx n as') ≡ all_article_contents as'
  unfolding all_article_chunks
  all_article_chunks-content n [] = refl
  all_article_chunks-content n (a ∷ as') =
      content-append (article_chunks tx n a) _
      ∙ rw (article_chunks-content n a) (
          ap (λ (cs : List Content). article_contents a ++ cs)
            (all_article_chunks-content (n + length (article_chunks tx n a)) as'))

  pub annex_chunks-content :
      (n : ℕ) (as' : List ParsedAnnex)
      → map content (annex_chunks tx n as')
        ≡ map annex_content (keep (λ (a : ParsedAnnex). not (is_blank (annex_text tx a))) as')
  unfolding annex_chunks
  annex_chunks-content n [] = refl
  annex_chunks-content n (a ∷ as') = elim (Bool-cases (is_blank (annex_text tx a))) [
    | inl blank ↦ rw (blank, annex_chunks) (annex_chunks-content n as')
    | inr full ↦
        rw (full, annex_chunks)
          (ap (λ (cs : List Content). annex_content a ∷ cs) (annex_chunks-content (suc n) as'))
  ]
