-- ===== src/Corpus/Discovery/Growth.antt =====
-- What a discovery adds to the table.
use reguard.Prelude.{
  ℕ, suc, ◌+◌, ◌≤◌, ◌==◌, ltb, String, Bool, true, false, not, ◌&&◌, Option, none, some, List, [],
  ◌∷◌, ◌++◌, ◌≡◌, refl, sym, ap, ◌∙◌, inl, inr, arith, All, All-append, keep, any, length,
  length-append, Bool-cases, Option-cases,
}
use mathlib.Core.List.{append_assoc, append-nil}
use mathlib.Core.Path.{subst}
use reguard.Corpus.Classifier.{RepoText, Classification, classify}
use reguard.Corpus.Repositories.{AgentRepository, is_enabled}
use reguard.Corpus.Discovery.{
  GithubText, GithubItem, RunStats, new_stats, NewRow, Collected, is_python, is_full, add_row,
  pass_language, collect_item, collect_items, fetched_items, collect_answer, collect_queries,
  last_id, built_row, repo_to_row, is_taken, insert, insert_all, is_known, collected, discover,
}

abbrev pub Within : Option ℕ → ℕ → Type 0
Within none k = Unit
Within (some n) k = k ≤ n

module _ (text : RepoText) (min_stars : ℕ) where
  -- A Python repository with enough stars, as it is classified
  abbrev IsNew : NewRow → Type 0
  IsNew n =
      (n.item.id ≡ some n.github_id)
      × (is_python text n.item.repo ≡ true)
      × (min_stars ≤ n.item.repo.stargazers_count)
      × (n.classification ≡ classify text n.item.repo)

  abbrev IsCollected : Option ℕ → Collected → Type 0
  IsCollected max_total s =
      All IsNew s.new_rows × Within max_total (length s.new_rows) × (s.stats.inserted ≡ 0)

  Within-suc :
      (max_total : Option ℕ) (s : Collected)
      → is_full max_total s ≡ false
      → Within max_total (suc (length s.new_rows))
  unfolding is_full
  Within-suc none s h = tt
  Within-suc (some n) s h = ground arith

  add_row-IsCollected :
      (max_total : Option ℕ) (query : String) (item : GithubItem) (id : ℕ) (s : Collected)
      → Within max_total (suc (length s.new_rows))
      → item.id ≡ some id
      → is_python text item.repo ≡ true
      → min_stars ≤ item.repo.stargazers_count
      → IsCollected max_total s
      → IsCollected max_total (add_row text query item id s)
  unfolding add_row
  add_row-IsCollected max_total query item id s room e python stars h = (
    All-append IsNew s.new_rows _ h.0 ((e, python, stars, refl), tt),
    subst (Within max_total) (sym (length-append s.new_rows _ ∙ omega arith)) room,
    h.2,
  )

  pass_language-IsCollected :
      (max_total : Option ℕ) (query : String) (item : GithubItem) (id : ℕ) (s : Collected)
      → Within max_total (suc (length s.new_rows))
      → item.id ≡ some id
      → is_python text item.repo ≡ true
      → IsCollected max_total s
      → IsCollected max_total (pass_language text query min_stars item id s)
  unfolding pass_language
  pass_language-IsCollected max_total query item id s room e python h =
      let stats = s.stats in
      let passed : Collected = record s {
        stats = record stats { after_lang_filter = suc stats.after_lang_filter };
      } in
      elim (Bool-cases (ltb 0 min_stars && ltb item.repo.stargazers_count min_stars)) [
        | inl few ↦ rw few h
        | inr enough ↦
            rw enough
              (add_row-IsCollected max_total query item id passed room e python (ground arith) h)
      ]

  collect_item-IsCollected :
      (max_total : Option ℕ) (query : String) (item : GithubItem) (s : Collected)
      → is_full max_total s ≡ false
      → IsCollected max_total s
      → IsCollected max_total (collect_item text query min_stars item s)
  unfolding collect_item
  collect_item-IsCollected max_total query item s room h = elim (Option-cases item.id) [
    | inl n ↦ rw (n, collect_item) h
    | inr (id, e) ↦ elim (Bool-cases (any (λ i. i == id) s.seen_github_ids)) [
      | inl old ↦ rw (e, collect_item) (rw old h)
      | inr fresh ↦ elim (Bool-cases (is_python text item.repo)) [
        | inl python ↦
            rw (e, collect_item)
              (rw fresh (
                rw python (
                  pass_language-IsCollected max_total query item id s (Within-suc max_total s room)
                    e python h)))
        | inr other ↦ rw (e, collect_item) (rw fresh (rw other h))
      ]
    ]
  ]

  collect_items-IsCollected :
      (max_total : Option ℕ) (query : String) (items : List GithubItem) (s : Collected)
      → IsCollected max_total s
      → IsCollected max_total (collect_items text query min_stars max_total items s)
  unfolding collect_items
  collect_items-IsCollected max_total query [] s h = h
  collect_items-IsCollected max_total query (item ∷ items) s h =
      elim (Bool-cases (is_full max_total s)) [
        | inl full ↦ rw (full, collect_items) h
        | inr room ↦
            rw (room, collect_items)
              (collect_items-IsCollected max_total query items _
                (collect_item-IsCollected max_total query item s room h))
      ]

  collect_answer-IsCollected :
      (max_total : Option ℕ) (query : String) (answer : Option (List GithubItem)) (s : Collected)
      → IsCollected max_total s
      → IsCollected max_total (collect_answer text query min_stars max_total answer s)
  unfolding collect_answer fetched_items
  collect_answer-IsCollected max_total query none s h = h
  collect_answer-IsCollected max_total query (some items) s h =
      collect_items-IsCollected max_total query items _ h

  collect_queries-IsCollected :
      (search : String → Option (List GithubItem)) (max_total : Option ℕ) (queries : List String)
      (s : Collected)
      → IsCollected max_total s
      → IsCollected max_total (collect_queries text search min_stars max_total queries s)
  unfolding collect_queries
  collect_queries-IsCollected search max_total [] s h = h
  collect_queries-IsCollected search max_total (query ∷ queries) s h =
      elim (Bool-cases (is_full max_total s)) [
        | inl full ↦ rw (full, collect_queries) h
        | inr room ↦
            rw (room, collect_queries)
              (collect_queries-IsCollected search max_total queries _
                (collect_answer-IsCollected max_total query (search query) s h))
      ]

-- A row that a discovery adds: what it comes from, and that it is new.
abbrev pub IsDiscovered : RepoText → ℕ → List AgentRepository → AgentRepository → Type 0
IsDiscovered text min_stars table row =
    (item : GithubItem) × (item.id ≡ some row.github_id)
    × (is_python text item.repo ≡ true)
    × (min_stars ≤ row.stars)
    × (row.stars ≡ item.repo.stargazers_count)
    × (row.primary_language ≡ item.repo.language)
    × (row.relevance_status ≡ (classify text item.repo).relevance_status)
    × (row.agent_category ≡ (classify text item.repo).agent_category)
    × (row.enabled ≡ is_enabled row.relevance_status)
    × (is_known table row.github_id ≡ false)

module _ (tx : GithubText) (min_stars : ℕ) (known : List AgentRepository) where
  -- What is to be inserted
  abbrev IsFresh : NewRow → Type 0
  IsFresh n = IsNew tx.text min_stars n × (is_known known n.github_id ≡ false)

  built_row-IsDiscovered :
      (id : ℕ) (n : NewRow) (full_name : String)
      → IsFresh n
      → IsDiscovered tx.text min_stars known (built_row tx id n full_name)
  unfolding built_row
  built_row-IsDiscovered id n full_name ((e, python, stars, c), fresh) = (
    n.item,
    e,
    python,
    stars,
    refl,
    refl,
    ap (λ (k : Classification). k.relevance_status) c,
    ap (λ (k : Classification). k.agent_category) c,
    refl,
    fresh,
  )

  repo_to_row-IsDiscovered :
      (id : ℕ) (n : NewRow) (row : AgentRepository)
      → IsFresh n
      → repo_to_row tx id n ≡ some row
      → IsDiscovered tx.text min_stars known row
  unfolding repo_to_row
  repo_to_row-IsDiscovered id n row new h = elim (Option-cases n.item.repo.full_name) [
    | inl none' ↦ absurd (ground arith)
    | inr (full_name, f) ↦
        let same : built_row tx id n full_name ≡ row = ground arith in
        subst (IsDiscovered tx.text min_stars known) same
          (built_row-IsDiscovered id n full_name new)
  ]

  -- The rows that the loop adds
  abbrev Adds :
      List NewRow → RunStats → List AgentRepository → RunStats × List AgentRepository → Type 0
  Adds ns stats table out =
      (added : List AgentRepository) × (out.1 ≡ table ++ added)
      × All (IsDiscovered tx.text min_stars known) added
      × (out.0.inserted ≡ stats.inserted + length added)
      × (length added ≤ length ns)

  Adds-nothing :
      (n : NewRow) (ns : List NewRow) (stats : RunStats) (table : List AgentRepository)
      (out : RunStats × List AgentRepository)
      → Adds ns stats table out
      → Adds (n ∷ ns) stats table out
  Adds-nothing n ns stats table out (added, grown, new, inserted, short) =
      (added, grown, new, inserted, omega arith)

  insert_all-Adds :
      (ns : List NewRow) (stats : RunStats) (table : List AgentRepository)
      → All IsFresh ns
      → Adds ns stats table (insert_all tx ns stats table)
  unfolding insert_all insert
  insert_all-Adds [] stats table h = ([], sym (append-nil table), tt, omega arith, omega arith)
  insert_all-Adds (n ∷ ns) stats table h =
      elim (Option-cases (repo_to_row tx (suc (last_id table)) n)) [
        | inl e ↦
            rw (e, insert_all)
              (Adds-nothing n ns stats table (insert_all tx ns stats table)
                (insert_all-Adds ns stats table h.1))
        | inr (row, e) ↦ elim (Bool-cases (any (is_taken row) table)) [
          | inl taken ↦
              rw (e, insert_all)
                (rw (taken, insert_all)
                  (Adds-nothing n ns stats table (insert_all tx ns stats table)
                    (insert_all-Adds ns stats table h.1)))
          | inr free ↦
              let stats' : RunStats = record stats { inserted = suc stats.inserted } in
              let (added, grown, new, inserted, short) =
                insert_all-Adds ns stats' (table ++ (row ∷ [])) h.1 in
              rw (e, insert_all)
                (rw (free, insert_all)
                  (
                    row ∷ added,
                    grown ∙ append_assoc table (row ∷ []) added,
                    (repo_to_row-IsDiscovered (suc (last_id table)) n row h.0 e, new),
                    omega arith,
                    omega arith,
                  ))
        ]
      ]

kept_fresh :
    (text : RepoText) (min_stars : ℕ) (table : List AgentRepository) (ns : List NewRow)
    → All (IsNew text min_stars) ns
    → All
        (λ n. IsNew text min_stars n × (is_known table n.github_id ≡ false))
        (keep (λ (n : NewRow). not (is_known table n.github_id)) ns)
kept_fresh text min_stars table [] h = tt
kept_fresh text min_stars table (n ∷ ns) h = elim (Bool-cases (is_known table n.github_id)) [
  | inl old ↦ rw old (kept_fresh text min_stars table ns h.1)
  | inr new ↦ rw new ((h.0, new), kept_fresh text min_stars table ns h.1)
]

length-keep_le {ℓ} : {A : Type ℓ} (p : A → Bool) (xs : List A) → length (keep p xs) ≤ length xs
length-keep_le p [] = omega arith
length-keep_le p (x ∷ xs) = ground (arith, length-keep_le p xs)

Within-zero : (max_total : Option ℕ) → Within max_total 0
Within-zero none = tt
Within-zero (some n) = omega arith

Within-le : (max_total : Option ℕ) (j k : ℕ) → j ≤ k → Within max_total k → Within max_total j
Within-le none j k h w = tt
Within-le (some n) j k h w = omega arith

-- Whatever GitHub answers, a discovery keeps every row of the table as it is and appends rows, at most
-- `max_total` of them with the rejected ones, as many as the statistics say are inserted. Each is a Python repository of an
-- answer with at least `min_stars` stars and an id that the table did not have, with the status and the
-- category of its classification, and is enabled unless it is rejected.
pub discover-grows :
    (tx : GithubText) (search : String → Option (List GithubItem)) (queries : List String)
    (min_stars : ℕ) (max_total : Option ℕ) (table : List AgentRepository)
    → let out = discover tx search queries min_stars max_total table in
      (added : List AgentRepository) × (out.1 ≡ table ++ added)
      × All (IsDiscovered tx.text min_stars table) added
      × (out.0.inserted ≡ length added)
      × Within max_total (length added)
unfolding discover collected
discover-grows tx search queries min_stars max_total table =
    let start : Collected = record { stats = new_stats; new_rows = []; seen_github_ids = [] } in
    let s = collect_queries tx.text search min_stars max_total queries start in
    let h =
      collect_queries-IsCollected tx.text min_stars search max_total queries start
        (tt, Within-zero max_total, refl) in
    let (added, grown, new, inserted, short) =
      insert_all-Adds tx min_stars table _ _ table
        (kept_fresh tx.text min_stars table s.new_rows h.0) in
    (
      added,
      grown,
      new,
      inserted ∙ ap (λ (k : ℕ). k + length added) h.2 ∙ omega arith,
      Within-le max_total _ (length s.new_rows)
          (omega (
            arith,
            short,
            length-keep_le (λ (n : NewRow). not (is_known table n.github_id)) s.new_rows,
          ))
          h.1,
    )
