-- ===== src/Runner/Cache/Oldest.antt =====
-- What an eviction removes, and in which order.
use reguard.Prelude.{
  ℕ, ◌≤◌, ◌<◌, ◌-◌, leb, String, str_eq, eq_iff, true, false, Option, some, ◌↔◌, Option-cases,
  if◌then◌else◌, ◌||◌, none, List, [], ◌∷◌, ◌++◌, ◌≡◌, ◌≢◌, refl, ap, ◌∙◌, ◌⊎◌, inl, inr, arith,
  All, All-map, All-right, Bool-cases,
}
use mathlib.Core.Path.{subst}
use reguard.Runner.Cache.{
  SourceCacheEntry, Disk, used_at, insert_entry, sort_entries, Limits, is_too_old, is_over,
  Eviction, remove_entry, evict, gc_loop, gc,
}

-- Every entry is used no later than those that come after it.
abbrev pub IsSorted : List SourceCacheEntry → Type 0
IsSorted [] = Unit
IsSorted (e ∷ rest) = All (λ f. used_at e ≤ used_at f) rest × IsSorted rest

insert_entry-All :
    (n : ℕ) (e : SourceCacheEntry) (es : List SourceCacheEntry)
    → n ≤ used_at e
    → All (λ f. n ≤ used_at f) es
    → All (λ f. n ≤ used_at f) (insert_entry e es)
unfolding insert_entry
insert_entry-All n e [] h k = (h, tt)
insert_entry-All n e (f ∷ es) h k = elim (Bool-cases (leb (used_at e) (used_at f))) [
  | inl first ↦ rw first (h, k)
  | inr later ↦ rw later (k.0, insert_entry-All n e es h k.1)
]

insert_entry-IsSorted :
    (e : SourceCacheEntry) (es : List SourceCacheEntry) → IsSorted es → IsSorted (insert_entry e es)
unfolding insert_entry
insert_entry-IsSorted e [] s = (tt, tt)
insert_entry-IsSorted e (f ∷ es) s = elim (Bool-cases (leb (used_at e) (used_at f))) [
  | inl first ↦
      let le : used_at e ≤ used_at f = ground arith in
      rw first (
        (
          le,
          All-map (λ g. used_at f ≤ used_at g) (λ g. used_at e ≤ used_at g) es (λ a h. omega arith)
              s.0,
        ),
        s,
      )
  | inr later ↦
      rw later
        (insert_entry-All (used_at f) e es (ground arith) s.0, insert_entry-IsSorted e es s.1)
]

sort_entries-IsSorted : (es : List SourceCacheEntry) → IsSorted (sort_entries es)
unfolding sort_entries
sort_entries-IsSorted [] = tt
sort_entries-IsSorted (e ∷ es) =
    insert_entry-IsSorted e (sort_entries es) (sort_entries-IsSorted es)

abbrev pub IsGone : Disk → SourceCacheEntry → Type 0
IsGone d e = d.dir_size e.cache_path ≡ none

-- Eviction only removes.
evict-stays_gone :
    (e : SourceCacheEntry) (v : Eviction) (path : String)
    → v.disk.dir_size path ≡ none
    → (evict e v).disk.dir_size path ≡ none
unfolding evict remove_entry
evict-stays_gone e v path h = ground arith

evict-IsGone : (e : SourceCacheEntry) (v : Eviction) → IsGone (evict e v).disk e
unfolding evict remove_entry
evict-IsGone e v = ground (arith, eq_iff e.cache_path e.cache_path)

evict-other :
    (e : SourceCacheEntry) (v : Eviction) (path : String)
    → path ≢ e.cache_path
    → (evict e v).disk.dir_size path ≡ v.disk.dir_size path
unfolding evict remove_entry
evict-other e v path h = ground (arith, eq_iff path e.cache_path)

gc_loop-stays_gone :
    (l : Limits) (es : List SourceCacheEntry) (v : Eviction) (path : String)
    → v.disk.dir_size path ≡ none
    → (gc_loop l es v).disk.dir_size path ≡ none
unfolding gc_loop
gc_loop-stays_gone l [] v path h = h
gc_loop-stays_gone l (e ∷ es) v path h = elim (Bool-cases (is_too_old l e || is_over l v.size)) [
  | inl out ↦ rw (out, gc_loop) (gc_loop-stays_gone l es _ path (evict-stays_gone e v path h))
  | inr stays ↦ rw (stays, gc_loop) (gc_loop-stays_gone l es v path h)
]

never_too_old : (l : Limits) (e : SourceCacheEntry) → l.max_age_days ≡ none → is_too_old l e ≡ false
unfolding is_too_old
never_too_old l e h = rw (h, is_too_old) refl

-- Within the limit nothing more is evicted.
gc_loop-within :
    (l : Limits) (es : List SourceCacheEntry) (v : Eviction)
    → l.max_age_days ≡ none
    → is_over l v.size ≡ false
    → gc_loop l es v ≡ v
unfolding gc_loop
gc_loop-within l [] v a h = refl
gc_loop-within l (e ∷ es) v a h =
    rw (never_too_old l e a, gc_loop) (rw (h, gc_loop) (gc_loop-within l es v a h))

-- The size is above the limit.
abbrev pub Over : Limits → ℕ → Type 0
Over l size = (b : ℕ) × (l.max_bytes ≡ some b) × (b < size)

is_over_iff : (l : Limits) (size : ℕ) → (is_over l size ≡ true) ↔ Over l size
unfolding is_over
is_over_iff l size = elim (Option-cases l.max_bytes) [
  | inl n ↦ rw (n, is_over) (λ h. absurd (ground arith), λ (b, e, h). absurd (ground arith))
  | inr (b, e) ↦ rw (e, is_over) (λ h. (b, refl, ground arith), λ (c, same, h). ground arith)
]

-- The directories without that of an entry
abbrev pub less : SourceCacheEntry → (String → Option ℕ) → String → Option ℕ
less e sizes path = if str_eq path e.cache_path then none else sizes path

-- The size once the directories of these entries are gone
abbrev pub size_without : ℕ → (String → Option ℕ) → List SourceCacheEntry → ℕ
size_without size sizes [] = size
size_without size sizes (e ∷ es) = elim (sizes e.cache_path) [
  | none ↦ size_without size sizes es
  | some n ↦ size_without (size - n) (less e sizes) es
]

-- The size that the earlier ones left was above the limit when each was removed.
abbrev pub Demanded : Limits → ℕ → (String → Option ℕ) → List SourceCacheEntry → Type 0
Demanded l size sizes [] = Unit
Demanded l size sizes (e ∷ es) = Over l size × (elim (sizes e.cache_path) [
  | none ↦ Demanded l size sizes es
  | some n ↦ Demanded l (size - n) (less e sizes) es
])

-- The entries that are removed come first; the paths of no such entry are as they were.
abbrev pub EvictsFirst : Limits → List SourceCacheEntry → Eviction → Eviction → Type 0
EvictsFirst l es v out =
    (gone : List SourceCacheEntry) × (kept : List SourceCacheEntry) × (es ≡ gone ++ kept)
    × All (IsGone out.disk) gone
    × ((¬ Over l out.size) ⊎ (kept ≡ []))
    × ((path : String)
        → All (λ g. path ≢ g.cache_path) gone
        → out.disk.dir_size path ≡ v.disk.dir_size path)
    × (out.size ≡ size_without v.size v.disk.dir_size gone)
    × Demanded l v.size v.disk.dir_size gone

evict-size :
    (e : SourceCacheEntry) (v : Eviction) (es : List SourceCacheEntry)
    → size_without (evict e v).size (evict e v).disk.dir_size es
      ≡ size_without v.size v.disk.dir_size (e ∷ es)
unfolding evict remove_entry
evict-size e v es = elim (Option-cases (v.disk.dir_size e.cache_path)) [
  | inl n ↦ rw (n, evict, size_without) refl
  | inr (k, n) ↦ rw (n, evict, size_without) refl
]

evict-Demanded :
    (l : Limits) (e : SourceCacheEntry) (v : Eviction) (es : List SourceCacheEntry)
    → Over l v.size
    → Demanded l (evict e v).size (evict e v).disk.dir_size es
    → Demanded l v.size v.disk.dir_size (e ∷ es)
unfolding evict remove_entry
evict-Demanded l e v es o = elim (Option-cases (v.disk.dir_size e.cache_path)) [
  | inl n ↦ rw (n, evict, Demanded) (λ h. (o, h))
  | inr (k, n) ↦ rw (n, evict, Demanded) (λ h. (o, h))
]

gc_loop-EvictsFirst :
    (l : Limits) (es : List SourceCacheEntry) (v : Eviction)
    → l.max_age_days ≡ none
    → EvictsFirst l es v (gc_loop l es v)
unfolding gc_loop
gc_loop-EvictsFirst l [] v a = ([], [], refl, tt, inr refl, (λ path h. refl), refl, tt)
gc_loop-EvictsFirst l (e ∷ es) v a = elim (Bool-cases (is_over l v.size)) [
  | inl over ↦
      let (gone, kept, split, removed, ends, others, left, demanded) =
        gc_loop-EvictsFirst l es (evict e v) a in
      rw (never_too_old l e a, gc_loop)
        (rw (over, gc_loop)
          (
            e ∷ gone,
            kept,
            ap (λ (xs : List SourceCacheEntry). e ∷ xs) split,
            (gc_loop-stays_gone l es (evict e v) e.cache_path (evict-IsGone e v), removed),
            ends,
            (λ path h. others path h.1 ∙ evict-other e v path h.0),
            left ∙ evict-size e v gone,
            evict-Demanded l e v gone ((is_over_iff l v.size).0 over) demanded,
          ))
  | inr within ↦ rw (gc_loop-within l (e ∷ es) v a within) (
    [],
    e ∷ es,
    refl,
    tt,
    inl (λ o. absurd (ground (arith, is_over_iff l v.size))),
    (λ path h. refl),
    refl,
    tt,
  )
]

sorted_split :
    (gone kept : List SourceCacheEntry)
    → IsSorted (gone ++ kept)
    → All (λ g. All (λ k. used_at g ≤ used_at k) kept) gone
sorted_split [] kept s = tt
sorted_split (g ∷ gone) kept s =
    (All-right (λ k. used_at g ≤ used_at k) gone kept s.0, sorted_split gone kept s.1)

-- With no limit of age, an eviction removes the entries that were used least recently: the sorted
-- entries are those whose repositories are gone afterwards, each used no later than any of the others,
-- and then the others; every path that is none of the removed ones stays as it was. When each of them was
-- removed, the size that the earlier ones left was above the limit; the size that all of them leave is
-- not, unless no entry is left.
pub gc-EvictsFirst :
    (l : Limits) (size : ℕ) (d : Disk)
    → l.max_age_days ≡ none
    → let out = gc l size d in
      (gone : List SourceCacheEntry) × (kept : List SourceCacheEntry) × (sort_entries d.metas
        ≡ gone ++ kept)
      × All (IsGone out.disk) gone
      × ((¬ Over l out.size) ⊎ (kept ≡ []))
      × ((path : String)
          → All (λ g. path ≢ g.cache_path) gone
          → out.disk.dir_size path ≡ d.dir_size path)
      × (out.size ≡ size_without size d.dir_size gone)
      × Demanded l size d.dir_size gone
      × All (λ g. All (λ k. used_at g ≤ used_at k) kept) gone
unfolding gc
gc-EvictsFirst l size d a =
    let start : Eviction = record { disk = d; size = size; evicted = 0; freed = 0 } in
    let (gone, kept, split, removed, ends, others, left, demanded) =
      gc_loop-EvictsFirst l (sort_entries d.metas) start a in
    (
      gone,
      kept,
      split,
      removed,
      ends,
      others,
      left,
      demanded,
      sorted_split gone kept (subst IsSorted split (sort_entries-IsSorted d.metas)),
    )
