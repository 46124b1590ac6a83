-- ===== src/Runner/Cache.antt =====
-- `gc` of src/compliance/corpus_runner/cache/source_cache.py: the eviction from the source cache.
--
-- Times are seconds; an entry's `last_used_at` is one that this module wrote, so that it parses. The
-- disk maps the path of a bare repository to its size, if it is there, and holds the readable
-- `cache_meta.json` files, which lie beside the repository that they name. `size_bytes` of the whole
-- cache, other files included, is a parameter, and no removal fails.
pub mod Oldest
use reguard.Prelude.{
  ℕ, suc, ◌+◌, ◌-◌, ◌*◌, ltb, leb, String, str_eq, Bool, true, false, not, ◌||◌, Option, none, some,
  List, [], ◌∷◌, keep, length, if◌then◌else◌,
}

pub record SourceCacheEntry : Type 0 where
  pub cache_key : String
  pub clone_url : String
  pub cache_path : String
  pub last_fetch_at : Option ℕ
  pub last_used_at : Option ℕ
  pub size_bytes : ℕ
  pub state : String
  pub error : Option String

pub record Disk : Type 0 where
  pub dir_size : String → Option ℕ
  pub metas : List SourceCacheEntry

-- `e.last_used_at or "1970-01-01T00:00:00Z"`
abbrev pub used_at : SourceCacheEntry → ℕ
used_at e = elim e.last_used_at [ none ↦ 0 | some t ↦ t ]

-- `sorted(..., key=...)`, which is stable
unfoldable pub insert_entry : SourceCacheEntry → List SourceCacheEntry → List SourceCacheEntry
insert_entry e [] = e ∷ []
insert_entry e (f ∷ rest) =
    if leb (used_at e) (used_at f) then e ∷ (f ∷ rest) else f ∷ insert_entry e rest

unfoldable pub sort_entries : List SourceCacheEntry → List SourceCacheEntry
unfolding insert_entry
sort_entries [] = []
sort_entries (e ∷ rest) = insert_entry e (sort_entries rest)

-- The two limits, each `None` by default, and the time of the call
pub record Limits : Type 0 where
  pub max_bytes : Option ℕ
  pub max_age_days : Option ℕ
  pub now : ℕ

unfoldable pub is_older : ℕ → ℕ → ℕ → Bool
is_older now days used = ltb (days * 86400) (now - used)

unfoldable pub is_too_old : Limits → SourceCacheEntry → Bool
unfolding is_older
is_too_old l e = elim l.max_age_days [
  | none ↦ false
  | some days ↦ elim e.last_used_at [ none ↦ false | some t ↦ is_older l.now days t ]
]

unfoldable pub is_over : Limits → ℕ → Bool
is_over l size = elim l.max_bytes [ none ↦ false | some b ↦ ltb b size ]

-- The variables of the loop
pub record Eviction : Type 0 where
  pub disk : Disk
  pub size : ℕ
  pub evicted : ℕ
  pub freed : ℕ

-- `shutil.rmtree(entry.cache_path)`, and the sidecar files
unfoldable pub remove_entry : SourceCacheEntry → Disk → Disk
remove_entry e d = record {
  dir_size = λ path. if str_eq path e.cache_path then none else d.dir_size path;
  metas = keep (λ (m : SourceCacheEntry). not (str_eq m.cache_path e.cache_path)) d.metas;
}

unfoldable pub evict : SourceCacheEntry → Eviction → Eviction
unfolding remove_entry
evict e v = elim (v.disk.dir_size e.cache_path) [
  | none ↦ v
  | some size_entry ↦ record {
    disk = remove_entry e v.disk;
    size = v.size - size_entry;
    evicted = suc v.evicted;
    freed = v.freed + size_entry;
  }
]

unfoldable pub gc_loop : Limits → List SourceCacheEntry → Eviction → Eviction
unfolding is_too_old is_over evict
gc_loop l [] v = v
gc_loop l (e ∷ rest) v =
    gc_loop l rest (if is_too_old l e || is_over l v.size then evict e v else v)

unfoldable pub gc : Limits → ℕ → Disk → Eviction
unfolding gc_loop sort_entries
gc l size d =
    gc_loop l (sort_entries d.metas) (record { disk = d; size = size; evicted = 0; freed = 0 })
