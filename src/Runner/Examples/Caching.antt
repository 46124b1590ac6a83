-- ===== src/Runner/Examples/Caching.antt =====
-- An eviction from a cache of two repositories, of which one fits.
use reguard.Prelude.{
  ℕ, ◌≤◌, String, str_eq, none, some, List, [], ◌∷◌, ◌++◌, ◌≡◌, ◌≢◌, refl, ◌⊎◌, All, if◌then◌else◌,
}
use reguard.Runner.Cache.{SourceCacheEntry, Disk, used_at, sort_entries, Limits, gc}
use reguard.Runner.Cache.Oldest.{IsGone, Over, size_without, Demanded, gc-EvictsFirst}

abbrev entry : String → ℕ → SourceCacheEntry
entry key used = record {
  cache_key = key;
  clone_url = key;
  cache_path = key;
  last_fetch_at = none;
  last_used_at = some used;
  size_bytes = 10;
  state = "ok";
  error = none;
}

abbrev disk : Disk
disk = record {
  dir_size = λ path.
      if str_eq path "haystack" then some 10 else if str_eq path "gptme" then some 10 else none;
  metas = entry "haystack" 9 ∷ (entry "gptme" 4 ∷ []);
}

abbrev limits : Limits
limits = record { max_bytes = some 15; max_age_days = none; now = 20 }

gc-EvictsFirst_example :
    let out = gc limits 20 disk in
    (gone : List SourceCacheEntry) × (kept : List SourceCacheEntry) × (sort_entries disk.metas
      ≡ gone ++ kept)
    × All (IsGone out.disk) gone
    × ((¬ Over limits out.size) ⊎ (kept ≡ []))
    × ((path : String)
        → All (λ g. path ≢ g.cache_path) gone
        → out.disk.dir_size path ≡ disk.dir_size path)
    × (out.size ≡ size_without 20 disk.dir_size gone)
    × Demanded limits 20 disk.dir_size gone
    × All (λ g. All (λ k. used_at g ≤ used_at k) kept) gone
gc-EvictsFirst_example = gc-EvictsFirst limits 20 disk refl
