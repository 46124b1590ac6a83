-- ===== src/Runner/Examples/Creation.antt =====
-- The creation of a run for two repositories: git answers for one, and the other has a branch name pinned,
-- which is no commit.
use reguard.Prelude.{
  ℕ, ◌<◌, String, some, List, [], ◌∷◌, ◌++◌, ◌≡◌, ◌≢◌, refl, arith, str_eq, if◌then◌else◌,
}
use reguard.Runner.Tables.{run_pending, CorpusRun, ManifestRow, Db}
use reguard.Runner.Persistence.{load_corpus_run}
use reguard.Runner.Manifest.{
  ShaText, LsRemote, EligibleRow, CorpusRunConfig, last_run_id, create_corpus_run,
}
use reguard.Runner.Manifest.Frozen.{Lists, create_corpus_run-IsFrozen}

abbrev text : ShaText
text = record {
  matches = λ (s : String). str_eq s "abc";
  lines = λ (s : String). s ∷ [];
  before_tab = λ (s : String). some s;
}

abbrev remote : String → LsRemote
remote url =
    if str_eq url "git:haystack" then LsRemote.printed "abc" else LsRemote.exited "exit=128"

abbrev cfg : CorpusRunConfig
cfg = record {
  requirement_id = "AI_ACT_12_1_AUTOMATIC_EVENT_LOGGING";
  requirement_version = "1.4.0";
  scenario_id = "S1_LEGACY";
  max_workers = 2;
  max_attempts = 3;
  pinned_shas = ("gptme", "main") ∷ [];
}

abbrev eligible : List EligibleRow
eligible =
    record { id = 3; full_name = "haystack"; clone_url = "git:haystack" }
    ∷ (record { id = 4; full_name = "gptme"; clone_url = "git:gptme" } ∷ [])

abbrev empty : Db
empty = record {
  runs = [];
  manifest = [];
  jobs = [];
  attempts = [];
  evaluations = [];
  last_job_id = 0;
  last_attempt_id = 0;
  last_evaluation_id = 0;
}

create_corpus_run-IsFrozen_example :
    (rid : ℕ) × (after : Db) × (added : List ManifestRow) × (create_corpus_run text remote cfg
        eligible empty
      ≡ some (rid, after))
    × (last_run_id empty.runs < rid)
    × ((run : CorpusRun) × (load_corpus_run rid after ≡ some run) × (run.status ≡ run_pending))
    × (after.manifest ≡ empty.manifest ++ added)
    × Lists text rid 0 eligible added
create_corpus_run-IsFrozen_example =
    create_corpus_run-IsFrozen text remote cfg eligible empty refl ((distinct, tt), (tt, tt)) tt
  where
    distinct : ◌≢◌ {A = ℕ} 3 4
    distinct = omega arith
