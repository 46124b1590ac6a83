-- ===== src/Runner/Examples/Driving.antt =====
-- A whole run on one thread: two jobs, of which the second one's attempt raises.
use reguard.Prelude.{ℕ, zero, suc, none, some, [], ◌∷◌, ◌≡◌, refl, arith, All, length}
use reguard.Verdict.Types.{RunStatus, pass}
use reguard.Runner.Tables.{run_pending, run_completed, CorpusRun, ManifestRow, JobKey, Db}
use reguard.Runner.Persistence.{blank_job, load_corpus_run, list_pending_jobs, list_jobs_for_run}
use reguard.Runner.Terminalize.Verdicts.{HasVerdict}
use reguard.Runner.Attempt.{Report, raised, recorded}
use reguard.Runner.Worker.Records.{undisturbed}
use reguard.Runner.Totals.{tally_of}
use reguard.Runner.Build.{no_delta}
use reguard.Runner.Driver.{one_by_one, CorpusRunProgress, finished, run_corpus_run}
use reguard.Runner.Driver.Completion.{run_corpus_run-completes}

abbrev row : CorpusRun
row = record {
  id = 7;
  status = run_pending;
  requirement_id = "AI_ACT_12_1_AUTOMATIC_EVENT_LOGGING";
  requirement_version = "1.4.0";
  scenario_id = "S1_LEGACY";
  max_workers = 1;
  max_attempts = 2;
  total_jobs = 2;
  tally = no_delta;
  started_at = none;
  completed_at = none;
}

abbrev key : ℕ → JobKey
key repository = record {
  corpus_run_id = 7;
  repository_id = repository;
  requirement_id = "AI_ACT_12_1_AUTOMATIC_EVENT_LOGGING";
  requirement_version = "1.4.0";
  scenario_id = "S1_LEGACY";
}

abbrev entry : ℕ → ManifestRow
entry repository = record {
  corpus_run_id = 7;
  repository_id = repository;
  full_name = "haystack";
  clone_url = "git:haystack";
  resolved_sha = "abc";
  sha_resolution_class = some "ok";
  position = repository;
}

abbrev db : Db
db = record {
  runs = row ∷ [];
  manifest = entry 3 ∷ (entry 4 ∷ []);
  jobs = blank_job 1 (key 3) "abc" "haystack" "1" ∷ (blank_job 2 (key 4) "abc" "haystack" "1" ∷ []);
  attempts = [];
  evaluations = [];
  last_job_id = 2;
  last_attempt_id = 0;
  last_evaluation_id = 0;
}

abbrev reports : ℕ → ℕ → Report
reports zero n = recorded pass (some "ok") "" (some 40)
reports (suc zero) n = recorded pass (some "ok") "" (some 40)
reports (suc (suc id)) n = raised "no container"

run_corpus_run-completes_example :
    (p : CorpusRunProgress) × (after : Db) × (row' : CorpusRun) × (run_corpus_run
        (one_by_one (λ id. undisturbed (reports id)) 5)
        7
        none
        5
        db
      ≡ finished p after)
    × All (λ j. (v : RunStatus) × HasVerdict j.id v after) (list_pending_jobs 7 db)
    × (load_corpus_run 7 after ≡ some row')
    × (row'.status ≡ run_completed)
    × (row'.completed_at ≡ some 5)
    × (row'.tally ≡ tally_of (list_jobs_for_run 7 after))
    × (p.tally ≡ row'.tally)
    × (p.total_jobs ≡ length (list_pending_jobs 7 db))
unfolding load_corpus_run list_pending_jobs
run_corpus_run-completes_example =
    run_corpus_run-completes reports 7 5 db row refl (refl, (refl, tt)) (refl, (refl, tt))
      (omega arith) (omega arith)
