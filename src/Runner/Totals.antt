-- ===== src/Runner/Totals.antt =====
-- `set_corpus_run_counters_from_jobs` of src/compliance/corpus_runner/persistence.py: the aggregate
-- counters of a run, recomputed from the rows of its jobs.
pub mod Sums
use reguard.Prelude.{ℕ, ◌+◌, Bool, true, false, ◌&&◌, ◌||◌, Option, none, some, List, count}
use reguard.Verdict.Types.{RunStatus, pass, fail, unknown, unsupported, error}
use reguard.Runner.Tables.{
  JobStatus, pending, running, completed, skipped_unsupported_scenario, Tally, Job, Db,
}
use reguard.Runner.Persistence.{on_run, list_jobs_for_run}
use reguard.Runner.Terminalize.{has_status, is_completed}

abbrev pub is_skipped : JobStatus → Bool
is_skipped skipped_unsupported_scenario = true
is_skipped _ = false

abbrev pub is_null : Option RunStatus → Bool
is_null none = true
is_null (some s) = false

-- `compliance_status = 'ERROR' OR (compliance_status IS NULL AND job_status = 'completed')`
unfoldable pub is_error_row : Job → Bool
unfolding has_status
is_error_row j =
    has_status error j.compliance_status
    || (is_null j.compliance_status && is_completed j.job_status)

-- `job_status IN ('completed', 'skipped_unsupported_scenario')`
abbrev pub is_terminal : JobStatus → Bool
is_terminal s = is_completed s || is_skipped s

-- The seven sums over the selected rows.
unfoldable pub tally_of : List Job → Tally
unfolding has_status is_error_row
tally_of jobs = record {
  completed_jobs = count (λ j. is_terminal j.job_status) jobs;
  pass_count = count (λ j. has_status pass j.compliance_status) jobs;
  fail_count = count (λ j. has_status fail j.compliance_status) jobs;
  unknown_count = count (λ j. has_status unknown j.compliance_status) jobs;
  unsupported_count = count (λ j. has_status unsupported j.compliance_status) jobs;
  error_count = count is_error_row jobs;
  skipped_count = count (λ j. is_skipped j.job_status) jobs;
}

unfoldable pub set_corpus_run_counters_from_jobs : ℕ → Db → Db
unfolding on_run tally_of list_jobs_for_run
set_corpus_run_counters_from_jobs run db =
    on_run run (λ r. record r { tally = tally_of (list_jobs_for_run run db) }) db
