-- ===== src/Runner/Examples/Validation.antt =====
-- The validator on the example's run.
use reguard.Prelude.{true, some, [], ◌∷◌, ◌≡◌, ◌≢◌, ◌↔◌, refl, All}
use reguard.Verdict.Types.{pass, fail}
use reguard.Runner.Tables.{Job, status_eq}
use reguard.Runner.Persistence.{job_with_id, update_evaluation_job_skipped}
use reguard.Runner.Terminalize.{is_writable, terminal_writes}
use reguard.Runner.Worker.{terminal_payload}
use reguard.Runner.Validator.{
  terminal_row_of, validate_terminal_state, missing_requirement_evaluation,
}
use reguard.Runner.Validator.Soundness.{IsSound, Meets, validate_terminal_state_iff}
use reguard.Runner.Validator.Skipped.{validate_terminal_state-skipped}
use reguard.Runner.Validator.Terminalized.{terminal_writes-IsSound}
use reguard.Runner.Examples.{job, repository, built, judged}
use reguard.Runner.Examples.Workers.{passed}

-- A completed job without an evaluation.
judged_alone :
    validate_terminal_state 7 (judged fail)
    ≡ record {
      job_id = 1;
      full_name = "deepset-ai/haystack";
      issue_class = missing_requirement_evaluation;
    }
      ∷ []
unfolding validate_terminal_state status_eq
judged_alone = refl

validate_terminal_state_iff_example :
    (validate_terminal_state 7 (judged fail) ≡ []) ↔ All (Meets 7 (judged fail)) (judged fail).jobs
validate_terminal_state_iff_example = validate_terminal_state_iff 7 (judged fail)

validate_terminal_state-skipped_example :
    validate_terminal_state 7 (update_evaluation_job_skipped 1 "no such scenario" 5 built) ≢ []
validate_terminal_state-skipped_example =
    validate_terminal_state-skipped 7 1 "no such scenario" 5 built job refl refl refl refl

job-is_writable : is_writable pass job ≡ true
unfolding is_writable
job-is_writable = refl

terminal_writes-IsSound_example :
    let db = terminal_writes (terminal_payload job passed 5) 5 built in
    (k : Job) × (job_with_id 1 db ≡ some k) × IsSound (terminal_row_of k db repository)
terminal_writes-IsSound_example =
    terminal_writes-IsSound job passed 5 built repository refl job-is_writable refl
