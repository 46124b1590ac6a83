-- ===== src/Pipeline/Examples.antt =====
-- Runs of one small repository through the pipeline, at concrete inputs.
use reguard.Prelude.{
  pos, true, false, Option, none, some, List, [], ◌∷◌, ◌≡◌, refl, ◌≢◌, ◌⊎◌, ◌↔◌, inl, inr,
}
use reguard.Verdict.Types.{Evidence, error}
use reguard.Verdict.Requirement.{Result, evaluate, get_requirement}
use reguard.Verdict.Article.{article_12_1}
use reguard.Pipeline.Types.{RunRecord, RepoAdapter, get_adapter}
use reguard.Pipeline.Evidence.{ProbeOutputs, Rendering, collect_evidence, with_probe_status}
use reguard.Pipeline.Evidence.Clean.{Observed, collect_evidence_cases}
use reguard.Pipeline.Persistence.{
  JsonModule, IsFaithful, Row, DedupKey, record_key, Loaded, absent, corrupt, found, insert_run,
  newest, load_run_by_dedup_key,
}
use reguard.Pipeline.Persistence.Keys.{DedupUnique}
use reguard.Pipeline.Persistence.Roundtrip.{
  without_image, rows_after, first_writer_wins, insert_run-refines, load-insert_run,
}
use reguard.Pipeline.Driver.{
  lookup_repo, target_of, verify_checkout, run_pipeline, Setup, Course, returns, ran, raised,
  Checkout, directory, run_record, run_one, run_with_prepared_checkout, run_path_mode, path_target,
}
use reguard.Pipeline.Driver.Again.{Known, known_key, IsSound, run_one-stored}
use reguard.Pipeline.Driver.Provenance.{run_path_mode-provenance}

-- A JSON text as the value it stands for.
abbrev JsonValue : Type 0
JsonValue = Result ⊎ Evidence

unfoldable read_result : JsonValue → Option Result
read_result (inl r) = some r
read_result (inr e) = none

unfoldable read_evidence : JsonValue → Option Evidence
read_evidence (inl r) = none
read_evidence (inr e) = some e

abbrev values : JsonModule JsonValue
values = record {
  dump_result = inl;
  load_result = read_result;
  dump_evidence = inr;
  load_evidence = read_evidence;
}

values-IsFaithful : IsFaithful values
unfolding read_result read_evidence
values-IsFaithful = record { result_lem = λ r. refl; evidence_lem = λ e. refl }

abbrev plain : Rendering
plain = record { show_int = λ n. "-1"; repr = λ s. s; first = λ n s. s }

abbrev logged : Evidence
logged = record {
  schema_version = "2";
  events = record { kind = some "step"; origin = some "SYSTEM_NATIVE" } ∷ [];
  extra = record {
    probe_status = none;
    probe_returncode = none;
    reason = none;
    observation_quality = none;
    recording_category = some "A";
    framework_persists_durably = true;
    framework_artifact_paths = "run.log" ∷ [];
    harness_artifact_paths = [];
  };
}

abbrev core_coder : RepoAdapter
core_coder = record { name = "corecoder"; version = "1"; parse_trajectory = λ t. inr logged }

abbrev setup : Setup JsonValue
setup = record {
  json = values;
  text = plain;
  adapters = ("he-yufeng/CoreCoder", core_coder) ∷ [];
  requirements = article_12_1 ∷ [];
  repositories = record { id = 7; full_name = "he-yufeng/CoreCoder" } ∷ [];
  runtime_version = "1.1.1";
}

abbrev written : ProbeOutputs
written = record { trajectory = some "{}"; stdout_log = ""; stderr_log = ""; returncode = pos 0 }

abbrev quiet : Course JsonValue
quiet = record {
  probe = ran written;
  clones = true;
  started_at = "t0";
  completed_at = "t1";
  duration = 4;
  now = 100;
  others = λ rows. rows;
}

abbrev killed : Course JsonValue
killed = record quiet { probe = raised "TimeoutExpired" }

abbrev known : Known setup "he-yufeng/CoreCoder" "AI_ACT_12_1_AUTOMATIC_EVENT_LOGGING"
unfolding lookup_repo get_adapter get_requirement
known = record {
  repo_row = record {
    repository_id = pos 7;
    full_name = "he-yufeng/CoreCoder";
    default_branch = "main";
  };
  in_db = refl;
  adapter = core_coder;
  adapted = refl;
  requirement = article_12_1;
  registered = refl;
}

abbrev first_run : RunRecord
first_run =
    run_record setup (target_of setup known.repo_row "he-yufeng/CoreCoder" "c0ffee") core_coder
      article_12_1 quiet

-- Another process stores the run while the probe of this one runs.
abbrev raced : Course JsonValue
raced = record killed { others = rows_after values 90 first_run }

found_readable : (l : Loaded) (r : RunRecord) → l ≡ found r → l ≢ corrupt
found_readable l r e h = cc

no_rows-IsSound : IsSound setup (known_key setup known "c0ffee") []
unfolding load_run_by_dedup_key newest
no_rows-IsSound = record { unique = tt; readable = λ h. cc }

first_run-absent : load_run_by_dedup_key values (record_key first_run) [] ≡ absent
unfolding load_run_by_dedup_key newest
first_run-absent = refl

raced-IsSound : IsSound setup (known_key setup known "c0ffee") (raced.others [])
unfolding run_record record_key known
raced-IsSound = record {
  unique = (insert_run-refines values 90 first_run [] values-IsFaithful tt).0;
  readable =
      found_readable _ (without_image first_run)
        (load-insert_run values 90 first_run [] values-IsFaithful tt first_run-absent);
}

insert_run-refines_example :
    DedupUnique (rows_after values 100 first_run [])
    × ((key : DedupKey)
        → load_run_by_dedup_key values key (rows_after values 100 first_run [])
          ≡ first_writer_wins values first_run (λ k. load_run_by_dedup_key values k []) key)
    × ((insert_run values 100 first_run [] ≡ none)
        ↔ (load_run_by_dedup_key values (record_key first_run) [] ≢ absent))
insert_run-refines_example = insert_run-refines values 100 first_run [] values-IsFaithful tt

run_one-stored_example :
    (r : RunRecord) × (after : List (Row JsonValue)) × (run_one setup "he-yufeng/CoreCoder" "c0ffee"
        "AI_ACT_12_1_AUTOMATIC_EVENT_LOGGING" raced []
      ≡ returns r after)
    × (load_run_by_dedup_key values (known_key setup known "c0ffee") after ≡ found r)
    × ((later : Course JsonValue)
        → (run_one setup "he-yufeng/CoreCoder" "c0ffee" "AI_ACT_12_1_AUTOMATIC_EVENT_LOGGING" later
              after
            ≡ returns r after)
          × (run_with_prepared_checkout setup "he-yufeng/CoreCoder" "c0ffee"
                "AI_ACT_12_1_AUTOMATIC_EVENT_LOGGING" later after
              ≡ returns r after))
run_one-stored_example =
    run_one-stored setup known "c0ffee" raced [] values-IsFaithful no_rows-IsSound raced-IsSound
      refl

collect_evidence_cases_example :
    ((e : Evidence) × Observed core_coder written e
      × (collect_evidence plain core_coder written ≡ with_probe_status e written "ok"))
    ⊎ (((e : Evidence) → ¬ Observed core_coder written e)
        × ((evaluate article_12_1 (collect_evidence plain core_coder written)).status ≡ error))
collect_evidence_cases_example = collect_evidence_cases plain core_coder article_12_1 written

path_run :
    run_path_mode setup
      (directory (some "c0ffee"))
      "he-yufeng/CoreCoder"
      "c0ffee"
      "AI_ACT_12_1_AUTOMATIC_EVENT_LOGGING"
      false
      quiet
      []
    ≡ returns
        (run_record setup
          (path_target setup false "he-yufeng/CoreCoder" "c0ffee")
          core_coder
          article_12_1
          quiet)
        []
unfolding run_path_mode verify_checkout run_pipeline get_adapter get_requirement path_target
path_run = refl

run_path_mode-provenance_example :
    (◌≡◌ {A = Checkout} (directory (some "c0ffee")) (directory (some "c0ffee")))
    × ((run_record setup
          (path_target setup false "he-yufeng/CoreCoder" "c0ffee")
          core_coder
          article_12_1
          quiet).repository.sha
        ≡ "c0ffee")
run_path_mode-provenance_example =
    run_path_mode-provenance setup (directory (some "c0ffee")) "he-yufeng/CoreCoder" "c0ffee"
      "AI_ACT_12_1_AUTOMATIC_EVENT_LOGGING" false quiet [] [] _ path_run
