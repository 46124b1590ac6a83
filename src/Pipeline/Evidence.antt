-- ===== src/Pipeline/Evidence.antt =====
-- `ProbeOutputs`, `_with_probe_status` and `collect_evidence` of
-- src/compliance/pipeline/orchestrator.py.
--
-- The file at `trajectory_path` is its text, or `none` where it does not exist. Python's own
-- renderings of values are a parameter.
pub mod Clean
use reguard.Prelude.{
  ℕ, ℤ, pos, int_eq, String, Bool, false, Option, none, some, List, [], inl, inr, str_append,
  if◌then◌else◌,
}
use reguard.Verdict.Types.{Extra, Evidence}
use reguard.Pipeline.Types.{RepoAdapter}

pub record ProbeOutputs : Type 0 where
  pub trajectory : Option String
  pub stdout_log : String
  pub stderr_log : String
  pub returncode : ℤ

-- `f"{n}"`, `f"{s!r}"` and `s[:n]`
pub record Rendering : Type 0 where
  pub show_int : ℤ → String
  pub repr : String → String
  pub first : ℕ → String → String

-- The evidence of a probe that failed: no event, and an `extra` of three keys.
unfoldable pub failed_probe : String → ℤ → String → Evidence
failed_probe status returncode reason = record {
  schema_version = "2";
  events = [];
  extra = record {
    probe_status = some status;
    probe_returncode = some returncode;
    reason = some reason;
    observation_quality = none;
    recording_category = none;
    framework_persists_durably = false;
    framework_artifact_paths = [];
    harness_artifact_paths = [];
  };
}

unfoldable pub with_probe_status : Evidence → ProbeOutputs → String → Evidence
with_probe_status evidence outputs status = record {
  schema_version = evidence.schema_version;
  events = evidence.events;
  extra = record {
    probe_status = some status;
    probe_returncode = some outputs.returncode;
    reason = evidence.extra.reason;
    observation_quality = evidence.extra.observation_quality;
    recording_category = evidence.extra.recording_category;
    framework_persists_durably = evidence.extra.framework_persists_durably;
    framework_artifact_paths = evidence.extra.framework_artifact_paths;
    harness_artifact_paths = evidence.extra.harness_artifact_paths;
  };
}

-- The part of `collect_evidence` after the check of the return code.
unfoldable pub collect_trajectory :
    Rendering → RepoAdapter → ProbeOutputs → Option String → Evidence
unfolding failed_probe with_probe_status
collect_trajectory text adapter outputs none = failed_probe "no_trajectory" outputs.returncode (
    str_append "probe returned "
      (str_append (text.show_int outputs.returncode) " but no trajectory was written"))
collect_trajectory text adapter outputs (some file) = elim (adapter.parse_trajectory file) [
  | inl exception ↦
      failed_probe "adapter_raised" outputs.returncode
        (str_append "adapter.parse_trajectory raised: " exception)
  | inr evidence ↦ with_probe_status evidence outputs "ok"
]

unfoldable pub collect_evidence : Rendering → RepoAdapter → ProbeOutputs → Evidence
unfolding failed_probe collect_trajectory
collect_evidence text adapter outputs =
    if int_eq outputs.returncode (pos 0)
    then collect_trajectory text adapter outputs outputs.trajectory
    else failed_probe "probe_failed" outputs.returncode (
        str_append "probe returned " (
          str_append (text.show_int outputs.returncode)
            (str_append "; stderr=" (text.repr (text.first 16384 outputs.stderr_log)))))
