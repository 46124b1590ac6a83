-- ===== src/Runner/Errors.antt =====
-- src/compliance/corpus_runner/errors.py: the error classes of an attempt and the retry policy.
use reguard.Prelude.{String, Bool, true, false, Option, none, some, str_eq, if◌then◌else◌}
use reguard.Verdict.Types.{RunStatus, error}

-- The tokens of the `error_class` columns. `no_error` is the empty string.
pub data ErrorClass : Type 0 where
  no_error : ErrorClass
  sha_resolution_error clone_error checkout_error container_start_error install_error : ErrorClass
  probe_error adapter_error evidence_schema_error timeout internal_scheduler_error : ErrorClass
  skipped_unsupported_scenario : ErrorClass

-- `error_class in RETRYABLE_ERROR_CLASSES`
unfoldable pub is_retryable_class : ErrorClass → Bool
is_retryable_class container_start_error = true
is_retryable_class timeout = true
is_retryable_class _ = false

unfoldable pub is_retryable : Option ErrorClass → Bool
unfolding is_retryable_class
is_retryable none = false
is_retryable (some c) = is_retryable_class c

-- `mapping.get(probe_status, PROBE_ERROR)`, after the test for `None` and `"ok"`
unfoldable pub classify_probe_status : Option String → ErrorClass
classify_probe_status none = no_error
classify_probe_status (some probe) =
    if str_eq probe "ok"
    then no_error
    else if str_eq probe "probe_failed"
    then probe_error
    else if str_eq probe "no_trajectory"
    then probe_error
    else if str_eq probe "adapter_raised"
    then adapter_error
    else probe_error

unfoldable pub classify_compliance_error : Option RunStatus → ErrorClass
classify_compliance_error (some error) = probe_error
classify_compliance_error _ = no_error

-- `c or PROBE_ERROR`
unfoldable pub or_probe_error : ErrorClass → ErrorClass
or_probe_error no_error = probe_error
or_probe_error c = c
