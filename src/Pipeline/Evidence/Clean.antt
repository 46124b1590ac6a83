-- ===== src/Pipeline/Evidence/Clean.antt =====
-- What the verdict is when the probe or the adapter failed.
use reguard.Prelude.{
  ℤ, pos, int_eq, int_eq_iff, String, false, Option, none, some, ◌≡◌, refl, ◌⊎◌, inl, inr, arith,
  str_eq, Bool-cases,
}
use reguard.Verdict.Types.{Evidence, error}
use reguard.Verdict.Requirement.{RequirementTest, evaluate, evaluate_probed}
use reguard.Pipeline.Types.{RepoAdapter}
use reguard.Pipeline.Evidence.{
  ProbeOutputs, Rendering, failed_probe, with_probe_status, collect_trajectory, collect_evidence,
}

-- The probe ended well, left a trajectory, and the adapter read `evidence` from it.
pub record Observed (adapter : RepoAdapter) (outputs : ProbeOutputs) (evidence : Evidence)
    : Type 0 where
  pub clean : outputs.returncode ≡ pos 0
  pub file : String
  pub written : outputs.trajectory ≡ some file
  pub parsed : adapter.parse_trajectory file ≡ inr evidence

either : (r : String ⊎ Evidence) → ((x : String) × (r ≡ inl x)) ⊎ ((e : Evidence) × (r ≡ inr e))
either (inl x) = inl (x, refl)
either (inr e) = inr (e, refl)

failed_probe-error :
    (test : RequirementTest) (status : String) (reason : String) (code : ℤ)
    → str_eq status "ok" ≡ false
    → (evaluate test (failed_probe status code reason)).status ≡ error
unfolding failed_probe evaluate evaluate_probed
failed_probe-error test status reason code h = rw h refl

module _ (text : Rendering) (adapter : RepoAdapter) (test : RequirementTest) where
  collect_trajectory_cases :
      (outputs : ProbeOutputs) (t : Option String)
      → ((e : Evidence) × (file : String) × (t ≡ some file)
          × (adapter.parse_trajectory file ≡ inr e)
          × (collect_trajectory text adapter outputs t ≡ with_probe_status e outputs "ok"))
        ⊎ (((e : Evidence) (file : String)
              → t ≡ some file
              → ¬ (adapter.parse_trajectory file ≡ inr e))
            × ((evaluate test (collect_trajectory text adapter outputs t)).status ≡ error))
  unfolding collect_trajectory
  collect_trajectory_cases outputs none =
      inr (λ e file h. cc, failed_probe-error test "no_trajectory" _ _ refl)
  collect_trajectory_cases outputs (some file) = elim (either (adapter.parse_trajectory file)) [
    | inl (exception, e) ↦ inr (
      λ ev f h i. ground arith,
      rw (e, collect_trajectory) (failed_probe-error test "adapter_raised" _ _ refl),
    )
    | inr (ev, e) ↦ inl (ev, file, refl, e, rw (e, collect_trajectory) refl)
  ]

  -- Either the probe ended well and left a trajectory that the adapter could read, and the evidence
  -- is the adapter's with its status added, or the verdict of every requirement is ERROR.
  pub collect_evidence_cases :
      (outputs : ProbeOutputs)
      → ((e : Evidence) × Observed adapter outputs e
          × (collect_evidence text adapter outputs ≡ with_probe_status e outputs "ok"))
        ⊎ (((e : Evidence) → ¬ Observed adapter outputs e)
            × ((evaluate test (collect_evidence text adapter outputs)).status ≡ error))
  unfolding collect_evidence
  collect_evidence_cases outputs = elim (Bool-cases (int_eq outputs.returncode (pos 0))) [
    | inl e ↦
        let clean = (int_eq_iff outputs.returncode (pos 0)).0 e in
        elim (collect_trajectory_cases outputs outputs.trajectory) [
          | inl (ev, file, t, p, c) ↦
              inl (ev, record { clean = clean; file = file; written = t; parsed = p }, rw e c)
          | inr (n, c) ↦ inr (λ ev o. n ev o.file o.written o.parsed, rw e c)
        ]
    | inr e ↦ inr (
      λ ev o. ground (arith, int_eq_iff outputs.returncode (pos 0), o.clean),
      rw e (failed_probe-error test "probe_failed" _ _ refl),
    )
  ]
