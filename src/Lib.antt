-- ===== src/Lib.antt =====
-- A verification library for Reguard's compliance engine: the verdict that a requirement test gives on
-- collected evidence, the pipeline that runs one requirement against one repository, the configured
-- integrations of `reguard check`, and the corpus runner that turns verdicts into rows of a SQLite
-- database.
--
-- The program. An adapter hands a bundle of evidence to a requirement test
-- (src/compliance/requirements/base.py), which runs its checks (for Article 12(1) of the AI Act those
-- of src/compliance/requirements/ai_act/article_12_1.py) and reduces them to PASS, FAIL, UNKNOWN or
-- ERROR. The pipeline (src/compliance/pipeline/driver.py) looks a run up in its table, probes the
-- repository, collects the evidence and stores the record (src/compliance/pipeline/persistence.py).
-- `reguard check` (src/compliance/cli/commands_check.py) resolves a reguard.yml to a recipe, observers
-- and a normalizer (src/compliance/integrations) and judges what they see. The corpus runner
-- (src/compliance/corpus_runner/executor.py) runs the pipeline for many repositories:
-- `build_jobs_for_run` makes one job per row of the manifest, worker threads take a slot, make an
-- attempt and terminalize the job in one transaction (src/compliance/corpus_runner/persistence.py), and
-- at the end of the run `run_corpus_run` recomputes the counters from the rows. A materializer
-- (src/compliance/corpus_runner/materializer.py) gives each attempt a workspace with its commit.
-- Between runs an eviction (src/compliance/corpus_runner/cache/source_cache.py) keeps the cache of sources
-- below its size. The repositories come from searches of GitHub: `discover`
-- (src/compliance/corpus/pipeline.py) gives each a status, a category and a confidence by the rules of
-- src/compliance/corpus/classifier.py, and `reclassify` applies the rules again to the rows of the
-- table. The requirements come from laws, whose parsed texts are cut into chunks
-- (src/compliance/legal/chunker.py) and whose obligations are sorted by whether a run can test them
-- (src/compliance/requirements/article_classifier.py).
--
-- The files.
--   Prelude: the library's names that all files share, Boolean tests on native numbers, integers, list
--     lemmas.
--   Verdict/Types: src/compliance/pipeline/types.py. Verdict/Requirement: `RequirementTest.evaluate` and
--     the registry of requirements. Verdict/Article: the Article 12(1) test, one function per check.
--   Verdict/Reduction, Verdict/Article/Recording, Verdict/Article/Passing: what the verdicts mean.
--   Pipeline/Types: the run record and the adapter's interface. Pipeline/Evidence: `collect_evidence` of
--     src/compliance/pipeline/orchestrator.py. Pipeline/Persistence: the table of runs.
--     Pipeline/Driver: the entry points.
--   Integrations/Yaml: the values of a configuration. Integrations/Registry, Integrations/Recipe: the
--     registries and recipe.py. Integrations/Build: `_build_integration` and `validate_env`.
--     Integrations/Resolver: `IntegrationResolver`. Integrations/Normalizer: normalizer.py.
--     Integrations/Langgraph: the shipped family, families/langgraph_state. Integrations/Check:
--     commands_check.py.
--   Runner/Errors: src/compliance/corpus_runner/errors.py. Runner/Counter: `ActiveContainerCounter`.
--   Runner/Tables: the tables of migrations/006 to 010. Runner/Persistence: the single statements.
--   Runner/Terminalize: `terminalize_job` and `TerminalPayload`.
--   Runner/Manifest: src/compliance/corpus_runner/sha_resolver.py and `create_corpus_run`.
--   Runner/Attempt: `_execute_one_attempt`. Runner/Worker: `_process_one_job_thread`.
--   Runner/Totals: `set_corpus_run_counters_from_jobs`. Runner/Build: `build_jobs_for_run`.
--   Runner/Validator: `validate_terminal_state`. Runner/Driver: `run_corpus_run` and its summary.
--   Runner/Cache: `gc` of source_cache.py. Runner/Checkout: its `fetch` and `materialize_checkout`.
--   Runner/Materializer: `RepositoryMaterializer` of src/compliance/corpus_runner/materializer.py, with the
--     workspaces of workspace/manager.py.
--   Corpus/Patterns: the tables of classifier.py. Corpus/Classifier: `classify`, with the checks that
--     reject (Rejections), the categories and the tiers. Corpus/Repositories: the rows of
--     corpus/pipeline.py. Corpus/Discovery, Corpus/Reclassify: `discover` and `reclassify`.
--   Legal/Signals, Legal/Articles: article_classifier.py. Legal/Chunks: chunker.py.
--   Verdict/Article/Examples, Pipeline/Examples, Integrations/Examples, Runner/Examples, Corpus/Examples,
--     Legal/Examples: concrete runs.
--
-- The state. A database is a record of lists of rows (`Db`; for the pipeline the list of the rows of
-- its table), and each statement is a function on it; an `UPDATE ... WHERE` is `update_where`, an
-- `INSERT` appends with the next id and is refused by the unique index. The slots and the peak are the
-- record `ActiveContainerCounter`. How SQLite answers a statement of the terminalization, what other
-- connections have committed before an attempt or during a probe, and what a checkout, a probe and `git
-- ls-remote` report, are parameters: functions chosen by the surroundings. So are the thread pool,
-- which a driver gets as a function of the pending jobs, Python's json and re modules and its
-- operations on texts and paths, the file system and the sizes of its directories, what git and tarfile
-- report to the materializer, what PyYAML loads, what GitHub answers to a search, and the contents of
-- the registries. A confidence is a number of ten-thousandths. Nobody else writes the table of
-- repositories during a discovery or a reclassification. The creation of a run uses the default
-- resolution of commits. An observer's state is its buffer of observations.
--
-- Bounds. `terminalize_loop` runs on the attempts that are left, from `terminalize_outer_attempts` as
-- the source has it, and `drive` on `attempt_limit - attempt`, so that neither needs other fuel.
--
-- Not modelled: what a thread pool does (the driver's theorem takes one thread), how threads interleave
-- within a call of the slot counter, the waits between attempts, a failure to open a connection, host
-- names and process ids; the messages of checks are kept as the values they show, and the texts of
-- exceptions in `error_message` are shortened where the source quotes them. Processes that a probe or a
-- recipe starts, and the import of a user's graph factory, are outside, as are the adapters' parsers,
-- the locks of the source cache, the capture of artifacts, GitHub's client, the parser and the
-- catalogues of the laws, and the command line's parsing and printing.
pub mod Prelude
pub mod Verdict
pub mod Runner
pub mod Integrations
pub mod Pipeline
pub mod Corpus
pub mod Legal
