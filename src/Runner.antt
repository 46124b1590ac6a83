-- ===== src/Runner.antt =====
-- The corpus runner: src/compliance/corpus_runner/errors.py, persistence.py and executor.py.
pub mod Errors
pub mod Counter
pub mod Tables
pub mod Persistence
pub mod Terminalize
pub mod Attempt
pub mod Worker
pub mod Totals
pub mod Driver
pub mod Cache
pub mod Checkout
pub mod Materializer
pub mod Manifest
pub mod Build
pub mod Validator
mod Examples
