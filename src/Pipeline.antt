-- ===== src/Pipeline.antt =====
-- The pipeline that runs one requirement against one repository: src/compliance/pipeline.
pub mod Types
pub mod Evidence
pub mod Persistence
pub mod Driver
mod Examples
