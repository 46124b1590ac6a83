-- ===== src/Integrations.antt =====
-- The configured integrations and the command line's check: src/compliance/integrations and
-- src/compliance/cli/commands_check.py.
pub mod Yaml
pub mod Registry
pub mod Recipe
pub mod Build
pub mod Resolver
pub mod Normalizer
pub mod Langgraph
pub mod Check
mod Examples
