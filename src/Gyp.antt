-- ===== src/Gyp.antt =====
-- The project generator's input stage: src/tools/pylib_dbg.
pub mod Value
pub mod Errors
pub mod Names
pub mod Paths
pub mod Merge
pub mod Graph
pub mod Targets
pub mod Filters
pub mod Validate
pub mod Configurations
pub mod Settings
pub mod Options
pub mod Pruning
pub mod Parallel
pub mod Includes
pub mod Checked
pub mod Toolsets
pub mod Variables
pub mod Defaults
