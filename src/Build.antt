-- ===== src/Build.antt =====
-- src/build.py: the targets that ninja builds are chosen by shell-style patterns.
pub mod Pattern
pub mod Targets
