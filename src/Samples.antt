-- ===== src/Samples.antt =====
-- The theorems of the library at concrete inputs, and runs of the modelled code.
mod Building
mod Configured
mod Cycles
mod Defaults
mod Graphs
mod Loading
mod Merging
mod Released
mod Values
mod Variables
mod Wildcards
