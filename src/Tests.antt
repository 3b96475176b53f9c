-- ===== src/Tests.antt =====
-- Runs of the definitions on small inputs, and the theorems at concrete ones.
mod Buffers
mod Tables
mod Whole
mod Listing
mod Blocks
mod Split
mod Jobs
mod Image
mod Extract
mod Mount
mod Lookup
mod Compressors
mod Contexts
mod CommandLine
mod Sources
