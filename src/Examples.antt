-- ===== src/Examples.antt =====
-- Runs of the definitions, and the theorems at concrete inputs.
mod Checking
mod Reading
mod Compiling
mod Output
mod Parsing
mod Tables
