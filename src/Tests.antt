-- ===== src/Tests.antt =====
-- Tests on concrete inputs, and the theorems applied there.
mod Samples
mod CodeMap
mod Cfg
mod Extent
mod Parsers
mod Names
mod Analyzer
mod Program
mod Demangler
