-- ===== src/App.antt =====
-- The program: src/app and src/main.cc.
pub mod ResultPrinter
pub mod CommandLine
pub mod Main
