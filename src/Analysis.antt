-- ===== src/Analysis.antt =====
-- The analysis subsystem (src/analysis): from an image to a list of functions.
pub mod CodeMap
pub mod EhFrame
pub mod RecursiveDisassembler
pub mod ControlFlow
pub mod FunctionAnalyzer
