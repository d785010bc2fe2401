-- ===== src/Analysis/ControlFlow.antt =====
-- Control-flow recovery (src/analysis/control_flow).
pub mod Instructions
pub mod Cfg
pub mod Extent
