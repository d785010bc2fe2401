-- ===== src/Disasm.antt =====
-- The disassembler subsystem (src/disasm).
pub mod Instruction
pub mod Mnemonics
pub mod Capstone
