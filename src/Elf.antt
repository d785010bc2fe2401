-- ===== src/Elf.antt =====
-- The ELF subsystem (src/elf): the parsed image and the parser.
pub mod Types
pub mod Image
pub mod Parser
