-- ===== src/Symbol.antt =====
-- src/symbol: the names of functions.
pub mod NameResolver
pub mod Demangler
