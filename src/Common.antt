-- ===== src/Common.antt =====
-- src/common: status codes, errors, the byte reader, texts and the log.
pub mod Result
pub mod ByteReader
pub mod StringUtil
pub mod Logger
