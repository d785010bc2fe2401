-- ===== src/Lib.antt =====
-- FnFinder recovers the functions of an AArch64 ELF file.
--
-- The parser (src/elf) turns the bytes of a file into an image. The code map
-- (src/analysis/code_map) lists the image's executable regions. Entries of functions come from
-- symbols, from the entry point, from unwind tables (src/analysis/eh_frame_parser) and from a
-- traversal of the code. The boundary analysis (src/analysis/control_flow) walks the control flow
-- from each entry, bounds its function, and searches the gaps between functions for more. The name
-- resolver (src/symbol) names what was found, with the demangler's help. The command line (src/main.cc)
-- runs these on one file and prints the result (src/app).
--
-- Files and the code they model:
--   Base and its children: lists, ordered sets and maps for the standard containers, insertion sort
--     for std::sort, and Base/Words for the types of src/common/types.h. A uint64_t sum wraps by
--     add64, a difference by sub64; a plain `-` stands where the code has tested the order.
--   Common/Result: src/common/status_code.h and exception.h. A throw is `failure` with its code.
--   Common/ByteReader: src/common/byte_reader. The position is passed explicitly.
--   Common/StringUtil: src/common/string_util. A string is the list of its bytes.
--   Elf/Types, Elf/Image: the records of src/elf and the lookups of elf_image.cc. A pointer into
--     the file is its offset, with the count of bytes reported with it.
--   Elf/Parser and its children Entry, Symbols, Dynamic: src/elf/elf_parser.cc. run is `parse_bytes`.
--   Disasm/Instruction: src/disasm/instruction.h. The decoder is a parameter: any function from
--     bytes and an address to an instruction. `IsAarch64` states what an AArch64 decoder documents,
--     and is a hypothesis only where a theorem names it.
--   Disasm/Mnemonics: src/disasm/aarch64. Disasm/Capstone: src/disasm/capstone_disassembler, one
--     decoder in place of that parameter. What it takes from the vendored library, `cs_disasm_iter`,
--     is a parameter in its turn.
--   Symbol/NameResolver: src/symbol/name_resolver. The demangler is a parameter.
--   Symbol/Demangler and its children Tables, Literals, Grammar and Encoding:
--     src/symbol/itanium_demangler. A call that recurs is a value of `Call`; an access out of
--     range is `none`. A string longer than `limit` bytes, a parameter, throws: `too_long` records it,
--     and it leaves the calls as a failure does.
--   Analysis/CodeMap: src/analysis/code_map. Analysis/EhFrame and its child
--     Blobs: src/analysis/eh_frame_parser.
--   Analysis/ControlFlow/Instructions: code_patterns, decoded_instruction and instruction_cache of
--     src/analysis/control_flow. The cache is passed explicitly and returned.
--   Analysis/ControlFlow/Cfg: cfg_builder.cc, `walk` for the worklist loop of build, Cfg/Blocks for
--     buildBlocks. Analysis/ControlFlow/Extent: function_extent_analyzer.cc.
--   Analysis/RecursiveDisassembler: src/analysis/recursive_disassembler.
--   Analysis/FunctionAnalyzer: src/analysis/function_analyzer, which joins all of these.
--   App/ResultPrinter: src/app/result_printer. App/CommandLine and App/Main: src/main.cc. The standard
--     output is a text, and reading a file a parameter; `main` ends where the analysis starts. Common/Logger: src/common/logger.
-- The children of a module hold its proofs. Tests runs the model on small inputs.
--
-- Loops whose end is not structural run on fuel. `walk` has a round for each address of its window;
-- carve_gap a round for each byte of its gap; the unwind loop a round for each byte of the table;
-- the LEB128 loop one for each byte that remains, and on none the read of a byte throws; a hash
-- chain one for each byte, behind which its test of the bounds fails; to_hex has sixteen digits and
-- a decimal number twenty. The traversal has a round for each address below the end of the code.
-- The demangler has four calls for each position of the name and four more; to run out
-- of them is `none` as well.
--
-- Not modelled: reading the file, the texts of errors, the calls of the log from the other parts, the
-- vendored disassembler and its closing; memory that runs out in the parser or the analysis, and so
-- the exit code of an analysis that throws or does not end.
pub mod Base
pub mod Elf
pub mod Common
pub mod Disasm
pub mod Symbol
pub mod Analysis
pub mod App
pub mod Tests
