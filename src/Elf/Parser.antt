-- ===== src/Elf/Parser.antt =====
-- The ELF parser, from bytes to an image: src/elf/elf_parser.h and elf_parser.cc. Reading the file
-- (`parseFile`) is left out. An offset such as `base + 4` is used only behind a check that it is in
-- bounds, so it does not wrap around.
pub mod Entry
pub mod Dynamic
pub mod Symbols
pub mod Headers
pub mod SectionSymbols
pub mod Totality
pub mod Accepted
use fn_finder.Base.{
  ℕ, zero, suc, ◌+◌, ◌*◌, Bool, true, false, ◌&&◌, ◌||◌, List, [], ◌∷◌, Option, none, some, ltb,
  leb, ◌==◌, if◌then◌else◌, get_elem?, map,
}
use fn_finder.Base.Words.{Address, add64}
use fn_finder.Common.Result.{
  Result, failure, done, ◌>>=◌, ◌>>◌, require, not_elf, unsupported_elf, malformed_elf,
}
use fn_finder.Common.ByteReader.{
  ByteReader, make_reader, size, in_bounds, u8, u16, u32, u64, string_at,
}
use fn_finder.Elf.Types.{ElfImage, ElfSection, ElfSegment, ElfSymbol, shn_x_index}
use Symbols.{parse_symbols}
use Entry.{stride_of}

abbrev elf_class64 : ℕ
elf_class64 = 2

abbrev elf_data2_lsb : ℕ
elf_data2_lsb = 1

abbrev em_aarch64 : ℕ
em_aarch64 = 183

abbrev ehdr_size : ℕ
ehdr_size = 64

abbrev phdr_size : ℕ
phdr_size = 56

abbrev pub shdr_size : ℕ
shdr_size = 64

-- `kElfMag0` to `kElfMag3`.
abbrev pub is_magic : (m0 m1 m2 m3 : ℕ) → Bool
is_magic m0 m1 m2 m3 = m0 == 0x7f && m1 == 0x45 && m2 == 0x4c && m3 == 0x46

-- The parser's fields that the header sets, and those that it sets in the image.
pub record Header : Type 0 where
  pub type : ℕ
  pub machine : ℕ
  pub entry_point : Address
  pub program_header_offset : ℕ
  pub section_header_offset : ℕ
  pub program_entry_size : ℕ
  pub program_count : ℕ
  pub section_entry_size : ℕ
  pub section_count : ℕ
  pub section_name_index : ℕ

unfoldable pub read_header : ByteReader → (type machine : ℕ) → Result Header
unfolding u16 u64
read_header r type machine = do
  entry_point ← u64 r 24
  program_header_offset ← u64 r 32
  section_header_offset ← u64 r 40
  program_entry_size ← u16 r 54
  program_count ← u16 r 56
  section_entry_size ← u16 r 58
  section_count ← u16 r 60
  section_name_index ← u16 r 62
  done (record {
    type = type;
    machine = machine;
    entry_point = entry_point;
    program_header_offset = program_header_offset;
    section_header_offset = section_header_offset;
    program_entry_size = program_entry_size;
    program_count = program_count;
    section_entry_size = section_entry_size;
    section_count = section_count;
    section_name_index = section_name_index;
  })

unfoldable pub validate_header : ByteReader → Result Header
unfolding read_header u8 u16
validate_header r = do
  require (leb ehdr_size (size r)) not_elf
  m0 ← u8 r 0
  m1 ← u8 r 1
  m2 ← u8 r 2
  m3 ← u8 r 3
  require (is_magic m0 m1 m2 m3) not_elf
  class ← u8 r 4
  require (class == elf_class64) unsupported_elf
  encoding ← u8 r 5
  require (encoding == elf_data2_lsb) unsupported_elf
  type ← u16 r 16
  machine ← u16 r 18
  require (machine == em_aarch64) unsupported_elf
  read_header r type machine

unfoldable pub read_segment : ByteReader → ℕ → Result ElfSegment
unfolding u32 u64
read_segment r base = do
  type ← u32 r base
  flags ← u32 r (base + 4)
  file_offset ← u64 r (base + 8)
  virtual_address ← u64 r (base + 16)
  file_size ← u64 r (base + 32)
  memory_size ← u64 r (base + 40)
  done (record {
    type = type;
    flags = flags;
    file_offset = file_offset;
    virtual_address = virtual_address;
    file_size = file_size;
    memory_size = memory_size;
  })

-- The loop over the program headers, from index `i` on; a header out of bounds ends it.
unfoldable pub segments_from : ByteReader → (offset stride count i : ℕ) → Result (List ElfSegment)
unfolding read_segment in_bounds
segments_from r offset stride zero i = done []
segments_from r offset stride (suc count) i =
    let base = add64 offset (i * stride) in
    elim (in_bounds r base phdr_size) [
      | false ↦ done []
      | true ↦ do
        segment ← read_segment r base
        rest ← segments_from r offset stride count (i + 1)
        done (segment ∷ rest)
    ]

unfoldable pub parse_segments : ByteReader → Header → Result (List ElfSegment)
unfolding segments_from
parse_segments r h =
    if h.program_header_offset == 0 || h.program_count == 0
    then done []
    else segments_from r h.program_header_offset (stride_of h.program_entry_size phdr_size)
        h.program_count 0

-- A section whose name is still to be found, with the name's offset. (The code keeps the offset in
-- the name, written by `std::to_string` and read by `std::stoull`.)
unfoldable pub read_section : ByteReader → ℕ → Result (ℕ × ElfSection)
unfolding u32 u64
read_section r base = do
  type ← u32 r (base + 4)
  flags ← u64 r (base + 8)
  address ← u64 r (base + 16)
  file_offset ← u64 r (base + 24)
  size ← u64 r (base + 32)
  link ← u32 r (base + 40)
  info ← u32 r (base + 44)
  entry_size ← u64 r (base + 56)
  name_offset ← u32 r base
  done (
    name_offset,
    record {
      name = [];
      type = type;
      flags = flags;
      address = address;
      file_offset = file_offset;
      size = size;
      link = link;
      info = info;
      entry_size = entry_size;
    },
  )

unfoldable pub sections_from :
    ByteReader → (offset stride count i : ℕ) → Result (List (ℕ × ElfSection))
unfolding read_section in_bounds
sections_from r offset stride zero i = done []
sections_from r offset stride (suc count) i =
    let base = add64 offset (i * stride) in
    elim (in_bounds r base shdr_size) [
      | false ↦ done []
      | true ↦ do
        section ← read_section r base
        rest ← sections_from r offset stride count (i + 1)
        done (section ∷ rest)
    ]

-- The section count and the index of the name table: the first section header has them if they do
-- not fit into the file header.
unfoldable pub section_limits : ByteReader → Header → Result (ℕ × ℕ)
unfolding in_bounds u32 u64
section_limits r h =
    let extended =
      (h.section_count == 0 || h.section_name_index == shn_x_index)
      && in_bounds r h.section_header_offset shdr_size in
    do
      count ←
          (if extended && h.section_count == 0
            then u64 r (h.section_header_offset + 32)
            else done h.section_count)
      index ←
          (if extended && h.section_name_index == shn_x_index
            then u32 r (h.section_header_offset + 40)
            else done h.section_name_index)
      done (count, index)

unfoldable pub resolve_name : ByteReader → ElfSection → ℕ × ElfSection → Result ElfSection
unfolding string_at
resolve_name r strtab (name_offset, section) =
    let at = add64 strtab.file_offset name_offset in
    if ltb at (size r)
    then (do name ← string_at r at; done (record section { name = name }))
    else done (record section { name = [] })

unfoldable pub resolve_names :
    ByteReader → ElfSection → List (ℕ × ElfSection) → Result (List ElfSection)
unfolding resolve_name
resolve_names r strtab [] = done []
resolve_names r strtab (s ∷ rest) = do
  section ← resolve_name r strtab s
  others ← resolve_names r strtab rest
  done (section ∷ others)

abbrev without_name : ℕ × ElfSection → ElfSection
without_name (name_offset, section) = record section { name = [] }

unfoldable pub resolve_section_names :
    ByteReader → ℕ → List (ℕ × ElfSection) → Result (List ElfSection)
unfolding resolve_names
resolve_section_names r index sections = elim (get_elem? sections index) [
  | none ↦ done (map without_name sections)
  | some (_, strtab) ↦ resolve_names r strtab sections
]

abbrev pub max_sections : ℕ
max_sections = 1_000_000

unfoldable pub parse_sections : ByteReader → Header → Result (List ElfSection)
unfolding section_limits sections_from resolve_section_names
parse_sections r h = if h.section_header_offset == 0 then done [] else do
  (count, index) ← section_limits r h
  if count == 0 then done [] else do
    require (leb count max_sections) malformed_elf
    sections ←
        sections_from r h.section_header_offset (stride_of h.section_entry_size shdr_size) count 0
    resolve_section_names r index sections

-- The image in front of `parseSymbols`.
abbrev pub image_without_symbols : List ℕ → Header → List ElfSegment → List ElfSection → ElfImage
image_without_symbols bytes h segments sections = record {
  bytes = bytes;
  entry_point = h.entry_point;
  machine = h.machine;
  type = h.type;
  little_endian = true;
  sections = sections;
  segments = segments;
  symbols = [];
}

-- `parseBytes` and `run`.
unfoldable pub parse_bytes : List ℕ → Result ElfImage
unfolding validate_header parse_segments parse_sections parse_symbols
parse_bytes bytes = do
  let r = make_reader bytes
  h ← validate_header r
  segments ← parse_segments r h
  sections ← parse_sections r h
  let image = image_without_symbols bytes h segments sections
  symbols ← parse_symbols r image
  done (record image { symbols = symbols })
