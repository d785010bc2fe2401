-- ===== src/Tests/Parsers.antt =====
-- The byte reader, the ELF parser and the unwind table parser on small inputs.
use fn_finder.Base.{◌-◌, ℕ, ◌+◌, ◌≡◌, ◌≤◌, ◌↔◌, refl, List, [], ◌∷◌, true, some, arith, All, length}
use fn_finder.Common.Result.{done, IsDone}
use fn_finder.Common.ByteReader.{
  ByteReader, make_reader, advance, in_bounds, read_uleb128, read_sleb128, read_c_string, size,
}
use fn_finder.Common.ByteReader.Bounds.{in_bounds_iff}
use fn_finder.Common.ByteReader.Strings.{read_c_string_lem}
use fn_finder.Common.ByteReader.Leb128.{uleb128, read_uleb128-uleb128}
use fn_finder.Common.ByteReader.SignedLeb128.{negsuc, sleb128, groups, read_sleb128-sleb128}
use fn_finder.Elf.Types.{ElfImage, ElfSection, ElfSymbol, SymbolOrigin}
use fn_finder.Elf.Image.{data_at, find_section}
use fn_finder.Elf.Parser.{Header, validate_header, section_limits, parse_bytes}
use fn_finder.Elf.Parser.Accepted.{IsSupported, validate_header_iff, parse_bytes_total}
use fn_finder.Analysis.EhFrame.{parse, parse_loop, start_parsing}
use fn_finder.Analysis.EhFrame.Blobs.{Blob, eh_frame_name, locate_eh_frame, locate_eh_frame_hdr}
use fn_finder.Analysis.EhFrame.Rounds.{parse_enough}
use fn_finder.Analysis.EhFrame.Ranges.{IsPositive, parse-All}

-- 624485, and "ab" with its end.
abbrev leb_reader : ByteReader
leb_reader = make_reader (0xe5 ∷ 0x8e ∷ 0x26 ∷ 0x61 ∷ 0x62 ∷ 0 ∷ [])

in_bounds_iff_example : (in_bounds leb_reader 2 4 ≡ true) ↔ (2 + 4 ≤ size leb_reader)
in_bounds_iff_example = in_bounds_iff leb_reader 2 4

read_uleb128-uleb128_example :
    read_uleb128 leb_reader ≡ done (624485, advance leb_reader (length (uleb128 9 624485)))
unfolding uleb128
read_uleb128-uleb128_example =
    read_uleb128-uleb128 leb_reader 624485 (0x61 ∷ 0x62 ∷ 0 ∷ []) (omega arith) refl

-- -123456 from its three bytes.
abbrev sleb_reader : ByteReader
sleb_reader = make_reader (0xc0 ∷ 0xbb ∷ 0x78 ∷ [])

read_sleb128-sleb128_example :
    read_sleb128 sleb_reader ≡ done (0x1_0000_0000_0000_0000 - 123456, advance sleb_reader 3)
unfolding groups sleb128
read_sleb128-sleb128_example =
    read_sleb128-sleb128 sleb_reader 2 (negsuc 123455) [] (omega arith) (omega arith) refl

read_sleb128_runs :
    read_sleb128 sleb_reader ≡ done (0x1_0000_0000_0000_0000 - 123456, advance sleb_reader 3)
unfolding read_sleb128
read_sleb128_runs = refl

-- "ab" with its end, and "b" up to the end of the bytes.
read_c_string_lem_example :
    read_c_string (advance leb_reader 3) ≡ done (0x61 ∷ 0x62 ∷ [], advance leb_reader 6)
read_c_string_lem_example =
    read_c_string_lem (advance leb_reader 3) (0x61 ∷ 0x62 ∷ []) (some []) (refl, (refl, tt))
      (omega arith) refl

read_c_string_unended :
    read_c_string (advance (make_reader (0x61 ∷ 0x62 ∷ [])) 1)
    ≡ done (0x62 ∷ [], advance (make_reader (0x61 ∷ 0x62 ∷ [])) 2)
unfolding read_c_string
read_c_string_unended = refl

-- A file with a string table, and a symbol table that holds one function.
abbrev elf_bytes : List ℕ
elf_bytes =
    0x7f ∷ 0x45 ∷ 0x4c ∷ 0x46 ∷ 2 ∷ 1 ∷ 0 ∷ 0 ∷ 0 ∷ 0 ∷ 0 ∷ 0 ∷ 0 ∷ 0 ∷ 0 ∷ 0 ∷ 3 ∷ 0 ∷ 0xb7 ∷ 0 ∷ 0
    ∷ 0 ∷ 0 ∷ 0 ∷ 0 ∷ 0x10 ∷ 0 ∷ 0 ∷ 0 ∷ 0 ∷ 0 ∷ 0 ∷ 0 ∷ 0 ∷ 0 ∷ 0 ∷ 0 ∷ 0 ∷ 0 ∷ 0 ∷ 0x40 ∷ 0 ∷ 0
    ∷ 0 ∷ 0 ∷ 0 ∷ 0 ∷ 0 ∷ 0 ∷ 0 ∷ 0 ∷ 0 ∷ 0 ∷ 0 ∷ 0x38 ∷ 0 ∷ 0 ∷ 0 ∷ 0x40 ∷ 0 ∷ 2 ∷ 0 ∷ 0 ∷ 0 ∷ 0
    ∷ 0 ∷ 0 ∷ 0 ∷ 3 ∷ 0 ∷ 0 ∷ 0 ∷ 0 ∷ 0 ∷ 0 ∷ 0 ∷ 0 ∷ 0 ∷ 0 ∷ 0 ∷ 0 ∷ 0 ∷ 0 ∷ 0 ∷ 0 ∷ 0 ∷ 0 ∷ 0
    ∷ 0xd8 ∷ 0 ∷ 0 ∷ 0 ∷ 0 ∷ 0 ∷ 0 ∷ 0 ∷ 3 ∷ 0 ∷ 0 ∷ 0 ∷ 0 ∷ 0 ∷ 0 ∷ 0 ∷ 0 ∷ 0 ∷ 0 ∷ 0 ∷ 0 ∷ 0 ∷ 0
    ∷ 0 ∷ 0 ∷ 0 ∷ 0 ∷ 0 ∷ 0 ∷ 0 ∷ 0 ∷ 0 ∷ 0 ∷ 0 ∷ 0 ∷ 0 ∷ 0 ∷ 0 ∷ 0 ∷ 0 ∷ 1 ∷ 0 ∷ 0 ∷ 0 ∷ 2 ∷ 0 ∷ 0
    ∷ 0 ∷ 0 ∷ 0 ∷ 0 ∷ 0 ∷ 0 ∷ 0 ∷ 0 ∷ 0 ∷ 0 ∷ 0 ∷ 0 ∷ 0 ∷ 0 ∷ 0 ∷ 0 ∷ 0 ∷ 0xc0 ∷ 0 ∷ 0 ∷ 0 ∷ 0 ∷ 0
    ∷ 0 ∷ 0 ∷ 0x18 ∷ 0 ∷ 0 ∷ 0 ∷ 0 ∷ 0 ∷ 0 ∷ 0 ∷ 0 ∷ 0 ∷ 0 ∷ 0 ∷ 1 ∷ 0 ∷ 0 ∷ 0 ∷ 0 ∷ 0 ∷ 0 ∷ 0 ∷ 0
    ∷ 0 ∷ 0 ∷ 0 ∷ 0x18 ∷ 0 ∷ 0 ∷ 0 ∷ 0 ∷ 0 ∷ 0 ∷ 0 ∷ 1 ∷ 0 ∷ 0 ∷ 0 ∷ 0x12 ∷ 0 ∷ 1 ∷ 0 ∷ 0 ∷ 0x10 ∷ 0
    ∷ 0 ∷ 0 ∷ 0 ∷ 0 ∷ 0 ∷ 8 ∷ 0 ∷ 0 ∷ 0 ∷ 0 ∷ 0 ∷ 0 ∷ 0 ∷ 0 ∷ 0x66 ∷ 0 ∷ []

abbrev elf_header : Header
elf_header = record {
  type = 3;
  machine = 183;
  entry_point = 0x1000;
  program_header_offset = 0;
  section_header_offset = 64;
  program_entry_size = 56;
  program_count = 0;
  section_entry_size = 64;
  section_count = 2;
  section_name_index = 0;
}

validate_header_iff_example :
    IsDone (validate_header (make_reader elf_bytes)) ↔ IsSupported elf_bytes
validate_header_iff_example = validate_header_iff elf_bytes

parse_bytes_total_example : IsDone (parse_bytes elf_bytes)
unfolding validate_header section_limits
parse_bytes_total_example = parse_bytes_total elf_bytes elf_header 2 0 refl refl (omega arith)

abbrev elf_symbol : ElfSymbol
elf_symbol = record {
  name = 0x66 ∷ [];
  value = 0x1000;
  size = 8;
  info = 0x12;
  other = 0;
  section_index = 1;
  origin = SymbolOrigin.symtab;
}

symbols_of : fn_finder.Common.Result.Result ElfImage → List ElfSymbol
symbols_of (done image) = image.symbols
symbols_of (fn_finder.Common.Result.failure s) = []

parse_bytes_runs : symbols_of (parse_bytes elf_bytes) ≡ elf_symbol ∷ []
unfolding parse_bytes symbols_of
parse_bytes_runs = refl

-- A CIE and an FDE for the eight bytes at 0x1000.
abbrev eh_bytes : List ℕ
eh_bytes =
    9 ∷ 0 ∷ 0 ∷ 0 ∷ 0 ∷ 0 ∷ 0 ∷ 0 ∷ 1 ∷ 0 ∷ 1 ∷ 0x7c ∷ 0x1e ∷ 0x14 ∷ 0 ∷ 0 ∷ 0 ∷ 0x11 ∷ 0 ∷ 0 ∷ 0
    ∷ 0 ∷ 0x10 ∷ 0 ∷ 0 ∷ 0 ∷ 0 ∷ 0 ∷ 0 ∷ 8 ∷ 0 ∷ 0 ∷ 0 ∷ 0 ∷ 0 ∷ 0 ∷ 0 ∷ []

abbrev eh_section : ElfSection
eh_section = record {
  name = eh_frame_name;
  type = 1;
  flags = 2;
  address = 0x2000;
  file_offset = 0;
  size = 37;
  link = 0;
  info = 0;
  entry_size = 0;
}

abbrev eh_image : ElfImage
eh_image = record {
  bytes = eh_bytes;
  entry_point = 0;
  machine = 183;
  type = 3;
  little_endian = true;
  sections = eh_section ∷ [];
  segments = [];
  symbols = [];
}

parse_runs : parse eh_image ≡ record { start = 0x1000; size = 8 } ∷ []
unfolding parse data_at find_section
parse_runs = refl

abbrev eh_blob : Blob
eh_blob = record { vaddr = 0x2000; offset = 0; size = 37 }

parse_enough_example :
    parse eh_image ≡ parse_loop 1000 eh_blob.vaddr (start_parsing eh_image eh_blob)
unfolding locate_eh_frame locate_eh_frame_hdr data_at find_section
parse_enough_example = parse_enough eh_image eh_blob 1000 refl (omega arith)

parse-All_example : All IsPositive (parse eh_image)
parse-All_example = parse-All eh_image
