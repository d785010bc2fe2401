-- ===== src/Elf/Parser/Entry.antt =====
-- One symbol of a table: src/elf/elf_parser.cc.
use fn_finder.Base.{ℕ, ◌+◌, not, ◌&&◌, [], ltb, leb, ◌==◌, if◌then◌else◌}
use fn_finder.Common.Result.{Result, done, ◌>>=◌}
use fn_finder.Common.ByteReader.{ByteReader, size, u8, u16, u32, u64, string_at}
use fn_finder.Elf.Types.{ElfSymbol, SymbolOrigin}

abbrev pub sym_size : ℕ
sym_size = 24

abbrev pub dyn_size : ℕ
dyn_size = 16

abbrev pub max_symbols : ℕ
max_symbols = 5_000_000

-- `strideOf`.
abbrev pub stride_of : (declared minimum : ℕ) → ℕ
stride_of declared minimum = if leb minimum declared then declared else minimum

-- A symbol at `base`, its name still to be found, and the name's offset.
unfoldable pub read_symbol : ByteReader → ℕ → SymbolOrigin → Result (ℕ × ElfSymbol)
unfolding u8 u16 u32 u64
read_symbol r base origin = do
  name_offset ← u32 r base
  info ← u8 r (base + 4)
  other ← u8 r (base + 5)
  section_index ← u16 r (base + 6)
  value ← u64 r (base + 8)
  size ← u64 r (base + 16)
  done (
    name_offset,
    record {
      name = [];
      value = value;
      size = size;
      info = info;
      other = other;
      section_index = section_index;
      origin = origin;
    },
  )

-- The name at `at` in `names`, unless the offset is 0 or `at` is past the end.
unfoldable pub named : ByteReader → (name_offset at : ℕ) → ElfSymbol → Result ElfSymbol
unfolding string_at
named names name_offset at symbol =
    if not (name_offset == 0) && ltb at (size names)
    then (do name ← string_at names at; done (record symbol { name = name }))
    else done symbol
