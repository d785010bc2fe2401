-- ===== src/Elf/Types.antt =====
-- The records of a parsed image: src/elf/elf_section.h, elf_segment.h, elf_symbol.h, elf_image.h,
-- and the constants of elf_constants.h that the code uses. A string is the list of its bytes.
use fn_finder.Base.{
  ℕ, ◌/◌, Bool, true, false, not, ◌&&◌, ◌||◌, List, [], ◌∷◌, ltb, leb, ◌==◌, bit_and,
}
use fn_finder.Base.Words.{Address, add64}

-- Section types and flags, segment types and flags.
abbrev pub sht_null : ℕ
sht_null = 0

abbrev pub sht_symtab : ℕ
sht_symtab = 2

abbrev pub sht_nobits : ℕ
sht_nobits = 8

abbrev pub sht_dynsym : ℕ
sht_dynsym = 11

abbrev pub shf_alloc : ℕ
shf_alloc = 2

abbrev pub shf_execinstr : ℕ
shf_execinstr = 4

abbrev pub pt_load : ℕ
pt_load = 1

abbrev pub pt_dynamic : ℕ
pt_dynamic = 2

abbrev pub pt_gnu_eh_frame : ℕ
pt_gnu_eh_frame = 0x6474e550

abbrev pub pf_exec : ℕ
pf_exec = 1

-- Symbol indices, types and bindings.
abbrev pub shn_undef : ℕ
shn_undef = 0

abbrev pub shn_lo_reserve : ℕ
shn_lo_reserve = 0xff00

abbrev pub shn_x_index : ℕ
shn_x_index = 0xffff

abbrev pub stt_func : ℕ
stt_func = 2

abbrev pub stt_gnu_ifunc : ℕ
stt_gnu_ifunc = 10

abbrev pub stb_local : ℕ
stb_local = 0

abbrev pub stb_global : ℕ
stb_global = 1

abbrev pub stb_weak : ℕ
stb_weak = 2

pub record ElfSection : Type 0 where
  pub name : List ℕ
  pub type : ℕ
  pub flags : ℕ
  pub address : Address
  pub file_offset : ℕ
  pub size : ℕ
  pub link : ℕ
  pub info : ℕ
  pub entry_size : ℕ

abbrev pub is_allocated : ElfSection → Bool
is_allocated s = not (bit_and s.flags shf_alloc == 0)

abbrev pub is_executable_section : ElfSection → Bool
is_executable_section s = not (bit_and s.flags shf_execinstr == 0)

abbrev pub has_file_data : ElfSection → Bool
has_file_data s = not (s.type == sht_nobits) && not (s.type == sht_null)

abbrev pub is_code : ElfSection → Bool
is_code s = is_allocated s && is_executable_section s && has_file_data s && ltb 0 s.size

abbrev pub section_contains_address : ElfSection → Address → Bool
section_contains_address s addr =
    is_allocated s && leb s.address addr && ltb addr (add64 s.address s.size)

pub record ElfSegment : Type 0 where
  pub type : ℕ
  pub flags : ℕ
  pub file_offset : ℕ
  pub virtual_address : Address
  pub file_size : ℕ
  pub memory_size : ℕ

abbrev pub is_loadable : ElfSegment → Bool
is_loadable s = s.type == pt_load

abbrev pub is_executable_segment : ElfSegment → Bool
is_executable_segment s = not (bit_and s.flags pf_exec == 0)

pub data SymbolOrigin : Type 0 where
  symtab dynsym : SymbolOrigin

pub record ElfSymbol : Type 0 where
  pub name : List ℕ
  pub value : Address
  pub size : ℕ
  pub info : ℕ
  pub other : ℕ
  pub section_index : ℕ
  pub origin : SymbolOrigin

-- The low and the high half of the `info` byte.
abbrev pub symbol_type : ElfSymbol → ℕ
symbol_type s = bit_and s.info 0x0f

abbrev pub binding : ElfSymbol → ℕ
binding s = s.info / 16

abbrev pub is_function : ElfSymbol → Bool
is_function s = symbol_type s == stt_func || symbol_type s == stt_gnu_ifunc

abbrev pub is_defined : ElfSymbol → Bool
is_defined s = not (s.section_index == shn_undef) && ltb s.section_index shn_lo_reserve

abbrev pub has_name : ElfSymbol → Bool
has_name s = elim s.name [ [] ↦ false | _ ∷ _ ↦ true ]

pub record ElfImage : Type 0 where
  pub bytes : List ℕ
  pub entry_point : Address
  pub machine : ℕ
  pub type : ℕ
  pub little_endian : Bool
  pub sections : List ElfSection
  pub segments : List ElfSegment
  pub symbols : List ElfSymbol
