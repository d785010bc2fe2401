-- ===== src/Elf/Parser/SectionSymbols.antt =====
-- Reading the symbol tables of sections never throws: src/elf/elf_parser.cc.
use fn_finder.Base.{
  ℕ, zero, suc, ◌+◌, ◌*◌, ◌/◌, ◌≡◌, true, List, [], ◌∷◌, arith, get_elem?, Bool-cases, Option-cases,
  inl, inr,
}
use fn_finder.Base.Words.{add64}
use fn_finder.Common.Result.{IsDone, IsDone->>=}
use fn_finder.Common.ByteReader.{ByteReader, in_bounds, ensure, u8, u16, u32, u64, string_at}
use fn_finder.Elf.Types.{ElfSection, ElfSymbol, SymbolOrigin}
use fn_finder.Elf.Parser.Entry.{read_symbol, named, stride_of}
use fn_finder.Elf.Parser.Symbols.{
  section_symbols_from, parse_section_symbol_table, symbols_of_sections, table_origin,
}

pub read_symbol-IsDone :
    (r : ByteReader) (base : ℕ) (origin : SymbolOrigin)
    → in_bounds r base 24 ≡ true
    → IsDone (read_symbol r base origin)
unfolding read_symbol u8 u16 u32 u64 ensure in_bounds
read_symbol-IsDone r base origin h = ground arith

pub named-IsDone :
    (names : ByteReader) (name_offset at : ℕ) (s : ElfSymbol)
    → IsDone (named names name_offset at s)
unfolding named string_at ensure in_bounds
named-IsDone names name_offset at s = ground arith

section_symbols_from-IsDone :
    (r : ByteReader) (offset names_offset entry : ℕ) (origin : SymbolOrigin) (count i : ℕ)
    → IsDone (section_symbols_from r offset names_offset entry origin count i)
unfolding section_symbols_from
section_symbols_from-IsDone r offset names_offset entry origin zero i = tt
section_symbols_from-IsDone r offset names_offset entry origin (suc count) i =
    let base = add64 offset (i * entry) in
    elim (Bool-cases (in_bounds r base 24)) [
      | inl e ↦
          rw (section_symbols_from, e)
            (IsDone->>= (read_symbol r base origin) _ (read_symbol-IsDone r base origin e) (λ p _.
              IsDone->>= (named r p.0 (add64 names_offset p.0) p.1) _
                (named-IsDone r p.0 (add64 names_offset p.0) p.1)
                (λ s _.
                  IsDone->>= (section_symbols_from r offset names_offset entry origin count (i + 1))
                    _ (section_symbols_from-IsDone r offset names_offset entry origin count (i + 1))
                    (λ rest _. tt))))
      | inr e ↦ rw (section_symbols_from, e) tt
    ]

parse_section_symbol_table-IsDone :
    (r : ByteReader) (sections : List ElfSection) (s : ElfSection) (origin : SymbolOrigin)
    → IsDone (parse_section_symbol_table r sections s origin)
unfolding parse_section_symbol_table
parse_section_symbol_table-IsDone r sections s origin =
    let entry = stride_of s.entry_size 24 in
    elim (Option-cases (get_elem? sections s.link)) [
      | inl e ↦ rw (parse_section_symbol_table, e) tt
      | inr (strtab, e) ↦
          rw (parse_section_symbol_table, e)
            (section_symbols_from-IsDone r s.file_offset strtab.file_offset entry origin
              (s.size / entry) 0)
    ]

pub symbols_of_sections-IsDone :
    (r : ByteReader) (sections rest : List ElfSection)
    → IsDone (symbols_of_sections r sections rest)
unfolding symbols_of_sections
symbols_of_sections-IsDone r sections [] = tt
symbols_of_sections-IsDone r sections (s ∷ rest) = elim (Option-cases (table_origin s)) [
  | inl e ↦ rw (symbols_of_sections, e) (symbols_of_sections-IsDone r sections rest)
  | inr (origin, e) ↦
      rw (symbols_of_sections, e)
        (IsDone->>= (parse_section_symbol_table r sections s origin) _
          (parse_section_symbol_table-IsDone r sections s origin)
          (λ symbols _.
            IsDone->>= (symbols_of_sections r sections rest) _
              (symbols_of_sections-IsDone r sections rest) (λ p _. tt)))
]
