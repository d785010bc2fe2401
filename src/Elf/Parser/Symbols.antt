-- ===== src/Elf/Parser/Symbols.antt =====
-- The symbol tables: `parseSymbols` and `parseSectionSymbolTable` of src/elf/elf_parser.cc.
use fn_finder.Base.{
  ℕ, zero, suc, ◌+◌, ◌*◌, ◌/◌, Bool, true, false, List, [], ◌∷◌, ◌++◌, Option, none, some, ◌==◌,
  if◌then◌else◌, get_elem?,
}
use fn_finder.Base.Words.{add64}
use fn_finder.Common.Result.{Result, done, ◌>>=◌}
use fn_finder.Common.ByteReader.{ByteReader, in_bounds}
use fn_finder.Elf.Types.{ElfImage, ElfSection, ElfSymbol, SymbolOrigin, sht_symtab, sht_dynsym}
use fn_finder.Elf.Parser.Entry.{sym_size, stride_of, read_symbol, named}
use fn_finder.Elf.Parser.Dynamic.{parse_dynamic_symbols}

-- The loop over a symbol section, from index `i` on.
unfoldable pub section_symbols_from :
    ByteReader
    → (offset names_offset entry_size : ℕ) → SymbolOrigin
    → (count i : ℕ) → Result (List ElfSymbol)
unfolding read_symbol named in_bounds
section_symbols_from r offset names_offset entry_size origin zero i = done []
section_symbols_from r offset names_offset entry_size origin (suc count) i =
    let base = add64 offset (i * entry_size) in
    elim (in_bounds r base sym_size) [
      | false ↦ done []
      | true ↦ do
        (name_offset, symbol) ← read_symbol r base origin
        symbol' ← named r name_offset (add64 names_offset name_offset) symbol
        rest ← section_symbols_from r offset names_offset entry_size origin count (i + 1)
        done (symbol' ∷ rest)
    ]

unfoldable pub parse_section_symbol_table :
    ByteReader → List ElfSection → ElfSection → SymbolOrigin → Result (List ElfSymbol)
unfolding section_symbols_from
parse_section_symbol_table r sections symtab origin = elim (get_elem? sections symtab.link) [
  | none ↦ done []
  | some strtab ↦
      let entry_size = stride_of symtab.entry_size sym_size in
      section_symbols_from r symtab.file_offset strtab.file_offset entry_size origin
        (symtab.size / entry_size) 0
]

abbrev pub table_origin : ElfSection → Option SymbolOrigin
table_origin s =
    if s.type == sht_symtab
    then some SymbolOrigin.symtab
    else if s.type == sht_dynsym
    then some SymbolOrigin.dynsym
    else none

-- The loop over the sections: the symbols, and `parsedFromSections`.
unfoldable pub symbols_of_sections :
    ByteReader → (sections rest : List ElfSection) → Result (List ElfSymbol × Bool)
unfolding parse_section_symbol_table
symbols_of_sections r sections [] = done ([], false)
symbols_of_sections r sections (s ∷ rest) = elim (table_origin s) [
  | none ↦ symbols_of_sections r sections rest
  | some origin ↦ do
    symbols ← parse_section_symbol_table r sections s origin
    (others, _) ← symbols_of_sections r sections rest
    done (symbols ++ others, true)
]

unfoldable pub parse_symbols : ByteReader → ElfImage → Result (List ElfSymbol)
unfolding symbols_of_sections parse_dynamic_symbols
parse_symbols r image = do
  (symbols, parsed) ← symbols_of_sections r image.sections image.sections
  if parsed then done symbols else parse_dynamic_symbols r image
