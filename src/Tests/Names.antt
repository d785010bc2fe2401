-- ===== src/Tests/Names.antt =====
-- Hexadecimal text and the names of functions on small inputs.
use fn_finder.Base.{◌≡◌, ◌≤◌, refl, [], ◌∷◌, some, true, false, arith, In, inl}
use fn_finder.Common.StringUtil.{to_hex, starts_with, ends_with}
use fn_finder.Common.StringUtil.Hex.{hex_value, hex_value-to_hex}
use fn_finder.Elf.Types.{ElfImage, ElfSymbol, SymbolOrigin}
use fn_finder.Symbol.NameResolver.{make_name_resolver, raw_symbol_name, name_for}
use fn_finder.Symbol.NameResolver.Best.{Names, rank, raw_symbol_name_best, raw_symbol_name_from}

to_hex_runs :
    (to_hex 0x1a2f true 6 false ≡ 0x30 ∷ 0x78 ∷ 0x30 ∷ 0x30 ∷ 0x31 ∷ 0x61 ∷ 0x32 ∷ 0x66 ∷ [])
    × (starts_with (1 ∷ 2 ∷ 3 ∷ []) (1 ∷ 2 ∷ []) ≡ true)
    × (ends_with (1 ∷ 2 ∷ 3 ∷ []) (1 ∷ 2 ∷ []) ≡ false)
unfolding to_hex starts_with ends_with
to_hex_runs = (refl, refl, refl)

hex_value-to_hex_example : hex_value 0 (to_hex 0x1a2f false 0 true) ≡ 0x1a2f
hex_value-to_hex_example = hex_value-to_hex 0x1a2f true (omega arith)

abbrev local_symbol : ElfSymbol
local_symbol = record {
  name = 0x61 ∷ [];
  value = 0x1000;
  size = 8;
  info = 0x02;
  other = 0;
  section_index = 1;
  origin = SymbolOrigin.symtab;
}

abbrev global_symbol : ElfSymbol
global_symbol = record local_symbol { name = 0x62 ∷ []; info = 0x12 }

abbrev named_image : ElfImage
named_image = record {
  bytes = [];
  entry_point = 0;
  machine = 183;
  type = 3;
  little_endian = true;
  sections = [];
  segments = [];
  symbols = local_symbol ∷ global_symbol ∷ [];
}

-- Without a demangler, a symbol's name and a synthetic one.
name_for_runs :
    (name_for (λ t. t) true (make_name_resolver named_image) 0x1000 ≡ 0x62 ∷ [])
    × (name_for (λ t. t) true (make_name_resolver named_image) 0x1a
        ≡ 0x73 ∷ 0x75 ∷ 0x62 ∷ 0x5f ∷ 0x31 ∷ 0x41 ∷ [])
unfolding name_for make_name_resolver
name_for_runs = (refl, refl)

raw_symbol_name_best_example :
    (s : ElfSymbol) × In s named_image.symbols
    × Names 0x1000 s
    × (raw_symbol_name (make_name_resolver named_image) 0x1000 ≡ some s.name)
    × (rank local_symbol ≤ rank s)
raw_symbol_name_best_example =
    raw_symbol_name_best named_image 0x1000 local_symbol (inl refl) (refl, refl)

raw_symbol_name_from_example :
    (s : ElfSymbol) × In s named_image.symbols × Names 0x1000 s × (s.name ≡ 0x62 ∷ [])
unfolding raw_symbol_name make_name_resolver
raw_symbol_name_from_example = raw_symbol_name_from named_image 0x1000 (0x62 ∷ []) refl
