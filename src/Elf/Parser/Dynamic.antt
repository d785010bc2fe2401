-- ===== src/Elf/Parser/Dynamic.antt =====
-- The tables that PT_DYNAMIC names: `parseDynamicSymbols` and `dynamicSymbolCount` of
-- src/elf/elf_parser.cc.
use fn_finder.Base.{
  ℕ, zero, suc, ◌+◌, ◌-◌, ◌*◌, ◌/◌, ◌%◌, true, false, not, ◌&&◌, ◌||◌, List, [], ◌∷◌, Option, none,
  some, ltb, ◌==◌, if◌then◌else◌, min, take, drop,
}
use fn_finder.Base.Words.{Address}
use fn_finder.Common.Result.{Result, done, ◌>>=◌}
use fn_finder.Common.ByteReader.{ByteReader, make_reader, size, in_bounds, u32, u64}
use fn_finder.Elf.Types.{ElfImage, ElfSegment, ElfSymbol, SymbolOrigin, pt_dynamic}
use fn_finder.Elf.Image.{DataSpan, data_at}
use fn_finder.Elf.Parser.Entry.{dyn_size, max_symbols, sym_size, stride_of, read_symbol, named}

unfoldable pub find_segment : ℕ → List ElfSegment → Option ElfSegment
find_segment type [] = none
find_segment type (s ∷ rest) =
    let later = find_segment type rest in if s.type == type then some s else later

-- The local variables of the scan of PT_DYNAMIC.
pub record Dynamic : Type 0 where
  pub symtab_vaddr : Address
  pub strtab_vaddr : Address
  pub hash_vaddr : Address
  pub gnu_hash_vaddr : Address
  pub str_size : ℕ
  pub sym_ent_size : ℕ

abbrev pub no_dynamic : Dynamic
no_dynamic = record {
  symtab_vaddr = 0;
  strtab_vaddr = 0;
  hash_vaddr = 0;
  gnu_hash_vaddr = 0;
  str_size = 0;
  sym_ent_size = sym_size;
}

-- The switch on the tag.
unfoldable pub set_tag : Dynamic → (tag val : ℕ) → Dynamic
set_tag d tag val =
    if tag == 6
    then record d { symtab_vaddr = val }
    else if tag == 5
    then record d { strtab_vaddr = val }
    else if tag == 10
    then record d { str_size = val }
    else if tag == 11
    then (if not (val == 0) then record d { sym_ent_size = val } else d)
    else if tag == 4
    then record d { hash_vaddr = val }
    else if tag == 0x6fff_fef5
    then record d { gnu_hash_vaddr = val }
    else d

unfoldable pub dynamic_from : ByteReader → (offset count i : ℕ) → Dynamic → Result Dynamic
unfolding set_tag u64
dynamic_from r offset zero i d = done d
dynamic_from r offset (suc count) i d = do
  let base = offset + i * dyn_size
  tag ← u64 r base
  val ← u64 r (base + 8)
  elim (tag == 0) [
    | true ↦ done d
    | false ↦ dynamic_from r offset count (i + 1) (set_tag d tag val)
  ]

-- A reader of the bytes behind a pointer.
abbrev pub span_reader : ElfImage → DataSpan → ByteReader
span_reader image span = make_reader (take span.available (drop span.offset image.bytes))

-- The count of DT_HASH.
unfoldable pub hash_count : ElfImage → Address → Result (Option ℕ)
unfolding data_at u32
hash_count image vaddr = if vaddr == 0 then done none else elim (data_at image vaddr) [
  | none ↦ done none
  | some span ↦ if ltb span.available 8 then done none else do
    chains ← u32 (span_reader image span) 4
    done (if ltb 0 chains then some chains else none)
]

-- The largest entry of the buckets, from index `b` on.
unfoldable pub last_symbol : ByteReader → (buckets_off count b last : ℕ) → Result ℕ
unfolding u32
last_symbol r buckets_off zero b last = done last
last_symbol r buckets_off (suc count) b last = do
  v ← u32 r (buckets_off + b * 4)
  last_symbol r buckets_off count (b + 1) (if ltb last v then v else last)

-- The loop along a chain, on fuel: the index behind the entry that ends the chain. Each round reads
-- another word, so as many rounds as there are bytes are enough.
unfoldable pub chain_end : (fuel : ℕ) → ByteReader → (chain_off index : ℕ) → Result (Option ℕ)
unfolding in_bounds u32
chain_end zero r chain_off index = done none
chain_end (suc fuel) r chain_off index =
    let at = chain_off + index * 4 in
    elim (in_bounds r at 4) [
      | false ↦ done none
      | true ↦ do
        hash ← u32 r at
        elim (hash % 2 == 0) [
          | false ↦ done (some (index + 1))
          | true ↦ chain_end fuel r chain_off (index + 1)
        ]
    ]

unfoldable pub gnu_hash_table : ByteReader → Result (Option ℕ)
unfolding last_symbol chain_end
gnu_hash_table r = do
  buckets ← u32 r 0
  sym_offset ← u32 r 4
  bloom_size ← u32 r 8
  let buckets_off = 16 + bloom_size * 8
  let chain_off = buckets_off + buckets * 4
  if not (ltb 0 buckets && ltb 0 bloom_size && in_bounds r buckets_off (buckets * 4))
      then done none
      else do
        last ← last_symbol r buckets_off buckets 0 0
        if ltb last sym_offset then done (some sym_offset) else do
          end ← chain_end (size r) r chain_off (last - sym_offset)
          done (elim end [ none ↦ none | some index ↦ some (sym_offset + index) ])

-- The count of DT_GNU_HASH.
unfoldable pub gnu_hash_count : ElfImage → Address → Result (Option ℕ)
unfolding data_at gnu_hash_table
gnu_hash_count image vaddr = if vaddr == 0 then done none else elim (data_at image vaddr) [
  | none ↦ done none
  | some span ↦ if ltb span.available 16 then done none else gnu_hash_table (span_reader image span)
]

unfoldable pub dynamic_symbol_count : ElfImage → Dynamic → (stride : ℕ) → Result ℕ
unfolding hash_count gnu_hash_count
dynamic_symbol_count image d stride = do
  by_hash ← hash_count image d.hash_vaddr
  elim by_hash [
    | some count ↦ done count
    | none ↦ do
      by_gnu_hash ← gnu_hash_count image d.gnu_hash_vaddr
      done (elim by_gnu_hash [
        | some count ↦ count
        | none ↦
            if ltb 0 stride && ltb d.symtab_vaddr d.strtab_vaddr
            then (d.strtab_vaddr - d.symtab_vaddr) / stride
            else 0
      ])
  ]

unfoldable pub dynamic_symbols_from :
    (symbols names : ByteReader) → (stride count i : ℕ) → Result (List ElfSymbol)
unfolding read_symbol named in_bounds
dynamic_symbols_from symbols names stride zero i = done []
dynamic_symbols_from symbols names stride (suc count) i =
    let base = i * stride in
    elim (in_bounds symbols base sym_size) [
      | false ↦ done []
      | true ↦ do
        (name_offset, symbol) ← read_symbol symbols base SymbolOrigin.dynsym
        symbol' ← named names name_offset name_offset symbol
        rest ← dynamic_symbols_from symbols names stride count (i + 1)
        done (symbol' ∷ rest)
    ]

-- `count == 0 || count > maxByBuffer`, and the cap.
abbrev limited_count : (count by_buffer : ℕ) → ℕ
limited_count count by_buffer =
    min (if count == 0 || ltb by_buffer count then by_buffer else count) max_symbols

-- `strAvail`, cut at DT_STRSZ.
abbrev pub limited_names : Dynamic → DataSpan → DataSpan
limited_names d names =
    if ltb 0 d.str_size then record names { available = min names.available d.str_size } else names

-- The symbols of the tables that PT_DYNAMIC names.
unfoldable pub dynamic_symbols :
    ElfImage → Dynamic → (symbols names : DataSpan) → Result (List ElfSymbol)
unfolding dynamic_symbol_count dynamic_symbols_from
dynamic_symbols image d symbols names = do
  let stride = stride_of d.sym_ent_size sym_size
  count ← dynamic_symbol_count image d stride
  dynamic_symbols_from (span_reader image symbols) (span_reader image (limited_names d names))
      stride (limited_count count (symbols.available / stride)) 0

unfoldable pub parse_dynamic_symbols : ByteReader → ElfImage → Result (List ElfSymbol)
unfolding find_segment dynamic_from dynamic_symbols data_at
parse_dynamic_symbols r image = elim (find_segment pt_dynamic image.segments) [
  | none ↦ done []
  | some dynamic ↦ if not (in_bounds r dynamic.file_offset dynamic.file_size) then done [] else do
    d ← dynamic_from r dynamic.file_offset (dynamic.file_size / dyn_size) 0 no_dynamic
    if d.symtab_vaddr == 0 || d.strtab_vaddr == 0
        then done []
        else elim (data_at image d.symtab_vaddr) [
          | none ↦ done []
          | some symbols ↦ elim (data_at image d.strtab_vaddr) [
            | none ↦ done []
            | some names ↦ dynamic_symbols image d symbols names
          ]
        ]
]
