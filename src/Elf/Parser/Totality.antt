-- ===== src/Elf/Parser/Totality.antt =====
-- Reading symbols never throws (src/elf/elf_parser.cc), so an accepted header and a plausible
-- section count are all that an image needs.
use fn_finder.Base.{
  ℕ, zero, suc, ◌+◌, ◌-◌, ◌*◌, ◌/◌, ◌≤◌, ◌≡◌, ◌&&◌, ◌||◌, true, arith, ◌==◌, if◌then◌else◌, ltb,
  Bool-cases, Option-cases, inl, inr, some, length-take, drop,
}
use fn_finder.Base.Words.{Address}
use fn_finder.Common.Result.{IsDone, IsDone->>=}
use fn_finder.Common.ByteReader.{ByteReader, size, in_bounds, ensure, u32, u64}
use fn_finder.Common.ByteReader.Bounds.{length-drop, u32-IsDone, u64-IsDone}
use fn_finder.Elf.Types.{pt_dynamic, ElfImage, SymbolOrigin}
use fn_finder.Elf.Image.{DataSpan, data_at, data_at-IsWithin}
use fn_finder.Elf.Parser.Entry.{read_symbol, named, stride_of}
use fn_finder.Elf.Parser.Dynamic.{
  dynamic_from, Dynamic, set_tag, span_reader, hash_count, last_symbol, chain_end, gnu_hash_table,
  gnu_hash_count, dynamic_symbol_count, dynamic_symbols_from, dynamic_symbols,
  parse_dynamic_symbols, no_dynamic, find_segment, limited_names,
}
use fn_finder.Elf.Parser.Symbols.{symbols_of_sections, parse_symbols}
use fn_finder.Elf.Parser.SectionSymbols.{
  read_symbol-IsDone, named-IsDone, symbols_of_sections-IsDone,
}

-- The scan stays in the segment, which is in bounds.
dynamic_from-IsDone :
    (r : ByteReader) (offset count i : ℕ) (d : Dynamic)
    → offset + (i + count) * 16 ≤ size r
    → IsDone (dynamic_from r offset count i d)
unfolding dynamic_from u64 ensure in_bounds
dynamic_from-IsDone r offset zero i d h = tt
dynamic_from-IsDone r offset (suc count) i d h =
    IsDone->>= (u64 r (offset + i * 16)) _ (u64-IsDone r (offset + i * 16) (omega arith)) (λ tag _.
      IsDone->>= (u64 r (offset + i * 16 + 8)) _ (u64-IsDone r (offset + i * 16 + 8) (omega arith))
        (λ val _. elim (Bool-cases (tag == 0)) [
          | inl e ↦ rw e tt
          | inr e ↦
              rw e (dynamic_from-IsDone r offset count (i + 1) (set_tag d tag val) (omega arith))
        ]))

-- A reader of the bytes behind a pointer has as many bytes as were reported.
size-span_reader :
    (image : ElfImage) (addr : Address) (span : DataSpan)
    → data_at image addr ≡ some span
    → size (span_reader image span) ≡ span.available
size-span_reader image addr span h =
    let w = data_at-IsWithin image addr span h in
    ground (
      arith,
      length-take span.available (drop span.offset image.bytes),
      length-drop span.offset image.bytes,
      w.ends,
    )

hash_count-IsDone : (image : ElfImage) (vaddr : Address) → IsDone (hash_count image vaddr)
unfolding hash_count u32 ensure in_bounds
hash_count-IsDone image vaddr = elim (Option-cases (data_at image vaddr)) [
  | inl e ↦ ground arith
  | inr (span, e) ↦ ground (arith, size-span_reader image vaddr span e)
]

last_symbol-IsDone :
    (r : ByteReader) (offset count b last : ℕ)
    → offset + (b + count) * 4 ≤ size r
    → IsDone (last_symbol r offset count b last)
unfolding last_symbol
last_symbol-IsDone r offset zero b last h = tt
last_symbol-IsDone r offset (suc count) b last h =
    IsDone->>= (u32 r (offset + b * 4)) _ (u32-IsDone r (offset + b * 4) (omega arith)) (λ v _.
      last_symbol-IsDone r offset count (b + 1) (if ltb last v then v else last) (omega arith))

chain_end-IsDone :
    (fuel : ℕ) (r : ByteReader) (offset index : ℕ) → IsDone (chain_end fuel r offset index)
unfolding chain_end u32 ensure in_bounds
chain_end-IsDone zero r offset index = tt
chain_end-IsDone (suc fuel) r offset index =
    ground (arith, chain_end-IsDone fuel r offset (index + 1))

-- Behind the test of the buckets' bounds.
buckets-IsDone :
    (r : ByteReader) (buckets sym_offset off : ℕ)
    → in_bounds r off (buckets * 4) ≡ true
    → IsDone (last_symbol r off buckets 0 0)
unfolding in_bounds
buckets-IsDone r buckets sym_offset off h = last_symbol-IsDone r off buckets 0 0 (ground arith)

gnu_hash_table-IsDone : (r : ByteReader) → 16 ≤ size r → IsDone (gnu_hash_table r)
unfolding gnu_hash_table
gnu_hash_table-IsDone r h = IsDone->>= (u32 r 0) _ (u32-IsDone r 0 (omega arith)) (λ buckets _.
    IsDone->>= (u32 r 4) _ (u32-IsDone r 4 (omega arith)) (λ sym_offset _.
      IsDone->>= (u32 r 8) _ (u32-IsDone r 8 (omega arith)) (λ bloom _.
        let off = 16 + bloom * 8 in
        elim (Bool-cases (ltb 0 buckets && ltb 0 bloom && in_bounds r off (buckets * 4))) [
          | inl e ↦ rw e (
              IsDone->>= (last_symbol r off buckets 0 0) _
                (buckets-IsDone r buckets sym_offset off (ground arith))
                (λ last _. elim (Bool-cases (ltb last sym_offset)) [
                  | inl l ↦ rw l tt
                  | inr l ↦ rw l (
                      IsDone->>= (chain_end (size r) r (off + buckets * 4) (last - sym_offset)) _
                        (chain_end-IsDone (size r) r (off + buckets * 4) (last - sym_offset))
                        (λ end _. tt))
                ]))
          | inr e ↦ rw e tt
        ])))

gnu_hash_count-IsDone : (image : ElfImage) (vaddr : Address) → IsDone (gnu_hash_count image vaddr)
unfolding gnu_hash_count
gnu_hash_count-IsDone image vaddr = elim (Option-cases (data_at image vaddr)) [
  | inl e ↦ ground arith
  | inr (span, e) ↦
      ground
        (arith, size-span_reader image vaddr span e, gnu_hash_table-IsDone (span_reader image span))
]

dynamic_symbol_count-IsDone :
    (image : ElfImage) (d : Dynamic) (stride : ℕ) → IsDone (dynamic_symbol_count image d stride)
unfolding dynamic_symbol_count
dynamic_symbol_count-IsDone image d stride =
    IsDone->>= (hash_count image d.hash_vaddr) _ (hash_count-IsDone image d.hash_vaddr) (λ o _.
      elim (Option-cases o) [
        | inl e ↦ rw e (
            IsDone->>= (gnu_hash_count image d.gnu_hash_vaddr) _
              (gnu_hash_count-IsDone image d.gnu_hash_vaddr) (λ q _. tt))
        | inr (count, e) ↦ rw e tt
      ])

dynamic_symbols_from-IsDone :
    (symbols names : ByteReader) (stride count i : ℕ)
    → IsDone (dynamic_symbols_from symbols names stride count i)
unfolding dynamic_symbols_from
dynamic_symbols_from-IsDone symbols names stride zero i = tt
dynamic_symbols_from-IsDone symbols names stride (suc count) i =
    let base = i * stride in
    elim (Bool-cases (in_bounds symbols base 24)) [
      | inl e ↦
          rw (dynamic_symbols_from, e)
            (IsDone->>= (read_symbol symbols base SymbolOrigin.dynsym) _
              (read_symbol-IsDone symbols base SymbolOrigin.dynsym e)
              (λ p _.
                IsDone->>= (named names p.0 p.0 p.1) _ (named-IsDone names p.0 p.0 p.1) (λ s _.
                  IsDone->>= (dynamic_symbols_from symbols names stride count (i + 1)) _
                    (dynamic_symbols_from-IsDone symbols names stride count (i + 1))
                    (λ rest _. tt))))
      | inr e ↦ rw (dynamic_symbols_from, e) tt
    ]

dynamic_symbols-IsDone :
    (image : ElfImage) (d : Dynamic) (symbols names : DataSpan)
    → IsDone (dynamic_symbols image d symbols names)
unfolding dynamic_symbols
dynamic_symbols-IsDone image d symbols names =
    IsDone->>= (dynamic_symbol_count image d (stride_of d.sym_ent_size 24)) _
      (dynamic_symbol_count-IsDone image d (stride_of d.sym_ent_size 24))
      (λ count _.
        dynamic_symbols_from-IsDone (span_reader image symbols)
          (span_reader image (limited_names d names)) (stride_of d.sym_ent_size 24) _ 0)

segment_fits :
    (r : ByteReader) (offset count : ℕ)
    → in_bounds r offset count ≡ true
    → offset + (0 + count / 16) * 16 ≤ size r
unfolding in_bounds
segment_fits r offset count h = ground arith

-- The scan of an accepted PT_DYNAMIC, and the tables that it names.
parse_dynamic_symbols-IsDone :
    (r : ByteReader) (image : ElfImage) → IsDone (parse_dynamic_symbols r image)
unfolding parse_dynamic_symbols
parse_dynamic_symbols-IsDone r image =
    elim (Option-cases (find_segment pt_dynamic image.segments)) [
      | inl e ↦ rw (parse_dynamic_symbols, e) tt
      | inr (s, e) ↦ elim (Bool-cases (in_bounds r s.file_offset s.file_size)) [
        | inr b ↦ rw (parse_dynamic_symbols, e, b) tt
        | inl b ↦
            rw (parse_dynamic_symbols, e, b)
              (IsDone->>= (dynamic_from r s.file_offset (s.file_size / 16) 0 no_dynamic) _
                (dynamic_from-IsDone r s.file_offset (s.file_size / 16) 0 no_dynamic
                  (segment_fits r s.file_offset s.file_size b))
                (λ d _. elim (Bool-cases (d.symtab_vaddr == 0 || d.strtab_vaddr == 0)) [
                  | inl z ↦ rw z tt
                  | inr z ↦ rw z (elim (Option-cases (data_at image d.symtab_vaddr)) [
                    | inl n ↦ rw n tt
                    | inr (symbols, n) ↦ rw n (elim (Option-cases (data_at image d.strtab_vaddr)) [
                      | inl k ↦ rw k tt
                      | inr (names, k) ↦ rw k (dynamic_symbols-IsDone image d symbols names)
                    ])
                  ])
                ]))
      ]
    ]

pub parse_symbols-IsDone : (r : ByteReader) (image : ElfImage) → IsDone (parse_symbols r image)
unfolding parse_symbols
parse_symbols-IsDone r image =
    IsDone->>= (symbols_of_sections r image.sections image.sections) _
      (symbols_of_sections-IsDone r image.sections image.sections)
      (λ p _. elim (Bool-cases p.1) [
        | inl e ↦ rw e tt
        | inr e ↦ rw e (parse_dynamic_symbols-IsDone r image)
      ])
