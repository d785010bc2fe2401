-- ===== src/Analysis/EhFrame/Ranges.antt =====
-- The ranges that `EhFrameParser::parse` of src/analysis/eh_frame_parser.cc finds.
use fn_finder.Base.{
  ℕ, zero, suc, ◌<◌, ◌≡◌, true, false, Bool, List, [], ◌∷◌, Option, some, none, arith, ltb, ◌==◌,
  Bool-cases, Option-cases, inl, inr, All, All-append, if◌then◌else◌, refl, sym, subst,
}
use fn_finder.Base.Words.{Address, sub64}
use fn_finder.Common.Result.{Result-cases, done}
use fn_finder.Common.ByteReader.{ByteReader, remaining, seek, read_u32, read_u64}
use fn_finder.Elf.Types.{ElfImage}
use fn_finder.Analysis.EhFrame.{
  EhFrameFunction, Parsing, read_length, read_entry, read_body, read_cie, read_fde, encoding_of,
  parse_round, parse_loop, parse, append_function, start_parsing,
}
use fn_finder.Analysis.EhFrame.Blobs.{decode_pointer, locate_eh_frame, locate_eh_frame_hdr}

abbrev pub IsPositive : EhFrameFunction → Type 0
IsPositive f = 0 < f.size

read_fde-IsPositive :
    (encoding : ℕ) (vaddr : Address) (r : ByteReader) (f : EhFrameFunction)
    → read_fde encoding vaddr r ≡ done (some f)
    → IsPositive f
unfolding read_fde
read_fde-IsPositive encoding vaddr r f h =
    elim (Result-cases (decode_pointer r encoding vaddr true)) [
      | inl (s, e) ↦ ground arith
      | inr ((none, r1), e) ↦ ground arith
      | inr ((some begin, r1), e) ↦ elim (Result-cases (decode_pointer r1 encoding vaddr false)) [
        | inl (s, q) ↦ ground arith
        | inr ((none, r2), q) ↦ ground arith
        | inr ((some range, r2), q) ↦ ground arith
      ]
    ]

append_function-All :
    (functions : List EhFrameFunction) (found : Option EhFrameFunction)
    → All IsPositive functions
    → ((f : EhFrameFunction) → found ≡ some f → IsPositive f)
    → All IsPositive (append_function functions found)
append_function-All functions none h k = h
append_function-All functions (some f) h k =
    All-append IsPositive functions (f ∷ []) h (k f refl, tt)

-- A CIE leaves the functions, an FDE appends at most one.
read_body-All :
    (vaddr : Address) (start : ℕ) (dwarf64 : Bool) (r : ByteReader) (p p' : Parsing)
    → All IsPositive p.functions
    → read_body vaddr start dwarf64 r p ≡ done p'
    → All IsPositive p'.functions
unfolding read_body
read_body-All vaddr start dwarf64 r p p' a h =
    elim (Result-cases (if dwarf64 then read_u64 r else read_u32 r)) [
      | inl (s, e) ↦ ground arith
      | inr ((id, r1), e) ↦ elim (Bool-cases (id == 0)) [
        | inl z ↦ elim (Result-cases (read_cie vaddr r1)) [
          | inl (s, q) ↦ ground arith
          | inr (encoding, q) ↦ ground arith
        ]
        | inr z ↦
            let encoding = encoding_of p.cie_encoding (sub64 r.position id) in
            elim (Result-cases (read_fde encoding vaddr r1)) [
              | inl (s, q) ↦ ground arith
              | inr (found, q) ↦
                  let k =
                    append_function-All p.functions found a
                      (λ f o. read_fde-IsPositive encoding vaddr r1 f (ground arith)) in
                  ground arith
            ]
      ]
    ]

parse_round-All :
    (vaddr : Address) (p p' : Parsing)
    → All IsPositive p.functions
    → parse_round vaddr p ≡ done (some p')
    → All IsPositive p'.functions
unfolding parse_round read_entry seek
parse_round-All vaddr p p' a h = elim (Result-cases (read_length p.reader)) [
  | inl (s, e) ↦ ground arith
  | inr (((len, dwarf64), r), e) ↦
      elim (Result-cases (read_body vaddr p.reader.position dwarf64 r p)) [
        | inl (s, q) ↦ ground arith
        | inr (p1, q) ↦
            let same : p'.functions ≡ p1.functions = ground arith in
            subst (All IsPositive) (sym same)
              (read_body-All vaddr p.reader.position dwarf64 r p p1 a q)
      ]
]

parse_loop-All :
    (fuel : ℕ) (vaddr : Address) (p : Parsing)
    → All IsPositive p.functions
    → All IsPositive (parse_loop fuel vaddr p)
unfolding parse_loop
parse_loop-All zero vaddr p a = a
parse_loop-All (suc fuel) vaddr p a = elim (Bool-cases (ltb (remaining p.reader) 4)) [
  | inl e ↦ rw (parse_loop, e) a
  | inr e ↦ elim (Result-cases (parse_round vaddr p)) [
    | inl (s, q) ↦ rw (parse_loop, e, q) a
    | inr (none, q) ↦ rw (parse_loop, e, q) a
    | inr (some p', q) ↦
        rw (parse_loop, e, q) (parse_loop-All fuel vaddr p' (parse_round-All vaddr p p' a q))
  ]
]

-- Every range that is found has at least one byte.
pub parse-All : (image : ElfImage) → All IsPositive (parse image)
unfolding parse
parse-All image = elim (Option-cases (locate_eh_frame image (locate_eh_frame_hdr image))) [
  | inl e ↦ rw (parse, e) tt
  | inr (blob, e) ↦ elim (Bool-cases (ltb 0 blob.size)) [
    | inl s ↦ rw (parse, e, s) (parse_loop-All blob.size blob.vaddr (start_parsing image blob) tt)
    | inr s ↦ rw (parse, e, s) tt
  ]
]
