-- ===== src/Analysis/EhFrame/Rounds.antt =====
-- The loop of `EhFrameParser::parse` in src/analysis/eh_frame_parser.cc ends by its own tests.
use fn_finder.Base.{
  ℕ, zero, suc, ◌+◌, ◌≤◌, ◌<◌, ◌≡◌, ap, refl, Bool, some, none, arith, ltb, Bool-cases, inl, inr,
  length, length-take, drop,
}
use fn_finder.Base.Words.{Address, add64}
use fn_finder.Common.Result.{Result-cases, done}
use fn_finder.Common.ByteReader.{
  ByteReader, size, remaining, seek, in_bounds, ensure, u32, u64, read_u32, read_u64,
}
use fn_finder.Elf.Types.{ElfImage}
use fn_finder.Analysis.EhFrame.{
  Parsing, read_length, read_entry, read_body, parse_round, parse_loop, parse, start_parsing,
}
use fn_finder.Analysis.EhFrame.Blobs.{Blob, locate_eh_frame, locate_eh_frame_hdr}

read_length_moves :
    (r r' : ByteReader) (out : ℕ × Bool)
    → read_length r ≡ done (out, r')
    → (r'.bytes ≡ r.bytes) × (r.position + 4 ≤ r'.position) × (r'.position ≤ size r)
unfolding read_length read_u32 read_u64 u32 u64 ensure in_bounds
read_length_moves r r' out h = ground arith

read_entry_moves :
    (vaddr : Address) (start end : ℕ) (dwarf64 : Bool) (r : ByteReader) (p p' : Parsing)
    → read_entry vaddr start end dwarf64 r p ≡ done p'
    → (p'.reader.bytes ≡ r.bytes) × (p'.reader.position ≡ end) × (end ≤ size r)
unfolding read_entry seek
read_entry_moves vaddr start end dwarf64 r p p' h =
    elim (Result-cases (read_body vaddr start dwarf64 r p)) [
      | inl (s, e) ↦ ground arith
      | inr (p1, e) ↦ ground arith
    ]

parse_round_moves :
    (vaddr : Address) (p p' : Parsing)
    → parse_round vaddr p ≡ done (some p')
    → (p'.reader.bytes ≡ p.reader.bytes)
      × (p.reader.position < p'.reader.position)
      × (p'.reader.position ≤ size p.reader)
unfolding parse_round
parse_round_moves vaddr p p' h = elim (Result-cases (read_length p.reader)) [
  | inl (s, e) ↦ ground arith
  | inr (((len, dwarf64), r), e) ↦
      let moved = read_length_moves p.reader r (len, dwarf64) e in
      elim (Result-cases (read_entry vaddr p.reader.position (add64 r.position len) dwarf64 r p)) [
        | inl (s, q) ↦ ground arith
        | inr (p1, q) ↦ ground (
          arith,
          read_entry_moves vaddr p.reader.position (add64 r.position len) dwarf64 r p p1 q,
        )
      ]
]

-- Any two numbers of rounds that reach the remaining bytes give the same functions: the loop has
-- ended by its own tests.
parse_loop_enough :
    (fuel more : ℕ) (vaddr : Address) (p : Parsing)
    → remaining p.reader ≤ fuel
    → remaining p.reader ≤ more
    → parse_loop fuel vaddr p ≡ parse_loop more vaddr p
unfolding parse_loop
parse_loop_enough zero zero vaddr p h k = refl
parse_loop_enough zero (suc more) vaddr p h k = ground arith
parse_loop_enough (suc fuel) zero vaddr p h k = ground arith
parse_loop_enough (suc fuel) (suc more) vaddr p h k =
    elim (Bool-cases (ltb (remaining p.reader) 4)) [
      | inl e ↦ ground arith
      | inr e ↦ elim (Result-cases (parse_round vaddr p)) [
        | inl (s, q) ↦ ground arith
        | inr (none, q) ↦ ground arith
        | inr (some p', q) ↦ ground (
          arith,
          parse_round_moves vaddr p p' q,
          ap length (parse_round_moves vaddr p p' q).0,
          parse_loop_enough fuel more vaddr p',
        )
      ]
    ]

-- `parse` gives what its loop gives on any number of rounds that reaches the blob's size: the loop
-- ends by its own tests.
pub parse_enough :
    (image : ElfImage) (blob : Blob) (more : ℕ)
    → locate_eh_frame image (locate_eh_frame_hdr image) ≡ some blob
    → blob.size ≤ more
    → parse image ≡ parse_loop more blob.vaddr (start_parsing image blob)
unfolding parse parse_loop
parse_enough image blob more e h =
    let p = start_parsing image blob in
    let left : remaining p.reader ≤ blob.size =
      omega (arith, length-take blob.size (drop blob.offset image.bytes)) in
    elim (Bool-cases (ltb 0 blob.size)) [
      | inl s ↦ rw (parse, e, s) (parse_loop_enough blob.size more blob.vaddr p left (omega arith))
      | inr s ↦
          rw (parse, e, s) (parse_loop_enough zero more blob.vaddr p (ground arith) (omega arith))
    ]
