-- ===== src/Analysis/EhFrame/Blobs.antt =====
-- Where the unwind tables are, and their encoded pointers: `locateEhFrameHdr`, `locateEhFrame` and
-- `decodePointer` of src/analysis/eh_frame_parser.cc.
use fn_finder.Base.{
  ℕ, Bool, true, not, List, [], ◌∷◌, ◌++◌, Option, none, some, ltb, ◌==◌, if◌then◌else◌, min, take,
  drop, bit_and,
}
use fn_finder.Base.Words.{Address, add64}
use fn_finder.Common.Result.{Result, failure, done, ◌>>=◌}
use fn_finder.Common.ByteReader.{
  ByteReader, make_reader, read_u8, read_u16, read_u32, read_u64, read_s16, read_s32, read_uleb128,
  read_sleb128,
}
use fn_finder.Elf.Types.{ElfImage, ElfSegment, has_file_data, pt_gnu_eh_frame}
use fn_finder.Elf.Image.{DataSpan, data_at, find_section}

abbrev pe_omit : ℕ
pe_omit = 0xff

abbrev pub pe_absptr : ℕ
pe_absptr = 0

-- ".eh_frame" and ".eh_frame_hdr".
abbrev pub eh_frame_name : List ℕ
eh_frame_name = 0x2e ∷ 0x65 ∷ 0x68 ∷ 0x5f ∷ 0x66 ∷ 0x72 ∷ 0x61 ∷ 0x6d ∷ 0x65 ∷ []

abbrev eh_frame_hdr_name : List ℕ
eh_frame_hdr_name = eh_frame_name ++ 0x5f ∷ 0x68 ∷ 0x64 ∷ 0x72 ∷ []

-- `Blob`, whose data is an offset into the file. One without data is `none`.
pub record Blob : Type 0 where
  pub vaddr : Address
  pub offset : ℕ
  pub size : ℕ

abbrev limited_blob : Address → ℕ → Option DataSpan → Option Blob
limited_blob vaddr limit none = none
limited_blob vaddr limit (some span) =
    some (record { vaddr = vaddr; offset = span.offset; size = min limit span.available })

unfoldable pub section_blob : ElfImage → List ℕ → Option Blob
unfolding find_section data_at
section_blob image name = elim (find_section image name) [
  | none ↦ none
  | some s ↦
      if has_file_data s then limited_blob s.address s.size (data_at image s.address) else none
]

unfoldable pub segment_blob : ElfImage → List ElfSegment → Option Blob
unfolding data_at
segment_blob image [] = none
segment_blob image (s ∷ rest) =
    let later = segment_blob image rest in
    if not (s.type == pt_gnu_eh_frame)
    then later
    else elim (limited_blob s.virtual_address s.file_size (data_at image s.virtual_address)) [
      | none ↦ later
      | some blob ↦ some blob
    ]

unfoldable pub locate_eh_frame_hdr : ElfImage → Option Blob
unfolding section_blob segment_blob
locate_eh_frame_hdr image = elim (section_blob image eh_frame_hdr_name) [
  | some blob ↦ some blob
  | none ↦ segment_blob image image.segments
]

abbrev pub blob_reader : ElfImage → Blob → ByteReader
blob_reader image blob = make_reader (take blob.size (drop blob.offset image.bytes))

-- The switch on the format; `none` is its default case.
unfoldable pub read_raw : (format : ℕ) → ByteReader → Result (Option ℕ × ByteReader)
unfolding read_u64 read_uleb128 read_u16 read_u32 read_sleb128 read_s16 read_s32
read_raw format r =
    if format == 0x00
    then (do (v, r') ← read_u64 r; done (some v, r'))
    else if format == 0x01
    then (do (v, r') ← read_uleb128 r; done (some v, r'))
    else if format == 0x02
    then (do (v, r') ← read_u16 r; done (some v, r'))
    else if format == 0x03
    then (do (v, r') ← read_u32 r; done (some v, r'))
    else if format == 0x04
    then (do (v, r') ← read_u64 r; done (some v, r'))
    else if format == 0x09
    then (do (v, r') ← read_sleb128 r; done (some v, r'))
    else if format == 0x0a
    then (do (v, r') ← read_s16 r; done (some v, r'))
    else if format == 0x0b
    then (do (v, r') ← read_s32 r; done (some v, r'))
    else if format == 0x0c
    then (do (v, r') ← read_u64 r; done (some v, r'))
    else done (none, r)

-- The switch on the application.
abbrev pointer_base : (application field_pos : ℕ) → Address → ℕ
pointer_base application field_pos blob_vaddr =
    if application == 0x10
    then add64 blob_vaddr field_pos
    else if application == 0x30
    then blob_vaddr
    else 0

-- `decodePointer`: `out`, or `none` where it returns false.
unfoldable pub decode_pointer :
    ByteReader → (encoding : ℕ) → Address → (apply_base : Bool) → Result (Option ℕ × ByteReader)
unfolding read_raw
decode_pointer r encoding blob_vaddr apply_base = if encoding == pe_omit then done (none, r) else do
  (raw, r') ← read_raw (bit_and encoding 0x0f) r
  done (
    elim raw [
      | none ↦ none
      | some v ↦
          if not (bit_and encoding 0x80 == 0)
          then none
          else if not apply_base
          then some v
          else some (add64 (pointer_base (bit_and encoding 0x70) r.position blob_vaddr) v)
    ],
    r',
  )

-- The pointer to `.eh_frame` in the header behind its four leading bytes.
unfoldable pub header_pointer : ByteReader → Address → Result (Option ℕ)
unfolding read_u8 decode_pointer
header_pointer r vaddr = do
  (version, r1) ← read_u8 r
  (encoding, r2) ← read_u8 r1
  (_, r3) ← read_u8 r2
  (_, r4) ← read_u8 r3
  (pointer, _) ← decode_pointer r4 encoding vaddr true
  done pointer

abbrev whole_blob : ElfImage → Result (Option ℕ) → Option Blob
whole_blob image (failure _) = none
whole_blob image (done none) = none
whole_blob image (done (some vaddr)) = elim (data_at image vaddr) [
  | none ↦ none
  | some span ↦ some (record { vaddr = vaddr; offset = span.offset; size = span.available })
]

unfoldable pub locate_eh_frame : ElfImage → Option Blob → Option Blob
unfolding section_blob header_pointer data_at
locate_eh_frame image hdr = elim (section_blob image eh_frame_name) [
  | some blob ↦ some blob
  | none ↦ elim hdr [
    | none ↦ none
    | some h ↦
        if ltb h.size 4
        then none
        else whole_blob image (header_pointer (blob_reader image h) h.vaddr)
  ]
]
