-- ===== src/Analysis/EhFrame.antt =====
-- Function ranges from the unwind tables: src/analysis/eh_frame_parser.h and eh_frame_parser.cc.
pub mod Blobs
pub mod Rounds
pub mod Ranges
use fn_finder.Base.{
  ℕ, zero, suc, ◌+◌, ◌-◌, Bool, true, false, not, ◌&&◌, ◌||◌, List, [], ◌∷◌, ◌++◌, Option, none,
  some, ltb, leb, ◌==◌, if◌then◌else◌, min, take, drop, bit_and,
}
use fn_finder.Base.Words.{Address, add64, sub64}
use fn_finder.Base.Maps.{find, assign}
use fn_finder.Common.Result.{Result, failure, done, ◌>>=◌, ◌>>◌}
use fn_finder.Common.ByteReader.{
  ByteReader, make_reader, size, remaining, seek, read_u8, read_u16, read_u32, read_u64, read_s16,
  read_s32, read_uleb128, read_sleb128, read_c_string,
}
use fn_finder.Elf.Types.{ElfImage, ElfSegment, has_file_data, pt_gnu_eh_frame}
use fn_finder.Elf.Image.{DataSpan, data_at, find_section}
use Blobs.{
  pe_absptr, eh_frame_name, Blob, locate_eh_frame_hdr, blob_reader, decode_pointer, locate_eh_frame,
}

abbrev dwarf64_marker : ℕ
dwarf64_marker = 0xffff_ffff

pub record EhFrameFunction : Type 0 where
  pub start : Address
  pub size : ℕ

-- The loop over the augmentation's letters behind the `z`: the FDE encoding.
unfoldable pub augment :
    List ℕ → (fde_encoding : ℕ) → Address → ByteReader → Result (ℕ × ByteReader)
unfolding read_u8 decode_pointer
augment [] fde_encoding vaddr r = done (fde_encoding, r)
augment (a ∷ rest) fde_encoding vaddr r = elim (a == 0x52) [
  | true ↦ do (encoding, r') ← read_u8 r; augment rest encoding vaddr r'
  | false ↦ elim (a == 0x50) [
    | true ↦ do
      (encoding, r1) ← read_u8 r
      (_, r2) ← decode_pointer r1 encoding vaddr true
      augment rest fde_encoding vaddr r2
    | false ↦ elim (a == 0x4c) [
      | true ↦ do (_, r') ← read_u8 r; augment rest fde_encoding vaddr r'
      | false ↦ elim (a == 0x53) [
        | true ↦ augment rest fde_encoding vaddr r
        | false ↦ done (fde_encoding, r)
      ]
    ]
  ]
]

-- The augmentation data of a CIE; `seek(augEnd)` may throw.
unfoldable pub read_augmentation : List ℕ → Address → ByteReader → Result ℕ
unfolding read_uleb128 augment seek
read_augmentation [] vaddr r = done pe_absptr
read_augmentation (z ∷ letters) vaddr r = if not (z == 0x7a) then done pe_absptr else do
  (length, r1) ← read_uleb128 r
  (encoding, r2) ← augment letters pe_absptr vaddr r1
  r3 ← seek r2 (add64 r1.position length)
  done encoding

-- A CIE behind its id: its FDE encoding.
unfoldable pub read_cie : Address → ByteReader → Result ℕ
unfolding read_u8 read_c_string read_uleb128 read_sleb128 read_augmentation
read_cie vaddr r = do
  (version, r1) ← read_u8 r
  (augmentation, r2) ← read_c_string r1
  r3 ←
      (if leb 4 version
        then (do (_, r') ← read_u8 r2; (_, r'') ← read_u8 r'; done r'')
        else done r2)
  (_, r4) ← read_uleb128 r3
  (_, r5) ← read_sleb128 r4
  (_, r6) ← (if version == 1 then read_u8 r5 else read_uleb128 r5)
  read_augmentation augmentation vaddr r6

-- An FDE behind its id: its range, if it is decoded and not empty.
unfoldable pub read_fde : (encoding : ℕ) → Address → ByteReader → Result (Option EhFrameFunction)
unfolding decode_pointer
read_fde encoding vaddr r = do
  (begin, r1) ← decode_pointer r encoding vaddr true
  elim begin [
    | none ↦ done none
    | some pc_begin ↦ do
      (range, _) ← decode_pointer r1 encoding vaddr false
      done (elim range [
        | none ↦ none
        | some pc_range ↦
            if ltb 0 pc_range then some (record { start = pc_begin; size = pc_range }) else none
      ])
  ]

-- The variables of the loop; the reader's position is that of `reader`.
pub record Parsing : Type 0 where
  pub reader : ByteReader
  pub cie_encoding : List (ℕ × ℕ)
  pub functions : List EhFrameFunction

abbrev append_function : List EhFrameFunction → Option EhFrameFunction → List EhFrameFunction
append_function functions none = functions
append_function functions (some f) = functions ++ f ∷ []

-- The encoding that the CIE at `cie_start` recorded.
unfoldable pub encoding_of : List (ℕ × ℕ) → ℕ → ℕ
unfolding find
encoding_of encodings cie_start = elim (find cie_start encodings) [
  | none ↦ pe_absptr
  | some encoding ↦ encoding
]

-- The two branches on the id, for an entry whose id is at the position of `r`.
unfoldable pub read_body :
    Address → (entry_start : ℕ) → (dwarf64 : Bool) → ByteReader → Parsing → Result Parsing
unfolding read_u64 read_u32 read_cie read_fde encoding_of assign
read_body vaddr entry_start dwarf64 r p = do
  (id, r') ← (if dwarf64 then read_u64 r else read_u32 r)
  if id == 0
      then (do
        encoding ← read_cie vaddr r'
        done (record p { cie_encoding = assign entry_start encoding p.cie_encoding }))
      else (do
        found ← read_fde (encoding_of p.cie_encoding (sub64 r.position id)) vaddr r'
        done (record p { functions = append_function p.functions found }))

-- An entry behind its length. `seek(entryEnd)` moves only the position.
unfoldable pub read_entry :
    Address → (entry_start entry_end : ℕ) → (dwarf64 : Bool) → ByteReader → Parsing → Result Parsing
unfolding read_body seek
read_entry vaddr entry_start entry_end dwarf64 r p = do
  p' ← read_body vaddr entry_start dwarf64 r p
  next ← seek r entry_end
  done (record p' { reader = next })

-- The length field: the length, `dwarf64`, and the reader behind it.
unfoldable pub read_length : ByteReader → Result ((ℕ × Bool) × ByteReader)
unfolding read_u32 read_u64
read_length r = do
  (length, r1) ← read_u32 r
  if length == dwarf64_marker
      then (do (length', r2) ← read_u64 r1; done ((length', true), r2))
      else done ((length, false), r1)

-- The body of the loop; `none` is a `break`.
unfoldable pub parse_round : Address → Parsing → Result (Option Parsing)
unfolding read_length read_entry
parse_round vaddr p = do
  ((length, dwarf64), r) ← read_length p.reader
  let entry_end = add64 r.position length
  if length == 0 || ltb (size r) length || ltb (size r) entry_end || ltb entry_end r.position
      then done none
      else do p' ← read_entry vaddr p.reader.position entry_end dwarf64 r p; done (some p')

-- The loop, on fuel, inside the `try`: an error keeps the functions that were found.
unfoldable pub parse_loop : (fuel : ℕ) → Address → Parsing → List EhFrameFunction
unfolding parse_round
parse_loop zero vaddr p = p.functions
parse_loop (suc fuel) vaddr p = elim (ltb (remaining p.reader) 4) [
  | true ↦ p.functions
  | false ↦ elim (parse_round vaddr p) [
    | failure _ ↦ p.functions
    | done none ↦ p.functions
    | done (some p') ↦ parse_loop fuel vaddr p'
  ]
]

-- The variables in front of the loop.
abbrev pub start_parsing : ElfImage → Blob → Parsing
start_parsing image blob = record {
  reader = blob_reader image blob;
  cie_encoding = [];
  functions = [];
}

-- `EhFrameParser::parse`. Every round moves on, so a round for each byte is enough.
unfoldable pub parse : ElfImage → List EhFrameFunction
unfolding locate_eh_frame_hdr locate_eh_frame parse_loop
parse image = elim (locate_eh_frame image (locate_eh_frame_hdr image)) [
  | none ↦ []
  | some blob ↦
      if not (ltb 0 blob.size)
      then []
      else parse_loop blob.size blob.vaddr (start_parsing image blob)
]
