-- ===== src/Elf/Image.antt =====
-- Lookups in a parsed image: src/elf/elf_image.cc.
use fn_finder.Base.{
  ℕ, ◌+◌, ◌-◌, ◌≤◌, ◌<◌, not, ◌||◌, List, [], ◌∷◌, Option, none, some, ltb, leb, if◌then◌else◌,
  length, min, ◌≡◌, arith, text_eq,
}
use fn_finder.Base.Words.{Address, add64}
use fn_finder.Elf.Types.{ElfSection, ElfSegment, ElfImage, is_allocated, has_file_data, is_loadable}

-- A non-null `const std::uint8_t*` into the file's bytes, as its offset, with the count of bytes
-- that the callee reports as `available`.
pub record DataSpan : Type 0 where
  pub offset : ℕ
  pub available : ℕ

find_section_in : List ℕ → List ElfSection → Option ElfSection
find_section_in name [] = none
find_section_in name (s ∷ rest) =
    let later = find_section_in name rest in if text_eq s.name name then some s else later

unfoldable pub find_section : ElfImage → List ℕ → Option ElfSection
unfolding find_section_in text_eq
find_section image name = find_section_in name image.sections

-- What a section or a segment that covers `addr` yields: null past the end of the file.
unfoldable pub span_at : ℕ → (start file_offset size : ℕ) → Address → Option DataSpan
span_at file_size start file_offset size addr =
    let delta = addr - start in
    let at = add64 file_offset delta in
    if leb file_size at
    then none
    else some (record { offset = at; available = min (size - delta) (file_size - at) })

unfoldable pub data_in_segments : ℕ → List ElfSegment → Address → Option DataSpan
data_in_segments file_size [] addr = none
data_in_segments file_size (s ∷ rest) addr =
    let later = data_in_segments file_size rest addr in
    if not (is_loadable s)
    then later
    else if ltb addr s.virtual_address || leb (add64 s.virtual_address s.file_size) addr
    then later
    else span_at file_size s.virtual_address s.file_offset s.file_size addr

unfoldable pub data_in_sections : ℕ → List ElfSection → List ElfSegment → Address → Option DataSpan
unfolding data_in_segments
data_in_sections file_size [] segments addr = data_in_segments file_size segments addr
data_in_sections file_size (s ∷ rest) segments addr =
    let later = data_in_sections file_size rest segments addr in
    if not (is_allocated s) || not (has_file_data s)
    then later
    else if ltb addr s.address || leb (add64 s.address s.size) addr
    then later
    else span_at file_size s.address s.file_offset s.size addr

-- `ElfImage::dataAt`. Behind the range tests `addr` is not below the start, so `-` is exact.
unfoldable pub data_at : ElfImage → Address → Option DataSpan
unfolding data_in_sections span_at
data_at image addr = data_in_sections (length image.bytes) image.sections image.segments addr

-- A span lies inside a file of the given size.
pub record IsWithin (file_size : ℕ) (span : DataSpan) : Type 0 where
  pub starts : span.offset < file_size
  pub ends : span.offset + span.available ≤ file_size

span_at-IsWithin :
    (n start offset size addr : ℕ) (span : DataSpan)
    → span_at n start offset size addr ≡ some span
    → IsWithin n span
unfolding span_at
span_at-IsWithin n start offset size addr span h = ground arith

data_in_segments-IsWithin :
    (n : ℕ) (segments : List ElfSegment) (addr : ℕ) (span : DataSpan)
    → data_in_segments n segments addr ≡ some span
    → IsWithin n span
unfolding data_in_segments
data_in_segments-IsWithin n [] addr span h = ground arith
data_in_segments-IsWithin n (s ∷ rest) addr span h = ground (
  arith,
  data_in_segments-IsWithin n rest addr span,
  span_at-IsWithin n s.virtual_address s.file_offset s.file_size addr span,
)

data_in_sections-IsWithin :
    (n : ℕ) (sections : List ElfSection) (segments : List ElfSegment) (addr : ℕ) (span : DataSpan)
    → data_in_sections n sections segments addr ≡ some span
    → IsWithin n span
unfolding data_in_sections
data_in_sections-IsWithin n [] segments addr span h =
    data_in_segments-IsWithin n segments addr span h
data_in_sections-IsWithin n (s ∷ rest) segments addr span h = ground (
  arith,
  data_in_sections-IsWithin n rest segments addr span,
  span_at-IsWithin n s.address s.file_offset s.size addr span,
)

-- Whatever the headers say, the bytes that `data_at` hands out lie inside the file.
pub data_at-IsWithin :
    (image : ElfImage) (addr : ℕ) (span : DataSpan)
    → data_at image addr ≡ some span
    → IsWithin (length image.bytes) span
unfolding data_at
data_at-IsWithin image addr span h =
    data_in_sections-IsWithin (length image.bytes) image.sections image.segments addr span h
