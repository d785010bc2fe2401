-- ===== src/Elf/Parser/Headers.antt =====
-- Once the header is accepted, the segment and section reads of src/elf/elf_parser.cc never throw,
-- the implausible section count apart.
use fn_finder.Base.{
  ℕ, zero, suc, ◌+◌, ◌*◌, ◌≤◌, get_elem?, ◌<◌, ◌≡◌, true, List, [], ◌∷◌, arith, ◌==◌, leb,
  Bool-cases, Option-cases, inl, inr,
}
use fn_finder.Base.Words.{add64}
use fn_finder.Common.Result.{done, IsDone, IsDone->>=}
use fn_finder.Common.ByteReader.{ByteReader, size, in_bounds, ensure, u32, u64, string_at}
use fn_finder.Elf.Types.{ElfSection}
use fn_finder.Elf.Parser.Entry.{stride_of}
use fn_finder.Elf.Parser.{
  Header, read_segment, segments_from, parse_segments, read_section, sections_from, section_limits,
  resolve_name, resolve_names, resolve_section_names, parse_sections, max_sections,
}

read_segment-IsDone :
    (r : ByteReader) (base : ℕ) → in_bounds r base 56 ≡ true → IsDone (read_segment r base)
unfolding read_segment u32 u64 ensure in_bounds
read_segment-IsDone r base h = ground arith

read_section-IsDone :
    (r : ByteReader) (base : ℕ) → in_bounds r base 64 ≡ true → IsDone (read_section r base)
unfolding read_section u32 u64 ensure in_bounds
read_section-IsDone r base h = ground arith

segments_from-IsDone :
    (r : ByteReader) (offset stride count i : ℕ) → IsDone (segments_from r offset stride count i)
unfolding segments_from
segments_from-IsDone r offset stride zero i = tt
segments_from-IsDone r offset stride (suc count) i =
    let base = add64 offset (i * stride) in
    elim (Bool-cases (in_bounds r base 56)) [
      | inl e ↦
          rw (segments_from, e)
            (IsDone->>= (read_segment r base) _ (read_segment-IsDone r base e) (λ s _.
              IsDone->>= (segments_from r offset stride count (i + 1)) _
                (segments_from-IsDone r offset stride count (i + 1)) (λ rest _. tt)))
      | inr e ↦ rw (segments_from, e) tt
    ]

sections_from-IsDone :
    (r : ByteReader) (offset stride count i : ℕ) → IsDone (sections_from r offset stride count i)
unfolding sections_from
sections_from-IsDone r offset stride zero i = tt
sections_from-IsDone r offset stride (suc count) i =
    let base = add64 offset (i * stride) in
    elim (Bool-cases (in_bounds r base 64)) [
      | inl e ↦
          rw (sections_from, e)
            (IsDone->>= (read_section r base) _ (read_section-IsDone r base e) (λ s _.
              IsDone->>= (sections_from r offset stride count (i + 1)) _
                (sections_from-IsDone r offset stride count (i + 1)) (λ rest _. tt)))
      | inr e ↦ rw (sections_from, e) tt
    ]

pub parse_segments-IsDone : (r : ByteReader) (h : Header) → IsDone (parse_segments r h)
unfolding parse_segments
parse_segments-IsDone r h = ground (
  arith,
  segments_from-IsDone r h.program_header_offset (stride_of h.program_entry_size 56) h.program_count
      0,
)

pub section_limits-IsDone : (r : ByteReader) (h : Header) → IsDone (section_limits r h)
unfolding section_limits u32 u64 ensure in_bounds
section_limits-IsDone r h = ground arith

pub string_at-IsDone : (r : ByteReader) (at : ℕ) → at < size r → IsDone (string_at r at)
unfolding string_at ensure in_bounds
string_at-IsDone r at h = ground arith

resolve_names-IsDone :
    (r : ByteReader) (strtab : ElfSection) (sections : List (ℕ × ElfSection))
    → IsDone (resolve_names r strtab sections)
unfolding resolve_names resolve_name string_at ensure in_bounds
resolve_names-IsDone r strtab [] = tt
resolve_names-IsDone r strtab (s ∷ rest) =
    IsDone->>= (resolve_name r strtab s) _ (ground arith) (λ section _.
      IsDone->>= (resolve_names r strtab rest) _ (resolve_names-IsDone r strtab rest)
        (λ others _. tt))

resolve_section_names-IsDone :
    (r : ByteReader) (index : ℕ) (sections : List (ℕ × ElfSection))
    → IsDone (resolve_section_names r index sections)
unfolding resolve_section_names
resolve_section_names-IsDone r index sections = elim (Option-cases (get_elem? sections index)) [
  | inl e ↦ rw (resolve_section_names, e) tt
  | inr ((name, strtab), e) ↦ rw (resolve_section_names, e) (resolve_names-IsDone r strtab sections)
]

-- The section headers are read exactly if their count is plausible.
pub parse_sections-IsDone :
    (r : ByteReader) (h : Header) (count index : ℕ)
    → section_limits r h ≡ done (count, index)
    → count ≤ max_sections
    → IsDone (parse_sections r h)
unfolding parse_sections
parse_sections-IsDone r h count index e plausible =
    let allowed : leb count max_sections ≡ true = ground arith in
    let stride = stride_of h.section_entry_size 64 in
    elim (Bool-cases (h.section_header_offset == 0)) [
      | inl z ↦ rw (parse_sections, z) tt
      | inr z ↦
          rw (parse_sections, z, e)
            (elim (Bool-cases (count == 0)) [
              | inl c ↦ rw c tt
              | inr c ↦
                  rw (c, allowed)
                    (IsDone->>= (sections_from r h.section_header_offset stride count 0) _
                      (sections_from-IsDone r h.section_header_offset stride count 0)
                      (λ sections _. resolve_section_names-IsDone r index sections))
            ])
    ]
