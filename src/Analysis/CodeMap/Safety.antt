-- ===== src/Analysis/CodeMap/Safety.antt =====
-- What `CodeMap::at` hands out lies inside the file.
use fn_finder.Base.{
  ℕ, ◌+◌, ◌-◌, ◌≤◌, ◌<◌, ◌≡◌, List, [], ◌∷◌, some, Bool, false, not, ◌||◌, arith, length, All,
  All-append, All-In, inl, inr, if◌then◌else◌, Option-cases, Bool-cases, ◌==◌, min,
}
use fn_finder.Base.Sort.{All-sort}
use fn_finder.Elf.Types.{
  ElfSection, ElfSegment, ElfImage, is_code, is_loadable, is_executable_segment,
}
use fn_finder.Elf.Image.{DataSpan, data_at, data_at-IsWithin}
use fn_finder.Analysis.CodeMap.{
  CodeRegion, CodeMap, add_region, add_span, section_regions, segment_regions, visit_section,
  visit_segment, has_code, collect_regions, starts_before, make_code_map, region_containing, at,
}
use fn_finder.Analysis.CodeMap.Lookup.{region_containing_sound}

-- The bytes of a region lie inside a file of the given size.
abbrev pub IsBackedRegion : ℕ → CodeRegion → Type 0
IsBackedRegion n r = r.offset + (r.end - r.start) ≤ n

abbrev pub IsBacked : CodeMap → Type 0
IsBacked m = All (IsBackedRegion (length m.bytes)) m.regions

add_region-IsBacked :
    (n : ℕ) (regions : List CodeRegion) (start size offset : ℕ)
    → offset + size ≤ n
    → All (IsBackedRegion n) regions
    → All (IsBackedRegion n) (add_region regions start size offset)
unfolding add_region
add_region-IsBacked n regions start size offset h all = elim (Bool-cases (size == 0)) [
  | inl e ↦ rw (e, if◌then◌else◌) all
  | inr e ↦ rw (e, if◌then◌else◌) (All-append (IsBackedRegion n) regions _ all (omega arith, tt))
]

module _ (image : ElfImage) where
  abbrev n : ℕ
  n = length image.bytes

  add_span-IsBacked :
      (regions : List CodeRegion) (start size addr : ℕ)
      → All (IsBackedRegion n) regions
      → All (IsBackedRegion n) (add_span regions start size (data_at image addr))
  unfolding add_span
  add_span-IsBacked regions start size addr all = elim (Option-cases (data_at image addr)) [
    | inl e ↦ rw (e, add_span) all
    | inr (span, e) ↦
        rw (e, add_span)
          (add_region-IsBacked n regions start (min size span.available) span.offset
            (omega (arith, data_at-IsWithin image addr span e)) all)
  ]

  visit_section-IsBacked :
      (regions : List CodeRegion) (s : ElfSection)
      → All (IsBackedRegion n) regions
      → All (IsBackedRegion n) (visit_section image regions s)
  unfolding visit_section
  visit_section-IsBacked regions s all = elim (Bool-cases (is_code s)) [
    | inl e ↦ rw e (add_span-IsBacked regions s.address s.size s.address all)
    | inr e ↦ rw e all
  ]

  section_regions-IsBacked :
      (regions : List CodeRegion) (any : Bool) (sections : List ElfSection)
      → All (IsBackedRegion n) regions
      → All (IsBackedRegion n) (section_regions image regions any sections).0
  unfolding section_regions
  section_regions-IsBacked regions any [] all = all
  section_regions-IsBacked regions any (s ∷ rest) all =
      section_regions-IsBacked (visit_section image regions s) (any || has_code image s) rest
        (visit_section-IsBacked regions s all)

  visit_segment-IsBacked :
      (regions : List CodeRegion) (s : ElfSegment)
      → All (IsBackedRegion n) regions
      → All (IsBackedRegion n) (visit_segment image regions s)
  unfolding visit_segment
  visit_segment-IsBacked regions s all =
      elim (Bool-cases (not (is_loadable s) || not (is_executable_segment s) || s.file_size == 0)) [
        | inl e ↦ rw e all
        | inr e ↦
            rw e (add_span-IsBacked regions s.virtual_address s.file_size s.virtual_address all)
      ]

  segment_regions-IsBacked :
      (regions : List CodeRegion) (segments : List ElfSegment)
      → All (IsBackedRegion n) regions
      → All (IsBackedRegion n) (segment_regions image regions segments)
  unfolding segment_regions
  segment_regions-IsBacked regions [] all = all
  segment_regions-IsBacked regions (s ∷ rest) all =
      segment_regions-IsBacked (visit_segment image regions s) rest
        (visit_segment-IsBacked regions s all)

  collect_regions-IsBacked : All (IsBackedRegion n) (collect_regions image)
  unfolding collect_regions
  collect_regions-IsBacked =
      let found = section_regions image [] false image.sections in
      let all = section_regions-IsBacked [] false image.sections tt in
      elim (Bool-cases found.1) [
        | inl e ↦ rw e all
        | inr e ↦ rw e (segment_regions-IsBacked found.0 image.segments all)
      ]

  pub make_code_map-IsBacked : IsBacked (make_code_map image)
  unfolding make_code_map
  make_code_map-IsBacked =
      All-sort starts_before (IsBackedRegion n) (collect_regions image) collect_regions-IsBacked

-- A backed map hands out at least one byte, and bytes of the file only.
pub at-IsBacked :
    (m : CodeMap) (addr : ℕ) (span : DataSpan)
    → IsBacked m
    → at m addr ≡ some span
    → (0 < span.available) × (span.offset + span.available ≤ length m.bytes)
unfolding at
at-IsBacked m addr span b h = elim (Option-cases (region_containing m addr)) [
  | inl e ↦ absurd (ground arith)
  | inr (r, e) ↦
      let (i, l, u) = region_containing_sound m addr r e in
      let backed = All-In (IsBackedRegion (length m.bytes)) m.regions r b i in ground arith
]

-- Whatever the headers of an image say, every byte range that the code map built from it hands out
-- is not empty and lies inside the image's bytes.
pub at_in_file :
    (image : ElfImage) (addr : ℕ) (span : DataSpan)
    → at (make_code_map image) addr ≡ some span
    → (0 < span.available) × (span.offset + span.available ≤ length image.bytes)
unfolding make_code_map
at_in_file image addr span h =
    at-IsBacked (make_code_map image) addr span (make_code_map-IsBacked image) h
