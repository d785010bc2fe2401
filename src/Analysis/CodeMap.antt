-- ===== src/Analysis/CodeMap.antt =====
-- The executable regions of an image: src/analysis/code_map.h and code_map.cc.
pub mod Lookup
pub mod Safety
use fn_finder.Base.{
  ℕ, zero, suc, ◌+◌, ◌-◌, ◌≤◌, ◌<◌, Bool, true, false, not, ◌&&◌, ◌||◌, List, [], ◌∷◌, ◌++◌, Option,
  none, some, ltb, leb, ◌==◌, if◌then◌else◌, get_elem?, min,
}
use fn_finder.Base.Words.{Address, add64}
use fn_finder.Base.Sort.{sort}
use fn_finder.Elf.Types.{
  ElfSection, ElfSegment, ElfImage, is_code, is_loadable, is_executable_segment,
}
use fn_finder.Elf.Image.{DataSpan, data_at}

-- `data` points into the image's bytes: it is the offset there, and never null in a stored region.
pub record CodeRegion : Type 0 where
  pub start : Address
  pub end : Address
  pub offset : ℕ

abbrev pub region_contains : CodeRegion → Address → Bool
region_contains r addr = leb r.start addr && ltb addr r.end

-- `bytes` are those that the regions point into.
pub record CodeMap : Type 0 where
  pub bytes : List ℕ
  pub regions : List CodeRegion
  pub lowest : Address
  pub highest : Address

-- `addRegion`; its null test is the caller's, who has a span.
unfoldable pub add_region : List CodeRegion → Address → ℕ → ℕ → List CodeRegion
add_region regions start size offset =
    if size == 0
    then regions
    else regions ++ record { start = start; end = add64 start size; offset = offset } ∷ []

-- `addRegion(start, min(size, available), data)` behind `data != nullptr`.
unfoldable pub add_span : List CodeRegion → Address → ℕ → Option DataSpan → List CodeRegion
unfolding add_region
add_span regions start size none = regions
add_span regions start size (some span) =
    add_region regions start (min size span.available) span.offset

-- One round of the loop over the sections: the regions, and whether a region was found.
unfoldable pub visit_section : ElfImage → List CodeRegion → ElfSection → List CodeRegion
unfolding add_span
visit_section image regions s =
    if is_code s then add_span regions s.address s.size (data_at image s.address) else regions

unfoldable pub has_code : ElfImage → ElfSection → Bool
has_code image s = is_code s && elim (data_at image s.address) [ none ↦ false | some _ ↦ true ]

-- The loop over the sections: the regions so far and `anySection`.
unfoldable pub section_regions :
    ElfImage → List CodeRegion → Bool → List ElfSection → List CodeRegion × Bool
unfolding visit_section has_code
section_regions image regions any [] = (regions, any)
section_regions image regions any (s ∷ rest) =
    section_regions image (visit_section image regions s) (any || has_code image s) rest

unfoldable pub visit_segment : ElfImage → List CodeRegion → ElfSegment → List CodeRegion
unfolding add_span
visit_segment image regions s =
    if not (is_loadable s) || not (is_executable_segment s) || s.file_size == 0
    then regions
    else add_span regions s.virtual_address s.file_size (data_at image s.virtual_address)

unfoldable pub segment_regions : ElfImage → List CodeRegion → List ElfSegment → List CodeRegion
unfolding visit_segment
segment_regions image regions [] = regions
segment_regions image regions (s ∷ rest) =
    segment_regions image (visit_segment image regions s) rest

unfoldable pub collect_regions : ElfImage → List CodeRegion
unfolding section_regions segment_regions
collect_regions image =
    let (regions, any) = section_regions image [] false image.sections in
    if any then regions else segment_regions image regions image.segments

abbrev pub starts_before : CodeRegion → CodeRegion → Bool
starts_before a b = ltb a.start b.start

unfoldable pub front_start : List CodeRegion → Address
front_start [] = 0
front_start (r ∷ rs) = r.start

unfoldable pub back_end : List CodeRegion → Address
back_end [] = 0
back_end (r ∷ []) = r.end
back_end (r ∷ q ∷ rs) = back_end (q ∷ rs)

-- The constructor.
unfoldable pub make_code_map : ElfImage → CodeMap
unfolding collect_regions front_start back_end sort
make_code_map image =
    let regions = sort starts_before (collect_regions image) in
    record {
      bytes = image.bytes;
      regions = regions;
      lowest = front_start regions;
      highest = back_end regions;
    }

-- `std::upper_bound`: the index of the first region that starts above `addr`.
unfoldable pub upper_bound_region : Address → List CodeRegion → ℕ
upper_bound_region addr [] = 0
upper_bound_region addr (r ∷ rs) =
    let rest = upper_bound_region addr rs in if ltb addr r.start then 0 else suc rest

-- The region before the bound, if it contains the address.
unfoldable pub select_region : List CodeRegion → Address → ℕ → Option CodeRegion
select_region regions addr zero = none
select_region regions addr (suc i) = elim (get_elem? regions i) [
  | none ↦ none
  | some r ↦ if region_contains r addr then some r else none
]

unfoldable pub region_containing : CodeMap → Address → Option CodeRegion
unfolding select_region upper_bound_region
region_containing m addr = select_region m.regions addr (upper_bound_region addr m.regions)

unfoldable pub contains : CodeMap → Address → Bool
unfolding region_containing
contains m addr = elim (region_containing m addr) [ none ↦ false | some _ ↦ true ]

-- `CodeMap::at`. The region contains `addr`, so both differences are exact.
unfoldable pub at : CodeMap → Address → Option DataSpan
unfolding region_containing
at m addr = elim (region_containing m addr) [
  | none ↦ none
  | some r ↦ some (record { offset = r.offset + (addr - r.start); available = r.end - addr })
]
