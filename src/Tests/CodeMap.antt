-- ===== src/Tests/CodeMap.antt =====
-- The code map on the sample image.
use fn_finder.Base.{◌+◌, ◌≡◌, ◌≤◌, ◌<◌, refl, some, In, ◌↔◌, length, arith}
use fn_finder.Elf.Image.{DataSpan, IsWithin, data_at, data_at-IsWithin}
use fn_finder.Analysis.CodeMap.{make_code_map, region_containing, at}
use fn_finder.Analysis.CodeMap.Lookup.{region_containing_complete}
use fn_finder.Analysis.CodeMap.Safety.{at_in_file}
use fn_finder.Tests.Samples.{sample_image, sample_map, sample_region, sample_bytes}

abbrev span_1008 : DataSpan
span_1008 = record { offset = 8; available = 8 }

data_at-IsWithin_example : IsWithin (length sample_bytes) span_1008
unfolding data_at
data_at-IsWithin_example = data_at-IsWithin sample_image 0x1008 span_1008 refl

region_containing_complete_example : (region_containing sample_map 0x1008 ≡ some sample_region) ↔ (
    In sample_region sample_map.regions
    × (sample_region.start ≤ 0x1008)
    × (0x1008 < sample_region.end))
region_containing_complete_example =
    region_containing_complete sample_map 0x1008 sample_region (omega arith)

at_in_file_example :
    (0 < span_1008.available) × (span_1008.offset + span_1008.available ≤ length sample_image.bytes)
unfolding at make_code_map data_at
at_in_file_example = at_in_file sample_image 0x1008 span_1008 refl
