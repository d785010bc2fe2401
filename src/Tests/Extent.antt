-- ===== src/Tests/Extent.antt =====
-- The boundary analysis on the sample image.
use fn_finder.Base.{
  ◌≡◌, refl, [], ◌∷◌, true, In, inl, inr, arith, leb, All, filter, ◌++◌, subst, sym,
}
use fn_finder.Base.Words.{add64, instruction_size}
use fn_finder.Analysis.ControlFlow.Instructions.{empty_cache}
use fn_finder.Analysis.ControlFlow.Extent.{
  FunctionBounds, Input, Carving, default_options, is_usable, referenced, analyze, carve_gap,
  carve_loop, align_up,
}
use fn_finder.Analysis.ControlFlow.Extent.Separation.{AreSeparate, analyze-AreSeparate}
use fn_finder.Analysis.ControlFlow.Extent.Gaps.{HasRoom, IsCarved, IsIn, IsInRegions, carve_gap_lem}
use fn_finder.Analysis.ControlFlow.Extent.Coverage.{Covers, Tracks, IsPlaced}
use fn_finder.Analysis.ControlFlow.Extent.Origins.{IsEntry, referenced_lem}
use fn_finder.Analysis.ControlFlow.Extent.Regions.{analyze-IsInRegions}
use fn_finder.Analysis.ControlFlow.Extent.Divergence.{carve_gap_endless}
use fn_finder.Tests.Samples.{sample_map, sample_decode}

-- One strong entry; the `ret` behind it is found in the gap.
abbrev input : Input
input = record { strong_entries = 0x1000 ∷ []; soft_entries = []; authoritative_sizes = [] }

abbrev first : FunctionBounds
first = record { start = 0x1000; end = 0x1008 }

abbrev second : FunctionBounds
second = record { start = 0x100c; end = 0x1010 }

analyze_runs : analyze sample_map sample_decode input default_options ≡ first ∷ second ∷ []
unfolding analyze
analyze_runs = refl

room : HasRoom sample_map
room = omega arith

analyze-AreSeparate_example : AreSeparate (analyze sample_map sample_decode input default_options)
analyze-AreSeparate_example = analyze-AreSeparate sample_map sample_decode input default_options

referenced_lem_example :
    Tracks sample_map (referenced sample_map sample_decode input default_options)
    × All
        (λ f. IsEntry input f.start × IsPlaced sample_map f)
        (referenced sample_map sample_decode input default_options).emitted
    × All
        (Covers (referenced sample_map sample_decode input default_options).emitted)
        (filter (is_usable sample_map) (input.strong_entries ++ input.soft_entries))
referenced_lem_example = referenced_lem sample_map sample_decode input default_options room

in_result : In second (analyze sample_map sample_decode input default_options)
in_result = subst (In second) (sym analyze_runs) (inr (inl refl))

analyze-IsInRegions_example : IsInRegions sample_map second
analyze-IsInRegions_example =
    analyze-IsInRegions sample_map sample_decode input default_options room second in_result

abbrev carved : Carving
carved =
    carve_gap sample_map sample_decode input default_options 0x1008 0x1010
      (record { cache = empty_cache; cursor = 0; gap_functions = []; gap_count = 0 })

carve_gap_lem_example : IsCarved 0x1010 carved × All (IsIn 0x1008 0x1010) carved.gap_functions
carve_gap_lem_example =
    carve_gap_lem sample_map sample_decode input default_options 0x1008 0x1010 empty_cache
      (omega arith) (omega arith)

abbrev at_top : Carving
at_top = record { cache = empty_cache; cursor = 0; gap_functions = []; gap_count = 0 }

carve_gap_endless_example :
    leb
      (add64
        (carve_loop sample_map sample_decode input default_options 1000 0xffff_ffff_ffff_fffc
          (record at_top { cursor = align_up 0xffff_ffff_ffff_ff00 })).cursor
        instruction_size)
      0xffff_ffff_ffff_fffc
    ≡ true
carve_gap_endless_example =
    carve_gap_endless sample_map sample_decode input default_options 1000 0xffff_ffff_ffff_ff00
      0xffff_ffff_ffff_fffc at_top (omega arith)
