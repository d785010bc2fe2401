-- ===== src/Analysis/ControlFlow/Extent/Regions.antt =====
-- Every function that the analyzer returns lies in a code region.
use fn_finder.Base.{
  ◌+◌, ◌<◌, refl, List, [], ◌∷◌, arith, All, All-append, All-imply, none, All-In, Bool-cases, inl,
  inr, In,
}
use fn_finder.Base.Words.{u64_mod}
use fn_finder.Base.Sort.{sort, All-sort}
use fn_finder.Disasm.Instruction.{Decoder}
use fn_finder.Analysis.CodeMap.{CodeMap, CodeRegion}
use fn_finder.Analysis.ControlFlow.Extent.{
  FunctionBounds, Options, Input, Carving, starts_before, bounds_before, referenced, carve_regions,
  all_emitted, analyze,
}
use fn_finder.Analysis.ControlFlow.Extent.Separation.{separate-In}
use fn_finder.Analysis.ControlFlow.Extent.Gaps.{
  HasRoom, two_words, IsInRegions, carve_regions-IsInRegions,
}
use fn_finder.Analysis.ControlFlow.Extent.Referenced.{usable-region, region_end_for-region}
use fn_finder.Analysis.ControlFlow.Extent.Coverage.{IsPlaced, referenced-Covers}

IsPlaced-IsInRegions : (m : CodeMap) (f : FunctionBounds) → IsPlaced m f → IsInRegions m f
IsPlaced-IsInRegions m f p =
    let (_, (r, e, l, u, i)) = usable-region m f.start p.usable in
    let filled = p.filled in
    let bounded = p.bounded in
    let r_end = region_end_for-region m f.start r e in (r, i, (l, filled, omega arith))

All-listed :
    (regions all : List CodeRegion)
    → ((r : CodeRegion) → In r regions → In r all)
    → All (λ r. r.end + two_words < u64_mod) regions
    → All (λ r. In r all × (r.end + two_words < u64_mod)) regions
All-listed [] all f h = tt
All-listed (r ∷ rs) all f (p, h) = ((f r (inl refl), p), All-listed rs all (λ q i. f q (inr i)) h)

module _ (m : CodeMap) (decode : Decoder) (input : Input) (options : Options)
    (room : HasRoom m) where
  all_emitted-IsInRegions : All (IsInRegions m) (all_emitted m decode input options)
  unfolding all_emitted
  all_emitted-IsInRegions =
      let p = referenced m decode input options in
      let (t, _) = referenced-Covers m decode input options room in
      let placed =
        All-imply (IsPlaced m) (IsInRegions m) p.emitted (IsPlaced-IsInRegions m) t.placed in
      let sorted = sort starts_before p.emitted in
      let s : Carving = record { cache = p.cache; cursor = 0; gap_functions = []; gap_count = 0 } in
      elim (Bool-cases options.discover_gap_functions) [
        | inl e ↦ rw e (
            All-append (IsInRegions m) sorted
              (carve_regions m decode input options sorted s m.regions).gap_functions
              (All-sort starts_before (IsInRegions m) p.emitted placed)
              (carve_regions-IsInRegions m decode input options sorted s m.regions
                (All-listed m.regions m.regions (λ r i. i) room) tt))
        | inr e ↦ rw e placed
      ]

  -- Where the regions end below the top of the address space, every function that the analyzer
  -- returns starts and ends in one code region.
  pub analyze-IsInRegions :
      (f : FunctionBounds) → In f (analyze m decode input options) → IsInRegions m f
  unfolding analyze
  analyze-IsInRegions f i =
      All-In (IsInRegions m) (sort bounds_before (all_emitted m decode input options)) f
        (All-sort bounds_before (IsInRegions m) (all_emitted m decode input options)
          all_emitted-IsInRegions)
        (separate-In none (sort bounds_before (all_emitted m decode input options)) f i)
