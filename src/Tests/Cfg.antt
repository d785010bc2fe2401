-- ===== src/Tests/Cfg.antt =====
-- The walk on the sample image.
use fn_finder.Base.{ℕ, List, map, ◌≡◌, ◌≤◌, refl, [], ◌∷◌, some, none, true, false, ◌↔◌, arith, ◌⊎◌}
use fn_finder.Disasm.Instruction.{FlowType}
use fn_finder.Analysis.ControlFlow.Instructions.{DecodedInstruction, empty_cache, end_address}
use fn_finder.Analysis.ControlFlow.Instructions.Memo.{
  fetch, lookups, lookups-map, empty_cache-IsConsistent,
}
use fn_finder.Analysis.ControlFlow.Cfg.{CfgBuildRequest, Walk, walk}
use fn_finder.Analysis.ControlFlow.Cfg.Termination.{IsFinished, walk-IsFinished}
use fn_finder.Analysis.ControlFlow.Cfg.Round.{IsWalkable, Reach}
use fn_finder.Analysis.ControlFlow.Cfg.Invariant.{Visits}
use fn_finder.Analysis.ControlFlow.Cfg.Reachable.{
  walk-covers, IsInside, walk-IsInside, walk_extent, walk_returns, walk_bounds,
}
use fn_finder.Tests.Samples.{sample_map, sample_decode, sample_decode-IsAarch64}

abbrev request : CfgBuildRequest
request = record {
  entry = 0x1000;
  upper_bound = 0x1010;
  boundaries = some (0x1000 ∷ []);
  max_instructions = 100;
  linear_past_indirect_branch = true;
  call_targets_out = none;
  build_basic_blocks = true;
}

abbrev result : Walk
result = walk sample_map sample_decode request empty_cache

walk_runs : (result.visited ≡ 0x1000 ∷ 0x1004 ∷ []) × (result.covered_end ≡ 0x1008)
unfolding walk
walk_runs = (refl, refl)

truncated : result.truncated ≡ false
unfolding walk
truncated = refl

visited : Visits result 0x1004
unfolding walk
visited = refl

-- The second lookup of an address answers from the cache.
abbrev looked_up : List ℕ
looked_up = 0x1004 ∷ 0x1000 ∷ 0x1004 ∷ 0x1002 ∷ 0x1000 ∷ []

lookups-map_example :
    lookups sample_map sample_decode empty_cache looked_up
    ≡ map (fetch sample_map sample_decode) looked_up
lookups-map_example = lookups-map sample_map sample_decode looked_up

walk-IsFinished_example : IsFinished (walk sample_map sample_decode request empty_cache)
walk-IsFinished_example = walk-IsFinished sample_map sample_decode request empty_cache

walk-covers_example : Visits result 0x1004 ↔ (
    Reach sample_map sample_decode request 0x1004
    × ((i : DecodedInstruction) × IsWalkable sample_map sample_decode request 0x1004 i))
walk-covers_example =
    walk-covers sample_map sample_decode request empty_cache 0x1004
      (empty_cache-IsConsistent sample_map sample_decode) truncated

walk-IsInside_example : IsInside sample_map sample_decode request 0x1004
walk-IsInside_example =
    walk-IsInside sample_map sample_decode request empty_cache 0x1004
      (empty_cache-IsConsistent sample_map sample_decode) visited

walk_extent_example :
    ((result.covered_end ≡ 0x1000)
      ⊎ ((a : ℕ) × (i : DecodedInstruction) × Visits result a
          × IsWalkable sample_map sample_decode request a i
          × (result.covered_end ≡ end_address i)))
    × ((a : ℕ) (i : DecodedInstruction)
        → Visits result a
        → IsWalkable sample_map sample_decode request a i
        → end_address i ≤ result.covered_end)
walk_extent_example =
    walk_extent sample_map sample_decode request empty_cache
      (empty_cache-IsConsistent sample_map sample_decode)

walk_returns_example :
    (result.reaches_return ≡ true)
    ↔ ∥ (
        (a : ℕ) × (i : DecodedInstruction) × Visits result a
        × IsWalkable sample_map sample_decode request a i
        × (i.flow ≡ FlowType.return)) ∥₁
walk_returns_example =
    walk_returns sample_map sample_decode request empty_cache
      (empty_cache-IsConsistent sample_map sample_decode)

walk_bounds_example : (0x1000 ≤ result.covered_end) × (result.covered_end ≤ 0x1010)
walk_bounds_example =
    walk_bounds sample_map sample_decode request empty_cache
      (empty_cache-IsConsistent sample_map sample_decode) sample_decode-IsAarch64 (omega arith)
