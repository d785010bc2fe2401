-- ===== src/Analysis/ControlFlow/Extent/Referenced.antt =====
-- The end of a candidate's function.
use fn_finder.Base.{ℕ, ◌+◌, ◌%◌, ◌≤◌, ◌<◌, ◌≡◌, true, some, arith, Option-cases, inl, inr, In, min}
use fn_finder.Base.Words.{instruction_size, u64_mod}
use fn_finder.Disasm.Instruction.{Decoder}
use fn_finder.Analysis.CodeMap.{CodeMap, CodeRegion, region_containing}
use fn_finder.Analysis.CodeMap.Lookup.{region_containing_sound, contains-region}
use fn_finder.Analysis.ControlFlow.Instructions.{InstructionCache}
use fn_finder.Analysis.ControlFlow.Extent.{
  Options, Input, Candidate, is_usable, region_end_for, cfg_extent_end, authoritative_size,
  candidate_end, next_strong_after, strong_sorted,
}

pub usable-region :
    (m : CodeMap) (addr : ℕ)
    → is_usable m addr ≡ true
    → (addr % instruction_size ≡ 0)
      × ((r : CodeRegion) × (region_containing m addr ≡ some r)
          × (r.start ≤ addr)
          × (addr < r.end)
          × In r m.regions)
unfolding is_usable
usable-region m addr h =
    let (r, e) = contains-region m addr (ground arith) in
    let (i, l, u) = region_containing_sound m addr r e in (ground arith, (r, e, l, u, i))

pub region_end_for-region :
    (m : CodeMap) (addr : ℕ) (r : CodeRegion)
    → region_containing m addr ≡ some r
    → region_end_for m addr ≡ r.end
unfolding region_end_for
region_end_for-region m addr r e = rw (region_end_for, e)

module _ (m : CodeMap) (decode : Decoder) (input : Input) (options : Options) where
  -- A recorded size gives the end of a candidate's function: the size, cut at the region's end.
  pub candidate_end-authoritative :
      (cache : InstructionCache) (c : Candidate) (r_end size : ℕ)
      → c.addr < r_end
      → r_end < u64_mod
      → authoritative_size input c ≡ some size
      → (candidate_end m decode input options cache c r_end).0 ≡ min (c.addr + size) r_end
  unfolding candidate_end
  candidate_end-authoritative cache c r_end size h k e = ground arith

  authoritative_size_pos :
      (c : Candidate) (size : ℕ) → authoritative_size input c ≡ some size → 0 < size
  unfolding authoritative_size
  authoritative_size_pos c size e = ground arith

  cfg_extent_end_lower :
      (cache : InstructionCache) (entry upper : ℕ)
      → entry < region_end_for m entry
      → entry + instruction_size < u64_mod
      → entry < (cfg_extent_end m decode input options cache entry upper).0
  unfolding cfg_extent_end
  cfg_extent_end_lower cache entry upper h k = ground arith

  -- The end of a candidate's function lies behind its start, and inside its region.
  pub candidate_end_bounds :
      (cache : InstructionCache) (c : Candidate)
      → c.addr < region_end_for m c.addr
      → c.addr + instruction_size < u64_mod
      → region_end_for m c.addr < u64_mod
      → let r_end = region_end_for m c.addr in
        (c.addr < (candidate_end m decode input options cache c r_end).0)
        × ((candidate_end m decode input options cache c r_end).0 ≤ r_end)
  candidate_end_bounds cache c h k l = elim (Option-cases (authoritative_size input c)) [
    | inl e ↦
        unfold candidate_end in
        ground (
          arith,
          cfg_extent_end_lower cache c.addr
              (min (next_strong_after (strong_sorted m input) c.addr) (region_end_for m c.addr)),
        )
    | inr (size, e) ↦ omega (
      arith,
      authoritative_size_pos c size e,
      candidate_end-authoritative cache c (region_end_for m c.addr) size h l e,
    )
  ]
