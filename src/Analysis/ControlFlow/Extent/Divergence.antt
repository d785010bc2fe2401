-- ===== src/Analysis/ControlFlow/Extent/Divergence.antt =====
-- A gap that ends in the last word of the address space is searched for ever.
use fn_finder.Base.{
  ℕ, zero, suc, ◌-◌, ◌%◌, ◌≤◌, ◌<◌, ◌≡◌, true, ◌||◌, arith, leb, ◌==◌, Bool-cases, Option-cases,
  inl, inr, min, not, length,
}
use fn_finder.Base.Words.{add64, instruction_size, u64_mod}
use fn_finder.Disasm.Instruction.{Decoder}
use fn_finder.Analysis.CodeMap.{CodeMap}
use fn_finder.Analysis.ControlFlow.Instructions.{InstructionCache, is_padding_word, cache_at}
use fn_finder.Analysis.ControlFlow.Cfg.{Built, build}
use fn_finder.Analysis.ControlFlow.Extent.{
  Options, Input, Carving, align_up, is_plausible, skip_word, take_gap, request_for,
  next_strong_after, strong_sorted, carve_decoded, carve_step, carve_loop,
}

-- A cursor is a multiple of four, as a 64-bit word.
record IsAligned (s : Carving) : Type 0 where
  word : s.cursor < u64_mod
  aligned : s.cursor % instruction_size ≡ 0

skip_word-IsAligned : (s : Carving) (c : InstructionCache) → IsAligned s → IsAligned (skip_word s c)
unfolding skip_word
skip_word-IsAligned s c h = omega (arith, h.word, h.aligned)

take_gap-IsAligned :
    (options : Options) (s : Carving) (hi : ℕ) (b : Built)
    → IsAligned s
    → IsAligned (take_gap options s hi b)
unfolding take_gap
take_gap-IsAligned options s hi b h =
    let end = min b.graph.extent_end hi in
    elim (Bool-cases (
      leb end s.cursor
      || length b.graph.covered_instructions == 0
      || not (is_plausible options b))) [
        | inl e ↦ rw e (skip_word-IsAligned s b.cache h)
        | inr e ↦ rw e (record { word = omega arith; aligned = omega arith })
      ]

module _ (m : CodeMap) (decode : Decoder) (input : Input) (options : Options) where
  carve_decoded-IsAligned :
      (hi : ℕ) (s : Carving) → IsAligned s → IsAligned (carve_decoded m decode input options hi s)
  unfolding carve_decoded
  carve_decoded-IsAligned hi s h =
      take_gap-IsAligned options s hi
        (build m decode
          (request_for m decode input options s.cursor
            (min (next_strong_after (strong_sorted m input) s.cursor) hi))
          s.cache)
        h

  carve_step-IsAligned :
      (hi : ℕ) (s : Carving) → IsAligned s → IsAligned (carve_step m decode input options hi s)
  unfolding carve_step
  carve_step-IsAligned hi s h =
      let found = cache_at m decode s.cache s.cursor in
      elim (Bool-cases (is_padding_word m s.cursor)) [
        | inl e ↦ rw e (skip_word-IsAligned s s.cache h)
        | inr e ↦ elim (Option-cases found.1) [
          | inl f ↦ rw (e, f) (skip_word-IsAligned s found.0 h)
          | inr (i, f) ↦
              rw (e, f)
                (carve_decoded-IsAligned hi (record s { cache = found.0 })
                  (record { word = h.word; aligned = h.aligned }))
        ]
      ]

  carve_loop_endless :
      (fuel hi : ℕ) (s : Carving)
      → u64_mod - instruction_size ≤ hi
      → IsAligned s
      → leb (add64 (carve_loop m decode input options fuel hi s).cursor instruction_size) hi ≡ true
  unfolding carve_loop
  carve_loop_endless zero hi s h a = let word = a.word in let aligned = a.aligned in ground arith
  carve_loop_endless (suc fuel) hi s h a =
      elim (Bool-cases (leb (add64 s.cursor instruction_size) hi)) [
        | inl e ↦
            rw (carve_loop, e)
              (carve_loop_endless fuel hi (carve_step m decode input options hi s) h
                (carve_step-IsAligned hi s a))
        | inr e ↦ let word = a.word in let aligned = a.aligned in absurd (ground arith)
      ]

  -- The loop of `carveGap` never ends in a gap whose end is one of the last four addresses: after
  -- any number of rounds from an aligned cursor its test still holds, since the sum of the cursor
  -- and 4 wraps around before it can exceed the gap's end.
  pub carve_gap_endless :
      (fuel gap_start hi : ℕ) (s : Carving)
      → u64_mod - instruction_size ≤ hi
      → leb
          (add64
            (carve_loop m decode input options fuel hi
              (record s { cursor = align_up gap_start })).cursor
            instruction_size)
          hi
        ≡ true
  carve_gap_endless fuel gap_start hi s h =
      carve_loop_endless fuel hi (record s { cursor = align_up gap_start }) h
        (record { word = omega arith; aligned = omega arith })
