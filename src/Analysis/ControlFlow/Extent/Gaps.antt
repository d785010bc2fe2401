-- ===== src/Analysis/ControlFlow/Extent/Gaps.antt =====
-- The search of the gaps: `carveGap` ends below the top of the address space, and what it finds
-- lies in the gap.
use fn_finder.Base.{
  ℕ, zero, suc, ◌+◌, ◌-◌, ◌≤◌, ◌<◌, ◌≡◌, false, ◌||◌, List, [], ◌∷◌, arith, ltb, leb, ◌==◌, All,
  All-append, Bool-cases, Option-cases, inl, inr, In, min, max, not, length,
}
use fn_finder.Base.Words.{add64, instruction_size, u64_mod}
use fn_finder.Disasm.Instruction.{Decoder}
use fn_finder.Analysis.CodeMap.{CodeMap, CodeRegion}
use fn_finder.Analysis.ControlFlow.Instructions.{InstructionCache, is_padding_word, cache_at}
use fn_finder.Analysis.ControlFlow.Cfg.{Built, build}
use fn_finder.Analysis.ControlFlow.Extent.{
  FunctionBounds, Options, Input, Carving, align_up, is_plausible, skip_word, take_gap, request_for,
  next_strong_after, strong_sorted, carve_decoded, carve_step, carve_loop, carve_gap, carve_between,
  carve_region, carve_regions,
}

-- The distance to the top of the address space that keeps the cursor from wrapping around.
abbrev pub two_words : ℕ
two_words = 8

-- A function inside a range of addresses.
abbrev pub IsIn : ℕ → ℕ → FunctionBounds → Type 0
IsIn lo hi f = (lo ≤ f.start) × (f.start < f.end) × (f.end ≤ hi)

-- What a round does to the cursor and to the functions found so far.
record Advances (P : FunctionBounds → Type 0) (lo hi : ℕ) (s s' : Carving) : Type 0 where
  moves : s.cursor < s'.cursor
  stays : s'.cursor < hi + instruction_size
  finds : lo ≤ s.cursor → All P s.gap_functions → All P s'.gap_functions

-- The loop of `carveGap` ends by its test.
abbrev pub IsCarved : ℕ → Carving → Type 0
IsCarved hi s = leb (add64 s.cursor instruction_size) hi ≡ false

-- A gap from `lo` to `hi` below the top of the address space, and a property of what lies in it.
module _ (m : CodeMap) (decode : Decoder) (input : Input) (options : Options)
    (P : FunctionBounds → Type 0) (lo hi : ℕ) (implies : (f : FunctionBounds) → IsIn lo hi f → P f)
    (high : hi + two_words < u64_mod) where
  skip_word-Advances :
      (s : Carving) (c : InstructionCache)
      → s.cursor + instruction_size ≤ hi
      → Advances P lo hi s (skip_word s c)
  unfolding skip_word
  skip_word-Advances s c k = record { moves = omega arith; stays = omega arith; finds = λ l a. a }

  take_gap-Advances :
      (s : Carving) (b : Built)
      → s.cursor + instruction_size ≤ hi
      → Advances P lo hi s (take_gap options s hi b)
  unfolding take_gap
  take_gap-Advances s b k =
      let end = min b.graph.extent_end hi in
      elim (Bool-cases (
        leb end s.cursor
        || length b.graph.covered_instructions == 0
        || not (is_plausible options b))) [
          | inl e ↦ rw e (skip_word-Advances s b.cache k)
          | inr e ↦ rw e (record {
            moves = ground arith;
            stays = ground arith;
            finds = λ l a.
                let f : FunctionBounds = record { start = s.cursor; end = end } in
                All-append P s.gap_functions (f ∷ []) a
                  (implies f (l, ground arith, ground arith), tt);
          })
        ]

  carve_decoded-Advances :
      (s : Carving) (c : InstructionCache)
      → s.cursor + instruction_size ≤ hi
      → Advances P lo hi s (carve_decoded m decode input options hi (record s { cache = c }))
  unfolding carve_decoded
  carve_decoded-Advances s c k =
      let d =
        take_gap-Advances (record s { cache = c })
          (build m decode
            (request_for m decode input options s.cursor
              (min (next_strong_after (strong_sorted m input) s.cursor) hi))
            c)
          k in
      record { moves = d.moves; stays = d.stays; finds = d.finds }

  carve_step-Advances :
      (s : Carving)
      → s.cursor + instruction_size ≤ hi
      → Advances P lo hi s (carve_step m decode input options hi s)
  unfolding carve_step
  carve_step-Advances s k = elim (Bool-cases (is_padding_word m s.cursor)) [
    | inl e ↦ rw e (skip_word-Advances s s.cache k)
    | inr e ↦ elim (Option-cases (cache_at m decode s.cache s.cursor).1) [
      | inl f ↦ rw (e, f) (skip_word-Advances s _ k)
      | inr (i, f) ↦ rw (e, f) (carve_decoded-Advances s _ k)
    ]
  ]

  -- A round for each byte is enough; what is found lies between the first cursor and the end.
  carve_loop-IsCarved :
      (fuel : ℕ) (s : Carving)
      → s.cursor < hi + instruction_size
      → hi ≤ s.cursor + fuel
      → lo ≤ s.cursor
      → All P s.gap_functions
      → IsCarved hi (carve_loop m decode input options fuel hi s)
        × All P (carve_loop m decode input options fuel hi s).gap_functions
  unfolding carve_loop
  carve_loop-IsCarved zero s c f l a = (ground arith, a)
  carve_loop-IsCarved (suc fuel) s c f l a =
      elim (Bool-cases (leb (add64 s.cursor instruction_size) hi)) [
        | inr e ↦ rw (carve_loop, e) (e, a)
        | inl e ↦
            let d = carve_step-Advances s (ground arith) in
            let s' = carve_step m decode input options hi s in
            rw (carve_loop, e)
              (carve_loop-IsCarved fuel s' d.stays (omega (arith, d.moves)) (omega (arith, d.moves))
                (d.finds l a))
      ]

  pub carve_gap-All :
      (s : Carving)
      → lo ≤ hi
      → All P s.gap_functions
      → IsCarved hi (carve_gap m decode input options lo hi s)
        × All P (carve_gap m decode input options lo hi s).gap_functions
  unfolding carve_gap
  carve_gap-All s k a =
      carve_loop-IsCarved (hi - lo) (record s { cursor = align_up lo }) (omega arith) (omega arith)
        (omega arith) a

-- In a gap that ends at least two words below the top of the address space the loop of `carveGap`
-- ends by its own test, with the rounds that the model gives it, and each function that it adds
-- lies in the gap.
pub carve_gap_lem :
    (m : CodeMap) (decode : Decoder) (input : Input) (options : Options) (lo hi : ℕ)
    (cache : InstructionCache)
    → hi + two_words < u64_mod
    → lo ≤ hi
    → let s =
        carve_gap m decode input options lo hi
          (record { cache = cache; cursor = 0; gap_functions = []; gap_count = 0 }) in
      IsCarved hi s × All (IsIn lo hi) s.gap_functions
carve_gap_lem m decode input options lo hi cache h k =
    carve_gap-All m decode input options (IsIn lo hi) lo hi (λ f p. p) h
      (record { cache = cache; cursor = 0; gap_functions = []; gap_count = 0 }) k tt

-- A function inside one of the code regions.
abbrev pub IsInRegions : CodeMap → FunctionBounds → Type 0
IsInRegions m f = (r : CodeRegion) × In r m.regions × IsIn r.start r.end f

-- All regions end at least two words below the top of the address space.
abbrev pub HasRoom : CodeMap → Type 0
HasRoom m = All (λ r. r.end + two_words < u64_mod) m.regions

module _ (m : CodeMap) (decode : Decoder) (input : Input) (options : Options) (region : CodeRegion)
    (listed : In region m.regions) (high : region.end + two_words < u64_mod) where
  gap-IsInRegions :
      (lo hi : ℕ) (s : Carving)
      → region.start ≤ lo
      → hi ≤ region.end
      → lo ≤ hi
      → All (IsInRegions m) s.gap_functions
      → All (IsInRegions m) (carve_gap m decode input options lo hi s).gap_functions
  gap-IsInRegions lo hi s l u k a =
      (carve_gap-All m decode input options (IsInRegions m) lo hi
        (λ f p. (region, listed, (omega arith, omega arith, omega arith))) (omega arith) s k a).1

  carve_between-IsInRegions :
      (fns : List FunctionBounds) (pos : ℕ) (s : Carving)
      → region.start ≤ pos
      → All (IsInRegions m) s.gap_functions
      → (region.start ≤ (carve_between m decode input options region fns pos s).0)
        × All
            (IsInRegions m)
            (carve_between m decode input options region fns pos s).1.gap_functions
  unfolding carve_between
  carve_between-IsInRegions [] pos s l a = (l, a)
  carve_between-IsInRegions (fn ∷ rest) pos s l a =
      elim (Bool-cases (leb fn.end region.start || leb region.end fn.start)) [
        | inl e ↦ rw (carve_between, e) (carve_between-IsInRegions rest pos s l a)
        | inr e ↦ elim (Bool-cases (ltb pos (max fn.start region.start))) [
          | inl g ↦
              rw (carve_between, e, g)
                (carve_between-IsInRegions rest (max pos (min fn.end region.end))
                  (carve_gap m decode input options pos (max fn.start region.start) s) (omega arith)
                  (gap-IsInRegions pos (max fn.start region.start) s l (ground arith) (ground arith)
                    a))
          | inr g ↦
              rw (carve_between, e, g)
                (carve_between-IsInRegions rest (max pos (min fn.end region.end)) s (omega arith) a)
        ]
      ]

  carve_region-IsInRegions :
      (fns : List FunctionBounds) (s : Carving)
      → All (IsInRegions m) s.gap_functions
      → All (IsInRegions m) (carve_region m decode input options fns s region).gap_functions
  unfolding carve_region
  carve_region-IsInRegions fns s a =
      let (l, b) = carve_between-IsInRegions fns region.start s (omega arith) a in
      let found = carve_between m decode input options region fns region.start s in
      elim (Bool-cases (ltb found.0 region.end)) [
        | inl e ↦ rw e (gap-IsInRegions found.0 region.end found.1 l (omega arith) (ground arith) b)
        | inr e ↦ rw e b
      ]

pub carve_regions-IsInRegions :
    (m : CodeMap) (decode : Decoder) (input : Input) (options : Options) (fns : List FunctionBounds)
    (s : Carving) (regions : List CodeRegion)
    → All (λ r. In r m.regions × (r.end + two_words < u64_mod)) regions
    → All (IsInRegions m) s.gap_functions
    → All (IsInRegions m) (carve_regions m decode input options fns s regions).gap_functions
unfolding carve_regions
carve_regions-IsInRegions m decode input options fns s [] h a = a
carve_regions-IsInRegions m decode input options fns s (r ∷ rest) ((i, u), h) a =
    carve_regions-IsInRegions m decode input options fns
      (carve_region m decode input options fns s r) rest h
      (carve_region-IsInRegions m decode input options r i u fns s a)
