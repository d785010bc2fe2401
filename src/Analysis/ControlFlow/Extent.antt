-- ===== src/Analysis/ControlFlow/Extent.antt =====
-- Function boundaries: src/analysis/control_flow/function_extent_analyzer.{h,cc} and
-- src/analysis/function_bounds.h.
pub mod Separation
pub mod Referenced
pub mod Coverage
pub mod Origins
pub mod Regions
pub mod Divergence
pub mod Gaps
pub mod GapsApart
pub mod Kept
use fn_finder.Base.{
  ℕ, zero, suc, ◌+◌, ◌-◌, ◌*◌, ◌/◌, ◌%◌, Bool, true, false, not, ◌&&◌, ◌||◌, List, [], ◌∷◌, ◌++◌,
  Option, none, some, ltb, leb, ◌==◌, if◌then◌else◌, length, filter, map, min, max,
}
use fn_finder.Base.Words.{Address, add64, instruction_size, invalid_address}
use fn_finder.Base.Sets
use fn_finder.Base.Maps.{find}
use fn_finder.Base.Sort.{sort}
use fn_finder.Disasm.Instruction.{Decoder}
use fn_finder.Analysis.CodeMap
use fn_finder.Analysis.CodeMap.{CodeMap, CodeRegion, region_containing}
use fn_finder.Analysis.ControlFlow.Instructions.{
  InstructionCache, empty_cache, is_padding_word, cache_at,
}
use fn_finder.Analysis.ControlFlow.Cfg.{CfgBuildRequest, Built, build}

pub record FunctionBounds : Type 0 where
  pub start : Address
  pub end : Address

pub record Options : Type 0 where
  pub max_instructions : ℕ
  pub discover_gap_functions : Bool
  pub linear_past_indirect_branch : Bool
  pub min_gap_function_instructions : ℕ

abbrev pub default_options : Options
default_options = record {
  max_instructions = 8_000_000;
  discover_gap_functions = true;
  linear_past_indirect_branch = true;
  min_gap_function_instructions = 2;
}

pub record Input : Type 0 where
  pub strong_entries : List ℕ
  pub soft_entries : List ℕ
  pub authoritative_sizes : List (ℕ × ℕ)

-- `(addr + 3) & ~3`: clearing the two low bits.
abbrev pub align_up : Address → Address
align_up addr = add64 addr (instruction_size - 1) / instruction_size * instruction_size

unfoldable pub region_end_for : CodeMap → Address → Address
unfolding region_containing
region_end_for m addr = elim (region_containing m addr) [ none ↦ addr | some r ↦ r.end ]

unfoldable pub is_usable : CodeMap → Address → Bool
unfolding CodeMap.contains
is_usable m addr = addr % instruction_size == 0 && CodeMap.contains m addr

-- `std::unique`: of equal neighbours the first stays.
unfoldable pub unique : List ℕ → List ℕ
unique [] = []
unique (x ∷ []) = x ∷ []
unique (x ∷ y ∷ ys) = let rest = unique (y ∷ ys) in if x == y then rest else x ∷ rest

unfoldable pub strong_sorted : CodeMap → Input → List ℕ
unfolding unique sort filter is_usable
strong_sorted m input = unique (sort ltb (filter (is_usable m) input.strong_entries))

-- `std::upper_bound`, and the invalid address at the end.
unfoldable pub next_strong_after : List ℕ → Address → Address
next_strong_after [] addr = invalid_address
next_strong_after (x ∷ xs) addr =
    let rest = next_strong_after xs addr in if ltb addr x then x else rest

unfoldable pub insert_usable : CodeMap → List ℕ → List ℕ → List ℕ
unfolding is_usable Sets.insert
insert_usable m [] set = set
insert_usable m (a ∷ rest) set =
    insert_usable m rest (if is_usable m a then Sets.insert a set else set)

unfoldable pub entry_boundaries : CodeMap → Input → List ℕ
unfolding insert_usable
entry_boundaries m input =
    insert_usable m input.soft_entries (insert_usable m input.strong_entries [])

pub record Candidate : Type 0 where
  pub addr : Address
  pub strong : Bool

abbrev pub candidate_before : Candidate → Candidate → Bool
candidate_before a b =
    if not (a.addr == b.addr) then ltb a.addr b.addr else a.strong && not b.strong

abbrev pub as_candidate : Bool → Address → Candidate
as_candidate strong a = record { addr = a; strong = strong }

unfoldable pub usable_candidates : CodeMap → Input → List Candidate
unfolding filter is_usable
usable_candidates m input =
    map (as_candidate true) (filter (is_usable m) input.strong_entries)
    ++ map (as_candidate false) (filter (is_usable m) input.soft_entries)

unfoldable pub candidates : CodeMap → Input → List Candidate
unfolding sort usable_candidates
candidates m input = sort candidate_before (usable_candidates m input)

-- The variables of the loop over the candidates.
pub record Progress : Type 0 where
  pub cache : InstructionCache
  pub emitted : List FunctionBounds
  pub cover_end : Address
  pub last_addr : Address
  pub suppressed : ℕ

-- The variables of `carveGap`, `gapFunctions` and `gapCount` included.
pub record Carving : Type 0 where
  pub cache : InstructionCache
  pub cursor : Address
  pub gap_functions : List FunctionBounds
  pub gap_count : ℕ

-- The size that is recorded for a strong candidate, if it is positive.
unfoldable pub authoritative_size : Input → Candidate → Option ℕ
unfolding find
authoritative_size input c = elim (find c.addr input.authoritative_sizes) [
  | none ↦ none
  | some size ↦ if c.strong && ltb 0 size then some size else none
]

unfoldable pub emit : Progress → Address → Address × InstructionCache → Progress
emit p addr (end, cache) = if leb end addr then record p { cache = cache } else record p {
  cache = cache;
  emitted = p.emitted ++ record { start = addr; end = end } ∷ [];
  cover_end = max p.cover_end end;
}

-- `plausible`.
unfoldable pub is_plausible : Options → Built → Bool
is_plausible options b =
    b.graph.reaches_return
    || leb options.min_gap_function_instructions (length b.graph.covered_instructions)

unfoldable pub skip_word : Carving → InstructionCache → Carving
skip_word s cache = record s { cache = cache; cursor = add64 s.cursor instruction_size }

-- The body of the loop behind the call of `build`.
unfoldable pub take_gap : Options → Carving → Address → Built → Carving
unfolding is_plausible skip_word
take_gap options s gap_end b =
    let end = min b.graph.extent_end gap_end in
    if leb end s.cursor || length b.graph.covered_instructions == 0 || not (is_plausible options b)
    then skip_word s b.cache
    else record {
      cache = b.cache;
      cursor = align_up end;
      gap_functions = s.gap_functions ++ record { start = s.cursor; end = end } ∷ [];
      gap_count = s.gap_count + 1;
    }

module _ (m : CodeMap) (decode : Decoder) (input : Input) (options : Options) where
  unfoldable pub request_for : Address → Address → CfgBuildRequest
  unfolding entry_boundaries
  request_for entry upper = record {
    entry = entry;
    upper_bound = upper;
    boundaries = some (entry_boundaries m input);
    max_instructions = options.max_instructions;
    linear_past_indirect_branch = options.linear_past_indirect_branch;
    call_targets_out = none;
    build_basic_blocks = false;
  }

  -- `cfgExtentEnd`: the end and the cache.
  unfoldable pub cfg_extent_end : InstructionCache → Address → Address → Address × InstructionCache
  unfolding request_for build region_end_for
  cfg_extent_end cache entry upper =
      let built = build m decode (request_for entry upper) cache in
      let end = built.graph.extent_end in
      (
        if leb end entry then min (region_end_for m entry) (add64 entry instruction_size) else end,
        built.cache,
      )

  -- The end of a candidate's function, and the cache. `size < room` keeps the sum below the end.
  unfoldable pub candidate_end : InstructionCache → Candidate → Address → Address × InstructionCache
  unfolding authoritative_size cfg_extent_end next_strong_after strong_sorted
  candidate_end cache c r_end = elim (authoritative_size input c) [
    | some size ↦ (if leb (r_end - c.addr) size then r_end else add64 c.addr size, cache)
    | none ↦
        let upper = min (next_strong_after (strong_sorted m input) c.addr) r_end in
        let (end, cache') = cfg_extent_end cache c.addr upper in (min end r_end, cache')
  ]

  -- The body of the loop over the candidates.
  unfoldable pub consider : Progress → Candidate → Progress
  unfolding candidate_end emit region_end_for
  consider p c =
      if c.addr == p.last_addr
      then p
      else let p' = record p { last_addr = c.addr } in
        if ltb c.addr p.cover_end
        then record p' { suppressed = p.suppressed + 1 }
        else let r_end = region_end_for m c.addr in
          if leb r_end c.addr then p' else emit p' c.addr (candidate_end p.cache c r_end)

  unfoldable pub consider_all : Progress → List Candidate → Progress
  unfolding consider
  consider_all p [] = p
  consider_all p (c ∷ rest) = consider_all (consider p c) rest

  unfoldable pub referenced : Progress
  unfolding consider_all candidates
  referenced =
      consider_all
        (record {
          cache = empty_cache;
          emitted = [];
          cover_end = 0;
          last_addr = invalid_address;
          suppressed = 0;
        })
        (candidates m input)

  unfoldable pub carve_decoded : Address → Carving → Carving
  unfolding take_gap build request_for next_strong_after strong_sorted
  carve_decoded gap_end s =
      let upper = min (next_strong_after (strong_sorted m input) s.cursor) gap_end in
      take_gap options s gap_end (build m decode (request_for s.cursor upper) s.cache)

  -- The body of the loop of `carveGap`.
  unfoldable pub carve_step : Address → Carving → Carving
  unfolding carve_decoded skip_word is_padding_word cache_at
  carve_step gap_end s =
      if is_padding_word m s.cursor
      then skip_word s s.cache
      else let (cache, found) = cache_at m decode s.cache s.cursor in
        elim found [
          | none ↦ skip_word s cache
          | some _ ↦ carve_decoded gap_end (record s { cache = cache })
        ]

  unfoldable pub carve_loop : ℕ → Address → Carving → Carving
  unfolding carve_step
  carve_loop zero gap_end s = s
  carve_loop (suc fuel) gap_end s = elim (leb (add64 s.cursor instruction_size) gap_end) [
    | true ↦ carve_loop fuel gap_end (carve_step gap_end s)
    | false ↦ s
  ]

  -- `carveGap`, with a round for each byte of the gap.
  unfoldable pub carve_gap : Address → Address → Carving → Carving
  unfolding carve_loop
  carve_gap gap_start gap_end s =
      carve_loop (gap_end - gap_start) gap_end (record s { cursor = align_up gap_start })

  -- The loop over the emitted functions for one region: `pos` and the carving.
  unfoldable pub carve_between :
      CodeRegion → List FunctionBounds → Address → Carving → Address × Carving
  unfolding carve_gap
  carve_between region [] pos s = (pos, s)
  carve_between region (fn ∷ rest) pos s =
      let cov_start = max fn.start region.start in
      let outside = leb fn.end region.start || leb region.end fn.start in
      carve_between region rest (if outside then pos else max pos (min fn.end region.end))
        (if outside then s else if ltb pos cov_start then carve_gap pos cov_start s else s)

  unfoldable pub carve_region : List FunctionBounds → Carving → CodeRegion → Carving
  unfolding carve_between carve_gap
  carve_region emitted s region =
      let (pos, s') = carve_between region emitted region.start s in
      if ltb pos region.end then carve_gap pos region.end s' else s'

  unfoldable pub carve_regions : List FunctionBounds → Carving → List CodeRegion → Carving
  unfolding carve_region
  carve_regions emitted s [] = s
  carve_regions emitted s (region ∷ rest) =
      carve_regions emitted (carve_region emitted s region) rest

abbrev pub starts_before : FunctionBounds → FunctionBounds → Bool
starts_before a b = ltb a.start b.start

abbrev pub bounds_before : FunctionBounds → FunctionBounds → Bool
bounds_before a b = if not (a.start == b.start) then ltb a.start b.start else ltb a.end b.end

-- The last loop; `last` is the end of `result.back()`.
unfoldable pub separate : Option Address → List FunctionBounds → List FunctionBounds
separate last [] = []
separate last (fn ∷ rest) =
    elim (leb fn.end fn.start
      || elim last [ none ↦ false | some back_end ↦ ltb fn.start back_end ]) [
        | true ↦ separate last rest
        | false ↦ fn ∷ separate (some fn.end) rest
      ]

module _ (m : CodeMap) (decode : Decoder) (input : Input) (options : Options) where
  -- The functions before the last sort: the referenced ones, and those found in the gaps.
  unfoldable pub all_emitted : List FunctionBounds
  unfolding referenced carve_regions sort
  all_emitted =
      let p = referenced m decode input options in
      if options.discover_gap_functions
      then (let sorted = sort starts_before p.emitted in
          let s : Carving = record {
            cache = p.cache;
            cursor = 0;
            gap_functions = [];
            gap_count = 0;
          } in
          sorted ++ (carve_regions m decode input options sorted s m.regions).gap_functions)
      else p.emitted

  -- `FunctionExtentAnalyzer::analyze`.
  unfoldable pub analyze : List FunctionBounds
  unfolding all_emitted separate sort
  analyze = separate none (sort bounds_before all_emitted)
