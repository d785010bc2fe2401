-- ===== src/Analysis/FunctionAnalyzer/Results.antt =====
-- What the analyzer of src/analysis/function_analyzer.cc returns.
use fn_finder.Base.{
  ℕ, ◌+◌, ◌≤◌, ◌<◌, ◌≡◌, refl, true, List, [], ◌∷◌, some, arith, leb, ◌==◌, ◌&&◌, In, In-map, map,
  Bool-cases, Option-cases, inl, inr, subst, sym, All, All-In, All-map,
}
use fn_finder.Base.Words.{Address, u64_mod, add64}
use fn_finder.Base.Sets
use fn_finder.Base.Sort.{sort, insert_by, All-sort, In-sort}
use fn_finder.Disasm.Instruction.{Decoder}
use fn_finder.Elf.Types.{ElfImage}
use fn_finder.Symbol.NameResolver.{NameResolver, make_name_resolver}
use fn_finder.Analysis.CodeMap
use fn_finder.Analysis.CodeMap.{CodeMap, CodeRegion, make_code_map}
use fn_finder.Analysis.CodeMap.Lookup.{contains-region, region_containing_sound}
use fn_finder.Analysis.RecursiveDisassembler.{RecursiveResult}
use fn_finder.Analysis.ControlFlow.Extent
use fn_finder.Analysis.ControlFlow.Extent.{FunctionBounds, is_usable}
use fn_finder.Analysis.ControlFlow.Extent.Separation.{AreSeparate, analyze-AreSeparate}
use fn_finder.Analysis.ControlFlow.Extent.Gaps.{HasRoom, IsInRegions, two_words}
use fn_finder.Analysis.ControlFlow.Extent.Regions.{analyze-IsInRegions}
use fn_finder.Analysis.ControlFlow.Extent.Kept.{All-of_In, analyze-Covers}
use fn_finder.Analysis.FunctionAnalyzer.{
  AnalysisOptions, Function, strong_entries_of, recursive_result, extent_input, extent_options,
  last_below, last_instruction_of, make_function, function_before, bounds_of, functions_of,
  unless_empty, analyze_functions,
}
use fn_finder.Analysis.FunctionAnalyzer.Entries.{IsKnownEntry, strong_entries_of-Holds}

-- Each function is not empty and ends before the next begins.
abbrev pub AreOrdered : List Function → Type 0
AreOrdered [] = Unit {0}
AreOrdered (f ∷ fs) = (f.start < f.end) × All (λ g. f.end ≤ g.start) fs × AreOrdered fs

sort-AreOrdered : (fs : List Function) → AreOrdered fs → AreOrdered (sort function_before fs)
unfolding sort
sort-AreOrdered fs a = subst AreOrdered (sym (same fs a)) a
  where
    same : (gs : List Function) → AreOrdered gs → sort function_before gs ≡ gs
    same [] b = refl
    same (g ∷ []) b = unfold insert_by in refl
    same (g ∷ h ∷ gs) (n, (l, ls), b) = rw (same (h ∷ gs) b) (unfold insert_by in ground arith)

last_below_lem :
    (end : Address) (sizes : List (ℕ × ℕ)) (k v : ℕ) → last_below end sizes ≡ some (k, v) → k < end
unfolding last_below
last_below_lem end [] k v h = cc
last_below_lem end ((j, w) ∷ rest) k v h = elim (Option-cases (last_below end rest)) [
  | inl e ↦ ground arith
  | inr ((i, u), e) ↦ ground (arith, last_below_lem end rest i u e)
]

-- The last instruction lies in the function.
last_instruction_of_bounds :
    (sizes : List (ℕ × ℕ)) (start end : Address)
    → start < end
    → end < u64_mod
    → (start ≤ last_instruction_of sizes start end) × (last_instruction_of sizes start end < end)
unfolding last_instruction_of
last_instruction_of_bounds sizes start end l u = elim (Option-cases (last_below end sizes)) [
  | inl e ↦ rw (last_instruction_of, e) (ground arith)
  | inr ((k, v), e) ↦
      let below = last_below_lem end sizes k v e in
      elim (Bool-cases (leb start k && (add64 k v == end))) [
        | inl q ↦ rw (last_instruction_of, e, q) (ground arith, below)
        | inr q ↦ rw (last_instruction_of, e, q) (ground arith)
      ]
]

-- A function lies in a region, its size is its length, and its last instruction lies in it.
pub record IsExact (m : CodeMap) (f : Function) : Type 0 where
  pub region : CodeRegion
  pub listed : In region m.regions
  pub from_region : region.start ≤ f.start
  pub to_region : f.end ≤ region.end
  pub sized : f.start + f.size ≡ f.end
  pub filled : 0 < f.size
  pub last_from : f.start ≤ f.last_instruction
  pub last_to : f.last_instruction < f.end

module _ (demangle : List ℕ → List ℕ) (names : NameResolver) (options : AnalysisOptions)
    (sizes : List (ℕ × ℕ)) where
  abbrev made : FunctionBounds → Function
  made = make_function demangle names options sizes

  made-IsExact :
      (m : CodeMap) (b : FunctionBounds) → HasRoom m → IsInRegions m b → IsExact m (made b)
  unfolding make_function
  made-IsExact m b room (r, i, (l, n, u)) =
      let high = All-In (λ q. q.end + two_words < u64_mod) m.regions r room i in
      let last = last_instruction_of_bounds sizes b.start b.end n (omega arith) in
      record {
        region = r;
        listed = i;
        from_region = l;
        to_region = u;
        sized = omega arith;
        filled = omega arith;
        last_from = last.0;
        last_to = last.1;
      }

  made_after :
      (end : Address) (bs : List FunctionBounds)
      → All (λ b. end ≤ b.start) bs
      → All (λ f. end ≤ f.start) (map made bs)
  unfolding make_function
  made_after end [] h = tt
  made_after end (b ∷ bs) (p, h) = (p, made_after end bs h)

  made-AreOrdered : (bs : List FunctionBounds) → AreSeparate bs → AreOrdered (map made bs)
  unfolding make_function
  made-AreOrdered [] a = tt
  made-AreOrdered (b ∷ bs) (n, l, a) = (n, made_after b.end bs l, made-AreOrdered bs a)

module _ (demangle : List ℕ → List ℕ) (image : ElfImage) (decode : Decoder)
    (options : AnalysisOptions) where
  abbrev code : CodeMap
  code = make_code_map image

  abbrev found : RecursiveResult
  found = recursive_result code decode options (strong_entries_of code image options).starts

  abbrev bounds : List FunctionBounds
  bounds = bounds_of decode options code (strong_entries_of code image options) found

  abbrev input : Extent.Input
  input = extent_input code (strong_entries_of code image options) found

  unless_empty-All :
      (P : Function → Type 0) (rs : List CodeRegion) (fs : List Function)
      → All P fs
      → All P (unless_empty rs fs)
  unless_empty-All P [] fs a = tt
  unless_empty-All P (r ∷ rs) fs a = a

  unless_empty-AreOrdered :
      (rs : List CodeRegion) (fs : List Function) → AreOrdered fs → AreOrdered (unless_empty rs fs)
  unless_empty-AreOrdered [] fs a = tt
  unless_empty-AreOrdered (r ∷ rs) fs a = a

  -- The analyzer's functions are in ascending order, none is empty, and no two overlap, whatever the
  -- image, the decoder and the options.
  pub analyze_functions-AreOrdered :
      AreOrdered (analyze_functions demangle image decode options).functions
  unfolding analyze_functions functions_of bounds_of
  analyze_functions-AreOrdered = unless_empty-AreOrdered code.regions _ (
      sort-AreOrdered _ (
        made-AreOrdered demangle (make_name_resolver image) options found.instruction_sizes bounds
          (analyze-AreSeparate code decode input (extent_options options))))

  -- Where the regions end below the top of the address space, every function of the result lies in
  -- a code region, its size is the distance from its start to its end and not zero, and its last
  -- instruction lies in it.
  pub analyze_functions-IsExact :
      (f : Function)
      → HasRoom code
      → In f (analyze_functions demangle image decode options).functions
      → IsExact code f
  unfolding analyze_functions functions_of bounds_of
  analyze_functions-IsExact f room i =
      let names = make_name_resolver image in
      let sizes = found.instruction_sizes in
      All-In (IsExact code) _ f
        (unless_empty-All (IsExact code) code.regions _ (
          All-sort function_before (IsExact code) _ (
            All-map (IsExact code) (made demangle names options sizes) bounds (
              All-of_In bounds (λ b. IsExact code (made demangle names options sizes b))
                (λ b k.
                  made-IsExact demangle names options sizes code b room
                    (analyze-IsInRegions code decode input (extent_options options) room b k))))))
        i

  in_unless_empty :
      (f : Function) (r : CodeRegion) (rs : List CodeRegion) (fs : List Function)
      → In r rs
      → In f fs
      → In f (unless_empty rs fs)
  in_unless_empty f r [] fs i k = elim i [ ]
  in_unless_empty f r (q ∷ rs) fs i k = k

  -- Where the regions end below the top of the address space, every entry that the options name and
  -- that is an aligned address of the code lies in a function of the result.
  pub analyze_functions-Covers :
      (a : Address)
      → HasRoom code
      → IsKnownEntry image options a
      → is_usable code a ≡ true
      → (f : Function) × In f (analyze_functions demangle image decode options).functions
        × (f.start ≤ a)
        × (a < f.end)
  unfolding analyze_functions functions_of bounds_of make_function
  analyze_functions-Covers a room known usable =
      let e = strong_entries_of code image options in
      let inside : CodeMap.contains code a ≡ true = unfold is_usable in ground arith in
      let strong =
        (Sets.contains_iff a e.starts).0
          (strong_entries_of-Holds code a inside image options known) in
      let (b, i, l, u) =
        analyze-Covers code decode input (extent_options options) room a
          (inl (unfold extent_input in strong)) usable in
      let (r, q) = contains-region code a inside in
      let (k, _, _) = region_containing_sound code a r q in
      let make = made demangle (make_name_resolver image) options found.instruction_sizes in
      (
        make b,
        in_unless_empty (make b) r code.regions _ k
            ((In-sort function_before (make b) (map make bounds)).1 (In-map make bounds b i)),
        l,
        u,
      )
