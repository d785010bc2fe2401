-- ===== src/Analysis/ControlFlow/Extent/GapsApart.antt =====
-- The functions that the gap search of src/analysis/control_flow/function_extent_analyzer.cc finds
-- do not overlap the functions between which it searches.
use fn_finder.Base.{
  ℕ, ◌+◌, ◌≤◌, ◌<◌, List, [], ◌∷◌, arith, ltb, leb, ◌||◌, All, All-In, All-imply, Bool-cases, inl,
  inr, In, min, max, ◌⊎◌, ◌≡◌, sym, subst,
}
use fn_finder.Base.Words.{u64_mod}
use fn_finder.Disasm.Instruction.{Decoder}
use fn_finder.Analysis.CodeMap.{CodeMap, CodeRegion}
use fn_finder.Analysis.ControlFlow.Extent.{
  FunctionBounds, Options, Input, Carving, carve_gap, carve_between, carve_region, carve_regions,
}
use fn_finder.Analysis.ControlFlow.Extent.Gaps.{two_words, IsIn, carve_gap-All}
use fn_finder.Analysis.ControlFlow.Extent.Separation.{AreSeparate}

abbrev pub IsApart : FunctionBounds → FunctionBounds → Type 0
IsApart f g = (g.end ≤ f.start) ⊎ (f.end ≤ g.start)

module _ (m : CodeMap) (decode : Decoder) (input : Input) (options : Options)
    (all : List FunctionBounds) where
  -- A function that overlaps none of the list.
  abbrev pub IsApartFromAll : FunctionBounds → Type 0
  IsApartFromAll g = (f : FunctionBounds) → In f all → IsApart f g

  module _ (region : CodeRegion) (high : region.end + two_words < u64_mod) where
    -- What the search has passed when it stands at a position of the region.
    abbrev IsPassed : ℕ → FunctionBounds → Type 0
    IsPassed pos f =
        (f.end ≤ pos) ⊎ (f.end ≤ region.start) ⊎ (region.end ≤ f.start) ⊎ (region.end ≤ pos)

    abbrev AllSeen : ℕ → List FunctionBounds → Type 0
    AllSeen pos fns = (f : FunctionBounds) → In f all → In f fns ⊎ IsPassed pos f

    -- A function in the gap in front of the next one is apart from all.
    gap-IsApartFromAll :
        (fns : List FunctionBounds) (pos hi : ℕ) (g : FunctionBounds)
        → region.start ≤ pos
        → hi ≤ region.end
        → All (λ f. hi ≤ f.start) fns
        → AllSeen pos fns
        → IsIn pos hi g
        → IsApartFromAll g
    gap-IsApartFromAll fns pos hi g l u ahead seen p f i = elim (seen f i) [
      | inl k ↦ inl (omega (arith, All-In (λ h. hi ≤ h.start) fns f ahead k))
      | inr passed ↦ ground arith
    ]

    ahead_of :
        (fn : FunctionBounds) (rest : List FunctionBounds)
        → AreSeparate (fn ∷ rest)
        → All (λ f. fn.start ≤ f.start) (fn ∷ rest)
    ahead_of fn rest (n, b, a) = (
      omega arith,
      All-imply (λ (f : FunctionBounds). fn.end ≤ f.start) (λ f. fn.start ≤ f.start) rest
          (λ f p. omega arith) b,
    )

    AllSeen-next :
        (fn : FunctionBounds) (rest : List FunctionBounds) (pos pos' : ℕ)
        → AllSeen pos (fn ∷ rest)
        → pos ≤ pos'
        → IsPassed pos' fn
        → AllSeen pos' rest
    AllSeen-next fn rest pos pos' seen le passed f i = elim (seen f i) [
      | inl (inl here) ↦ inr (subst (IsPassed pos') (sym here) passed)
      | inl (inr later) ↦ inl later
      | inr before ↦ inr (ground arith)
    ]

    -- One gap keeps what was found apart.
    gap-All :
        (fns : List FunctionBounds) (pos hi : ℕ) (s : Carving)
        → region.start ≤ pos
        → pos < hi
        → hi ≤ region.end
        → All (λ f. hi ≤ f.start) fns
        → AllSeen pos fns
        → All IsApartFromAll s.gap_functions
        → All IsApartFromAll (carve_gap m decode input options pos hi s).gap_functions
    gap-All fns pos hi s l k u ahead seen a =
        (carve_gap-All m decode input options IsApartFromAll pos hi
          (λ g q. gap-IsApartFromAll fns pos hi g l u ahead seen q) (omega arith) s (omega arith)
          a).1

    -- The search between the functions of the region: at its end all of them are passed.
    carve_between-All :
        (fns : List FunctionBounds) (pos : ℕ) (s : Carving)
        → AreSeparate fns
        → region.start ≤ pos
        → AllSeen pos fns
        → All IsApartFromAll s.gap_functions
        → let found = carve_between m decode input options region fns pos s in
          (region.start ≤ found.0) × AllSeen found.0 [] × All IsApartFromAll found.1.gap_functions
    unfolding carve_between
    carve_between-All [] pos s p l seen a = (l, seen, a)
    carve_between-All (fn ∷ rest) pos s (n, b, p) l seen a =
        elim (Bool-cases (leb fn.end region.start || leb region.end fn.start)) [
          | inl e ↦
              rw (carve_between, e)
                (carve_between-All rest pos s p l
                  (AllSeen-next fn rest pos pos seen (omega arith) (ground arith)) a)
          | inr e ↦
              let pos' = max pos (min fn.end region.end) in
              let seen' = AllSeen-next fn rest pos pos' seen (omega arith) (ground arith) in
              elim (Bool-cases (ltb pos (max fn.start region.start))) [
                | inl g ↦
                    let hi = max fn.start region.start in
                    let here : hi ≡ fn.start = ground arith in
                    rw (carve_between, e, g)
                      (carve_between-All rest pos' (carve_gap m decode input options pos hi s) p
                        (omega arith) seen'
                        (gap-All (fn ∷ rest) pos hi s l (ground arith) (ground arith)
                          (subst (λ h. All (λ f. h ≤ f.start) (fn ∷ rest)) (sym here)
                            (ahead_of fn rest (n, b, p)))
                          seen a))
                | inr g ↦
                    rw (carve_between, e, g) (carve_between-All rest pos' s p (omega arith) seen' a)
              ]
        ]

    carve_region-All :
        (s : Carving)
        → AreSeparate all
        → All IsApartFromAll s.gap_functions
        → All IsApartFromAll (carve_region m decode input options all s region).gap_functions
    unfolding carve_region
    carve_region-All s p a =
        let found = carve_between m decode input options region all region.start s in
        let (l, seen, b) = carve_between-All all region.start s p (omega arith) (λ f i. inl i) a in
        elim (Bool-cases (ltb found.0 region.end)) [
          | inl e ↦
              rw e (gap-All [] found.0 region.end found.1 l (ground arith) (omega arith) tt seen b)
          | inr e ↦ rw e b
        ]

  pub carve_regions-All :
      (s : Carving) (regions : List CodeRegion)
      → AreSeparate all
      → All (λ r. r.end + two_words < u64_mod) regions
      → All IsApartFromAll s.gap_functions
      → All IsApartFromAll (carve_regions m decode input options all s regions).gap_functions
  unfolding carve_regions
  carve_regions-All s [] p h a = a
  carve_regions-All s (r ∷ rest) p (u, h) a =
      carve_regions-All (carve_region m decode input options all s r) rest p h
        (carve_region-All r u s p a)
