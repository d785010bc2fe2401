-- ===== src/Analysis/ControlFlow/Extent/Origins.antt =====
-- The loop over the candidates makes functions from the given entries only.
use fn_finder.Base.{
  ℕ, ◌≡◌, refl, Bool, true, false, List, [], ◌∷◌, ◌++◌, arith, ltb, leb, ◌==◌, In, In-append_cases,
  Bool-cases, inl, inr, ◌⊎◌, sym, subst, ap, filter, map, All, All-In, All-filter_self,
}
use fn_finder.Base.Words.{Address}
use fn_finder.Base.Sort.{In-sort}
use fn_finder.Disasm.Instruction.{Decoder}
use fn_finder.Analysis.CodeMap.{CodeMap}
use fn_finder.Analysis.ControlFlow.Instructions.{InstructionCache}
use fn_finder.Analysis.ControlFlow.Extent.{
  FunctionBounds, Options, Input, Candidate, Progress, is_usable, region_end_for, candidate_before,
  candidate_end, candidates, usable_candidates, as_candidate, emit, consider, consider_all,
  referenced,
}
use fn_finder.Analysis.ControlFlow.Extent.Gaps.{HasRoom}
use fn_finder.Analysis.ControlFlow.Extent.Coverage.{Covers, Tracks, IsPlaced, referenced-Covers}

-- An entry of either kind.
abbrev pub IsEntry : Input → Address → Type 0
IsEntry input a = In a input.strong_entries ⊎ In a input.soft_entries

All-from : {A : Type 0} (P : A → Type 0) (xs : List A) → ((a : A) → In a xs → P a) → All P xs
All-from P [] h = tt
All-from P (x ∷ xs) h = (h x (inl refl), All-from P xs (λ a i. h a (inr i)))

In-filter_back : (t : ℕ → Bool) (xs : List ℕ) (a : ℕ) → In a (filter t xs) → In a xs
unfolding filter
In-filter_back t [] a i = i
In-filter_back t (x ∷ xs) a i = elim (Bool-cases (t x)) [
  | inl e ↦ ground (arith, In-filter_back t xs a)
  | inr e ↦ ground (arith, In-filter_back t xs a)
]

In-map_back :
    (strong : Bool) (xs : List ℕ) (c : Candidate)
    → In c (map (as_candidate strong) xs)
    → In c.addr xs
In-map_back strong [] c i = i
In-map_back strong (x ∷ xs) c (inl e) = inl (ap (λ (d : Candidate). d.addr) e)
In-map_back strong (x ∷ xs) c (inr i) = inr (In-map_back strong xs c i)

emit_starts :
    (p : Progress) (addr : Address) (end : Address) (cache : InstructionCache) (f : FunctionBounds)
    → In f (emit p addr (end, cache)).emitted
    → In f p.emitted ⊎ (f.start ≡ addr)
unfolding emit
emit_starts p addr end cache f i = elim (Bool-cases (leb end addr)) [
  | inl e ↦
      let kept : (emit p addr (end, cache)).emitted ≡ p.emitted = rw (emit, e) refl in
      inl (subst (In f) kept i)
  | inr e ↦
      let g : FunctionBounds = record { start = addr; end = end } in
      let grown : (emit p addr (end, cache)).emitted ≡ p.emitted ++ g ∷ [] = rw (emit, e) refl in
      elim (In-append_cases f p.emitted (g ∷ []) (subst (In f) grown i)) [
        | inl k ↦ inl k
        | inr k ↦ elim k [
          | inl same ↦ inr (ap (λ (h : FunctionBounds). h.start) same)
          | inr k' ↦ elim k' [ ]
        ]
      ]
]

module _ (m : CodeMap) (decode : Decoder) (input : Input) (options : Options) where
  consider_starts :
      (p : Progress) (c : Candidate) (f : FunctionBounds)
      → In f (consider m decode input options p c).emitted
      → In f p.emitted ⊎ (f.start ≡ c.addr)
  unfolding consider
  consider_starts p c f i =
      let done = consider m decode input options p c in
      elim (Bool-cases (c.addr == p.last_addr)) [
        | inl a ↦
            let kept : done.emitted ≡ p.emitted = rw (consider, a) refl in inl (subst (In f) kept i)
        | inr a ↦ elim (Bool-cases (ltb c.addr p.cover_end)) [
          | inl b ↦
              let kept : done.emitted ≡ p.emitted = rw (consider, a, b) refl in
              inl (subst (In f) kept i)
          | inr b ↦ elim (Bool-cases (leb (region_end_for m c.addr) c.addr)) [
            | inl e ↦
                let kept : done.emitted ≡ p.emitted = rw (consider, a, b, e) refl in
                inl (subst (In f) kept i)
            | inr e ↦
                let q : Progress = record p { last_addr = c.addr } in
                let (end, cache) =
                  candidate_end m decode input options p.cache c (region_end_for m c.addr) in
                let emits : done.emitted ≡ (emit q c.addr (end, cache)).emitted =
                  rw (consider, a, b, e) refl in
                emit_starts q c.addr end cache f (subst (In f) emits i)
          ]
        ]
      ]

  consider_all_starts :
      (p : Progress) (cs : List Candidate) (f : FunctionBounds)
      → In f (consider_all m decode input options p cs).emitted
      → In f p.emitted ⊎ ((c : Candidate) × In c cs × (f.start ≡ c.addr))
  unfolding consider_all
  consider_all_starts p [] f i = inl i
  consider_all_starts p (c ∷ cs) f i =
      elim (consider_all_starts (consider m decode input options p c) cs f i) [
        | inr (d, j, e) ↦ inr (d, inr j, e)
        | inl j ↦ elim (consider_starts p c f j) [ inl k ↦ inl k | inr e ↦ inr (c, inl refl, e) ]
      ]

  candidates-IsEntry : (c : Candidate) → In c (candidates m input) → IsEntry input c.addr
  unfolding candidates usable_candidates
  candidates-IsEntry c i =
      let strong = filter (is_usable m) input.strong_entries in
      let soft = filter (is_usable m) input.soft_entries in
      elim (In-append_cases c (map (as_candidate true) strong) (map (as_candidate false) soft)
        ((In-sort candidate_before c (usable_candidates m input)).0 i)) [
          | inl j ↦ inl (
              In-filter_back (is_usable m) input.strong_entries c.addr
                (In-map_back true strong c j))
          | inr j ↦
              inr (
                In-filter_back (is_usable m) input.soft_entries c.addr (In-map_back false soft c j))
        ]

  referenced-IsEntry :
      (f : FunctionBounds)
      → In f (referenced m decode input options).emitted
      → IsEntry input f.start
  unfolding referenced
  referenced-IsEntry f i = elim (consider_all_starts _ (candidates m input) f i) [
    | inl k ↦ elim k [ ]
    | inr (c, j, e) ↦ subst (IsEntry input) (sym e) (candidates-IsEntry c j)
  ]

  -- Where the regions end two words below the top of the address space, the functions that are made
  -- from the entries are in order and apart; each starts at one of the strong and soft entries, at an
  -- aligned address of the code, is not empty, and ends in its region; and each entry that is an
  -- aligned address of the code lies in one of them.
  pub referenced_lem :
      HasRoom m
      → Tracks m (referenced m decode input options)
        × All
            (λ f. IsEntry input f.start × IsPlaced m f)
            (referenced m decode input options).emitted
        × All
            (Covers (referenced m decode input options).emitted)
            (filter (is_usable m) (input.strong_entries ++ input.soft_entries))
  referenced_lem room =
      let (t, covers) = referenced-Covers m decode input options room in
      let fs = (referenced m decode input options).emitted in
      let entries = input.strong_entries ++ input.soft_entries in
      (
        t,
        All-from (λ f. IsEntry input f.start × IsPlaced m f) fs
            (λ f i. (referenced-IsEntry f i, All-In (IsPlaced m) fs f t.placed i)),
        All-from (Covers fs) (filter (is_usable m) entries) (λ a i.
            covers a
              (In-append_cases a input.strong_entries input.soft_entries
                (In-filter_back (is_usable m) entries a i))
              (All-In (λ x. is_usable m x ≡ true) (filter (is_usable m) entries) a
                (All-filter_self (is_usable m) entries) i)),
      )
