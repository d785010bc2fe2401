-- ===== src/Analysis/ControlFlow/Extent/Kept.antt =====
-- The last loop of src/analysis/control_flow/function_extent_analyzer.cc drops no function that was
-- made from an entry, so that every usable entry lies in a returned function.
use fn_finder.Base.{
  ℕ, ◌≤◌, ◌<◌, ◌≡◌, refl, true, false, Option, none, some, List, [], ◌∷◌, arith, All, All-In,
  All-imply, All-append, Bool-cases, inl, inr, In, In-append_left, ◌⊎◌, sym, subst,
}
use fn_finder.Base.Words.{Address}
use fn_finder.Base.Sort.{sort, insert_by, All-sort, In-sort, IsSorted, sort-IsSorted}
use fn_finder.Disasm.Instruction.{Decoder}
use fn_finder.Analysis.CodeMap.{CodeMap}
use fn_finder.Analysis.ControlFlow.Extent.{
  FunctionBounds, Options, Input, Carving, is_usable, starts_before, bounds_before, referenced,
  carve_regions, all_emitted, separate, analyze,
}
use fn_finder.Analysis.ControlFlow.Extent.Separation.{
  AreSeparate, is_dropped, separate_drop, separate_keep,
}
use fn_finder.Analysis.ControlFlow.Extent.Gaps.{HasRoom}
use fn_finder.Analysis.ControlFlow.Extent.GapsApart.{IsApart, IsApartFromAll, carve_regions-All}
use fn_finder.Analysis.ControlFlow.Extent.Coverage.{Covers, referenced-Covers}

-- Separate functions are in the order of their starts already.
sort-AreSeparate : (fs : List FunctionBounds) → AreSeparate fs → sort starts_before fs ≡ fs
unfolding sort insert_by
sort-AreSeparate [] a = refl
sort-AreSeparate (f ∷ []) a = refl
sort-AreSeparate (f ∷ g ∷ fs) (n, (b, bs), a) = rw (sort-AreSeparate (g ∷ fs) a) (ground arith)

AreSeparate-IsApart :
    (fs : List FunctionBounds) (f g : FunctionBounds)
    → AreSeparate fs
    → In f fs
    → In g fs
    → IsApart f g ⊎ (g ≡ f)
AreSeparate-IsApart [] f g a i j = elim i [ ]
AreSeparate-IsApart (h ∷ fs) f g (n, b, a) (inl p) (inl q) = inr (ground arith)
AreSeparate-IsApart (h ∷ fs) f g (n, b, a) (inl p) (inr j) =
    let behind = All-In (λ k. h.end ≤ k.start) fs g b j in inl (inr (ground arith))
AreSeparate-IsApart (h ∷ fs) f g (n, b, a) (inr i) (inl q) =
    let behind = All-In (λ k. h.end ≤ k.start) fs f b i in inl (inl (ground arith))
AreSeparate-IsApart (h ∷ fs) f g (n, b, a) (inr i) (inr j) = AreSeparate-IsApart fs f g a i j

bounds_before-le : (a b : FunctionBounds) → bounds_before a b ≡ true → a.start ≤ b.start
bounds_before-le a b h = ground arith

bounds_before-ge : (a b : FunctionBounds) → bounds_before a b ≡ false → b.start ≤ a.start
bounds_before-ge a b h = ground arith

abbrev start_of : FunctionBounds → ℕ
start_of f = f.start

-- The last function kept ends at or before the start of `f`.
abbrev IsBehind : Option Address → FunctionBounds → Type 0
IsBehind none f = Unit {0}
IsBehind (some last) f = last ≤ f.start

abbrev Compatible : FunctionBounds → FunctionBounds → Type 0
Compatible f g = IsApart f g ⊎ (g ≡ f)

not-dropped :
    (last : Option Address) (f g : FunctionBounds)
    → is_dropped last g ≡ true
    → f ≡ g
    → f.start < f.end
    → IsBehind last f
    → ⊥
not-dropped none f g e here n b = ground arith
not-dropped (some last) f g e here n b = ground arith

pub All-of_In :
    (fs : List FunctionBounds) (P : FunctionBounds → Type 0)
    → ((f : FunctionBounds) → In f fs → P f)
    → All P fs
All-of_In [] P h = tt
All-of_In (f ∷ fs) P h = (h f (inl refl), All-of_In fs P (λ g i. h g (inr i)))

-- The last loop keeps a function that is apart from all others.
separate-keeps :
    (last : Option Address) (fs : List FunctionBounds) (f : FunctionBounds)
    → In f fs
    → f.start < f.end
    → IsSorted start_of bounds_before bounds_before-le bounds_before-ge fs
    → All (Compatible f) fs
    → IsBehind last f
    → In f (separate last fs)
separate-keeps last [] f i n s c b = elim i [ ]
separate-keeps last (g ∷ fs) f i n (s, ss) (c, cs) b = elim (Bool-cases (is_dropped last g)) [
  | inl e ↦ elim i [
    | inl here ↦ elim (not-dropped last f g e here n b) [ ]
    | inr later ↦
        subst (In f) (sym (separate_drop last g fs e)) (separate-keeps last fs f later n ss cs b)
  ]
  | inr e ↦ subst (In f) (sym (separate_keep last g fs e)) (elim i [
    | inl here ↦ inl here
    | inr later ↦ elim c [
      | inr same ↦ inl (sym same)
      | inl apart ↦
          let order = All-In (λ k. g.start ≤ k.start) fs f s later in
          inr (separate-keeps (some g.end) fs f later n ss cs (ground arith))
    ]
  ])
]

module _ (m : CodeMap) (decode : Decoder) (input : Input) (options : Options)
    (room : HasRoom m) where
  abbrev emitted : List FunctionBounds
  emitted = (referenced m decode input options).emitted

  emitted-AreSeparate : AreSeparate emitted
  emitted-AreSeparate = (referenced-Covers m decode input options room).0.apart

  emitted-Compatible :
      (f : FunctionBounds) → In f emitted → All (Compatible f) (all_emitted m decode input options)
  unfolding all_emitted
  emitted-Compatible f i =
      let p = referenced m decode input options in
      let apart = emitted-AreSeparate in
      let own =
        All-of_In emitted (Compatible f) (λ g j. AreSeparate-IsApart emitted f g apart i j) in
      let s : Carving = record { cache = p.cache; cursor = 0; gap_functions = []; gap_count = 0 } in
      elim (Bool-cases options.discover_gap_functions) [
        | inr e ↦ rw e own
        | inl e ↦
            rw (e, sort-AreSeparate emitted apart)
              (All-append (Compatible f) emitted
                (carve_regions m decode input options emitted s m.regions).gap_functions own
                (All-imply (IsApartFromAll m decode input options emitted) (Compatible f) _
                  (λ g q. inl (q f i))
                  (carve_regions-All m decode input options emitted s m.regions apart room tt)))
      ]

  emitted-In : (f : FunctionBounds) → In f emitted → In f (all_emitted m decode input options)
  unfolding all_emitted
  emitted-In f i = elim (Bool-cases options.discover_gap_functions) [
    | inr e ↦ rw e i
    | inl e ↦
        rw e
          (In-append_left f (sort starts_before emitted) _ ((In-sort starts_before f emitted).1 i))
  ]

  -- A function that was made from an entry is returned.
  analyze-In :
      (f : FunctionBounds) → In f emitted → f.start < f.end → In f (analyze m decode input options)
  unfolding analyze
  analyze-In f i n =
      let every = all_emitted m decode input options in
      separate-keeps none (sort bounds_before every) f
        ((In-sort bounds_before f every).1 (emitted-In f i)) n
        (sort-IsSorted start_of bounds_before bounds_before-le bounds_before-ge every)
        (All-sort bounds_before (Compatible f) every (emitted-Compatible f i)) tt

  -- Where the regions end below the top of the address space, every usable address among the strong
  -- and the soft entries lies in one of the functions that the analyzer returns.
  pub analyze-Covers :
      (a : ℕ)
      → In a input.strong_entries ⊎ In a input.soft_entries
      → is_usable m a ≡ true
      → Covers (analyze m decode input options) a
  analyze-Covers a h u =
      let (f, i, l, r) = (referenced-Covers m decode input options room).1 a h u in
      (f, analyze-In f i (omega arith), l, r)
