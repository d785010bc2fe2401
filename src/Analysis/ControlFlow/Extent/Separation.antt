-- ===== src/Analysis/ControlFlow/Extent/Separation.antt =====
-- The functions that the analyzer returns: in order, not empty, and apart.
use fn_finder.Base.{
  ℕ, ◌≤◌, ◌<◌, ◌≡◌, refl, Bool, true, false, ◌||◌, List, [], ◌∷◌, Option, none, some, arith, ltb,
  leb, All, All-imply, Bool-cases, inl, inr, In, subst, ◌∙◌, ap,
}
use fn_finder.Base.Words.{Address}
use fn_finder.Base.Sort.{sort}
use fn_finder.Disasm.Instruction.{Decoder}
use fn_finder.Analysis.CodeMap.{CodeMap}
use fn_finder.Analysis.ControlFlow.Extent.{
  FunctionBounds, Options, Input, separate, bounds_before, all_emitted, analyze,
}

-- Each function is not empty and ends before the next begins.
abbrev pub AreSeparate : List FunctionBounds → Type 0
AreSeparate [] = Unit {0}
AreSeparate (f ∷ fs) = (f.start < f.end) × All (λ g. f.end ≤ g.start) fs × AreSeparate fs

-- All start at or behind the end of the last function kept.
abbrev pub Follows : Option Address → List FunctionBounds → Type 0
Follows none fs = Unit {0}
Follows (some last) fs = All (λ g. last ≤ g.start) fs

abbrev pub is_dropped : Option Address → FunctionBounds → Bool
is_dropped last fn =
    leb fn.end fn.start || elim last [ none ↦ false | some back_end ↦ ltb fn.start back_end ]

pub separate_drop :
    (last : Option Address) (fn : FunctionBounds) (rest : List FunctionBounds)
    → is_dropped last fn ≡ true
    → separate last (fn ∷ rest) ≡ separate last rest
unfolding separate
separate_drop last fn rest e = rw (separate, e)

pub separate_keep :
    (last : Option Address) (fn : FunctionBounds) (rest : List FunctionBounds)
    → is_dropped last fn ≡ false
    → separate last (fn ∷ rest) ≡ fn ∷ separate (some fn.end) rest
unfolding separate
separate_keep last fn rest e = rw (separate, e)

All-later :
    (l e : ℕ) (fs : List FunctionBounds)
    → l ≤ e
    → All (λ g. e ≤ g.start) fs
    → All (λ g. l ≤ g.start) fs
All-later l e fs h =
    All-imply (λ (g : FunctionBounds). e ≤ g.start) (λ g. l ≤ g.start) fs (λ g p. omega arith)

-- What the last loop keeps is separate, and lies behind what it kept before.
separate-AreSeparate :
    (last : Option Address) (fs : List FunctionBounds)
    → AreSeparate (separate last fs) × Follows last (separate last fs)
separate-AreSeparate none [] = unfold separate in (tt, tt)
separate-AreSeparate (some l) [] = unfold separate in (tt, tt)
separate-AreSeparate last (fn ∷ rest) = elim (Bool-cases (is_dropped last fn)) [
  | inl e ↦ rw (separate_drop last fn rest e) (separate-AreSeparate last rest)
  | inr e ↦
      let (apart, behind) = separate-AreSeparate (some fn.end) rest in
      rw (separate_keep last fn rest e) (kept last fn _ e apart behind)
]
  where
    kept :
        (last : Option Address) (fn : FunctionBounds) (gs : List FunctionBounds)
        → is_dropped last fn ≡ false
        → AreSeparate gs
        → All (λ g. fn.end ≤ g.start) gs
        → AreSeparate (fn ∷ gs) × Follows last (fn ∷ gs)
    kept none fn gs e apart behind = ((ground arith, behind, apart), tt)
    kept (some l) fn gs e apart behind =
        ((ground arith, behind, apart), (ground arith, All-later l fn.end gs (ground arith) behind))

-- The last loop drops functions and adds none.
pub separate-In :
    (last : Option Address) (fs : List FunctionBounds) (f : FunctionBounds)
    → In f (separate last fs)
    → In f fs
separate-In last [] f m = unfold separate in m
separate-In last (fn ∷ rest) f m = elim (Bool-cases (is_dropped last fn)) [
  | inl e ↦ inr (separate-In last rest f (subst (In f) (separate_drop last fn rest e) m))
  | inr e ↦ elim (subst (In f) (separate_keep last fn rest e) m) [
    | inl here ↦ inl here
    | inr later ↦ inr (separate-In (some fn.end) rest f later)
  ]
]

-- It keeps every function of a list that is in order and apart.
pub separate_complete :
    (last : Option Address) (fs : List FunctionBounds)
    → AreSeparate fs
    → Follows last fs
    → separate last fs ≡ fs
separate_complete last [] a h = unfold separate in refl
separate_complete none (fn ∷ rest) (n, b, a) h =
    separate_keep none fn rest (ground arith)
    ∙ ap (λ gs. fn ∷ gs) (separate_complete (some fn.end) rest a b)
separate_complete (some l) (fn ∷ rest) (n, b, a) (h, hs) =
    separate_keep (some l) fn rest (ground arith)
    ∙ ap (λ gs. fn ∷ gs) (separate_complete (some fn.end) rest a b)

-- The functions that the analyzer returns are in ascending order, none is empty, and each ends
-- before the next begins: no two of them overlap, whatever the input and the decoder.
pub analyze-AreSeparate :
    (m : CodeMap) (decode : Decoder) (input : Input) (options : Options)
    → AreSeparate (analyze m decode input options)
unfolding analyze
analyze-AreSeparate m decode input options =
    (separate-AreSeparate none (sort bounds_before (all_emitted m decode input options))).0
