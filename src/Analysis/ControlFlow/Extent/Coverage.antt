-- ===== src/Analysis/ControlFlow/Extent/Coverage.antt =====
-- The loop over the candidates: no usable entry is lost, and no function leaves its region.
use fn_finder.Base.{
  ℕ, ◌+◌, ◌≤◌, ◌<◌, ◌≡◌, refl, Bool, true, false, List, [], ◌∷◌, ◌++◌, arith, ltb, leb, ◌==◌, All,
  All-imply, All-append, All-map, All-filter_self, In-filter, In-map, In-append_left,
  In-append_right, Bool-cases, inl, inr, In, ◌⊎◌, subst, sym, max, filter, map, All-In,
}
use fn_finder.Base.Words.{Address, invalid_address, u64_mod}
use fn_finder.Base.Sort.{All-sort, In-sort, sort-IsSorted, IsSorted}
use fn_finder.Disasm.Instruction.{Decoder}
use fn_finder.Analysis.CodeMap.{CodeMap, CodeRegion}
use fn_finder.Analysis.ControlFlow.Instructions.{InstructionCache}
use fn_finder.Analysis.ControlFlow.Extent.{
  FunctionBounds, Options, Input, Candidate, Progress, is_usable, region_end_for, candidate_before,
  candidates, usable_candidates, as_candidate, emit, consider, consider_all, referenced,
}
use fn_finder.Analysis.ControlFlow.Extent.Separation.{AreSeparate}
use fn_finder.Analysis.ControlFlow.Extent.Gaps.{HasRoom, two_words}
use fn_finder.Analysis.ControlFlow.Extent.Referenced.{
  usable-region, region_end_for-region, candidate_end_bounds,
}

-- Some function of the list covers the address.
abbrev pub Covers : List FunctionBounds → Address → Type 0
Covers fs a = (f : FunctionBounds) × In f fs × (f.start ≤ a) × (a < f.end)

AreSeparate-append :
    (fs : List FunctionBounds) (g : FunctionBounds)
    → AreSeparate fs
    → All (λ f. f.end ≤ g.start) fs
    → g.start < g.end
    → AreSeparate (fs ++ g ∷ [])
AreSeparate-append [] g a h n = (n, tt, tt)
AreSeparate-append (f ∷ fs) g (p, b, a) (h, hs) n =
    (p, All-append (λ k. f.end ≤ k.start) fs (g ∷ []) b (h, tt), AreSeparate-append fs g a hs n)

module _ (m : CodeMap) where
  -- A function that starts at a usable address, is not empty, and ends in its region.
  pub record IsPlaced (f : FunctionBounds) : Type 0 where
    pub usable : is_usable m f.start ≡ true
    pub filled : f.start < f.end
    pub bounded : f.end ≤ region_end_for m f.start

  pub record Tracks (p : Progress) : Type 0 where
    pub apart : AreSeparate p.emitted
    pub placed : All IsPlaced p.emitted
    pub ends : All (λ f. f.end ≤ p.cover_end) p.emitted
    pub cover : (p.cover_end ≡ 0) ⊎ ((f : FunctionBounds) × In f p.emitted × (p.cover_end ≡ f.end))
    pub last : (p.last_addr ≡ invalid_address) ⊎ Covers p.emitted p.last_addr

  -- The functions so far start at or before the address.
  abbrev pub Before : Progress → Address → Type 0
  Before p a = All (λ f. f.start ≤ a) p.emitted

  -- What a round achieves for the candidate's address.
  pub record Done (p p' : Progress) (a : ℕ) : Type 0 where
    pub tracks : Tracks p'
    pub before : Before p' a
    pub covers : Covers p'.emitted a
    pub keeps : (b : ℕ) → Covers p.emitted b → Covers p'.emitted b

  Done-skip :
      (p : Progress) (p' : Progress) (a : ℕ)
      → p'.emitted ≡ p.emitted
      → p'.cover_end ≡ p.cover_end
      → p'.last_addr ≡ a
      → Tracks p
      → Before p a
      → Covers p.emitted a
      → Done p p' a
  Done-skip p p' a e c l t b k = record {
    tracks = record {
      apart = subst AreSeparate (sym e) t.apart;
      placed = subst (All IsPlaced) (sym e) t.placed;
      ends = rw (e, c) t.ends;
      cover = rw (e, c) t.cover;
      last = rw (e, l) (inr k);
    };
    before = rw e b;
    covers = rw e k;
    keeps = λ b' q. rw e q;
  }

  module _ (p : Progress) (a end : ℕ) (cache : InstructionCache) (t : Tracks p) (b : Before p a)
      (u : is_usable m a ≡ true) (c : p.cover_end ≤ a) (s : a < end)
      (r : end ≤ region_end_for m a) where
    abbrev new_function : FunctionBounds
    new_function = record { start = a; end = end }

    abbrev grown : Progress
    grown = record {
      cache = cache;
      emitted = p.emitted ++ new_function ∷ [];
      cover_end = max p.cover_end end;
      last_addr = a;
      suppressed = p.suppressed;
    }

    new_in : In new_function grown.emitted
    new_in = In-append_right new_function p.emitted (new_function ∷ []) (inl refl)

    Done-grown : Done p grown a
    Done-grown = record {
      tracks = record {
        apart =
            AreSeparate-append p.emitted new_function t.apart
              (All-imply (λ f. f.end ≤ p.cover_end) (λ f. f.end ≤ a) p.emitted (λ f h. omega arith)
                t.ends)
              s;
        placed =
            All-append IsPlaced p.emitted (new_function ∷ []) t.placed
              (record { usable = u; filled = s; bounded = r }, tt);
        ends =
            All-append (λ f. f.end ≤ max p.cover_end end) p.emitted (new_function ∷ [])
              (All-imply (λ f. f.end ≤ p.cover_end) (λ f. f.end ≤ max p.cover_end end) p.emitted
                (λ f h. omega arith) t.ends)
              (omega arith, tt);
        cover = inr (new_function, new_in, omega arith);
        last = inr (new_function, new_in, omega arith, s);
      };
      before = All-append (λ f. f.start ≤ a) p.emitted (new_function ∷ []) b (omega arith, tt);
      covers = (new_function, new_in, omega arith, s);
      keeps = λ x (f, i, l, h). (f, In-append_left f p.emitted (new_function ∷ []) i, l, h);
    }

    Done-emit : Done p (emit (record p { last_addr = a }) a (end, cache)) a
    unfolding emit
    Done-emit = elim (Bool-cases (leb end a)) [
      | inl bad ↦ absurd (ground arith)
      | inr good ↦ rw good Done-grown
    ]

  -- An address behind the start of all functions and below `cover_end` is covered.
  covered_below :
      (p : Progress) (a : ℕ) → Tracks p → Before p a → a < p.cover_end → Covers p.emitted a
  covered_below p a t b h = elim t.cover [
    | inl e ↦ absurd (omega arith)
    | inr (f, i, e) ↦ (f, i, All-In (λ f. f.start ≤ a) p.emitted f b i, omega arith)
  ]

abbrev candidate_addr : Candidate → ℕ
candidate_addr c = c.addr

candidate_before-le : (a b : Candidate) → candidate_before a b ≡ true → a.addr ≤ b.addr
candidate_before-le a b h = ground arith

candidate_before-ge : (a b : Candidate) → candidate_before a b ≡ false → b.addr ≤ a.addr
candidate_before-ge a b h = ground arith

abbrev AreInOrder : List Candidate → Type 0
AreInOrder = IsSorted candidate_addr candidate_before candidate_before-le candidate_before-ge

Before-later :
    (m : CodeMap) (p : Progress) (a : ℕ) (cs : List Candidate)
    → Before m p a
    → All (λ c. a ≤ c.addr) cs
    → All (λ c. Before m p c.addr) cs
Before-later m p a cs b =
    All-imply (λ c. a ≤ c.addr) (λ c. Before m p c.addr) cs
      (λ c h. All-imply (λ f. f.start ≤ a) (λ f. f.start ≤ c.addr) p.emitted (λ f k. omega arith) b)

module _ (m : CodeMap) (decode : Decoder) (input : Input) (options : Options)
    (room : HasRoom m) where
  consider-Done :
      (p : Progress) (c : Candidate)
      → Tracks m p
      → Before m p c.addr
      → is_usable m c.addr ≡ true
      → Done m p (consider m decode input options p c) c.addr
  unfolding consider
  consider-Done p c t b u =
      let (aligned, (r, e, l, h, i)) = usable-region m c.addr u in
      let high = All-In (λ (r : CodeRegion). r.end + two_words < u64_mod) m.regions r room i in
      let r_end = region_end_for-region m c.addr r e in
      elim (Bool-cases (c.addr == p.last_addr)) [
        | inl same ↦ rw same (
            Done-skip m p p c.addr refl refl (ground arith) t b (elim t.last [
              | inl never ↦ absurd (ground arith)
              | inr k ↦ subst (Covers p.emitted) (ground arith) k
            ]))
        | inr fresh ↦ elim (Bool-cases (ltb c.addr p.cover_end)) [
          | inl inner ↦
              rw (fresh, inner)
                (Done-skip m p _ c.addr refl refl refl t b
                  (covered_below m p c.addr t b (ground arith)))
          | inr outer ↦ elim (Bool-cases (leb (region_end_for m c.addr) c.addr)) [
            | inl bad ↦ absurd (ground arith)
            | inr good ↦
                let (lower, upper) =
                  candidate_end_bounds m decode input options p.cache c (omega arith) (omega arith)
                    (omega arith) in
                rw (fresh, outer, good) (Done-emit m p c.addr _ _ t b u (ground arith) lower upper)
          ]
        ]
      ]

  -- What the whole loop achieves for candidates in ascending order.
  record AllDone (p p' : Progress) (cs : List Candidate) : Type 0 where
    tracks : Tracks m p'
    covers : (c : Candidate) → In c cs → Covers p'.emitted c.addr
    keeps : (b : ℕ) → Covers p.emitted b → Covers p'.emitted b

  consider_all-AllDone :
      (p : Progress) (cs : List Candidate)
      → Tracks m p
      → AreInOrder cs
      → All (λ c. Before m p c.addr) cs
      → All (λ c. is_usable m c.addr ≡ true) cs
      → AllDone p (consider_all m decode input options p cs) cs
  unfolding consider_all
  consider_all-AllDone p [] t s b u = record {
    tracks = t;
    covers = λ c i. elim i [ ];
    keeps = λ a k. k;
  }
  consider_all-AllDone p (c ∷ cs) t (l, s) (b, bs) (u, us) =
      let d = consider-Done p c t b u in
      let p' = consider m decode input options p c in
      let rest =
        consider_all-AllDone p' cs d.tracks s (Before-later m p' c.addr cs d.before l) us in
      record {
        tracks = rest.tracks;
        covers = λ x i. elim i [
          | inl e ↦
              rest.keeps x.addr
                (subst (λ (y : Candidate). Covers p'.emitted y.addr) (sym e) d.covers)
          | inr later ↦ rest.covers x later
        ];
        keeps = λ a k. rest.keeps a (d.keeps a k);
      }

  candidates-usable : All (λ c. is_usable m c.addr ≡ true) (candidates m input)
  unfolding candidates usable_candidates
  candidates-usable =
      let strong = filter (is_usable m) input.strong_entries in
      let soft = filter (is_usable m) input.soft_entries in
      let P = λ (c : Candidate). is_usable m c.addr ≡ true in
      All-sort candidate_before P (usable_candidates m input) (
        All-append P (map (as_candidate true) strong) (map (as_candidate false) soft)
          (All-map P (as_candidate true) strong
            (All-filter_self (is_usable m) input.strong_entries))
          (All-map P (as_candidate false) soft (All-filter_self (is_usable m) input.soft_entries)))

  candidates-AreInOrder : AreInOrder (candidates m input)
  unfolding candidates
  candidates-AreInOrder =
      sort-IsSorted candidate_addr candidate_before candidate_before-le candidate_before-ge
        (usable_candidates m input)

  listed :
      (a : ℕ)
      → In a input.strong_entries ⊎ In a input.soft_entries
      → is_usable m a ≡ true
      → (strong : Bool) × In (as_candidate strong a) (candidates m input)
  unfolding candidates usable_candidates
  listed a h u =
      let strong = map (as_candidate true) (filter (is_usable m) input.strong_entries) in
      let soft = map (as_candidate false) (filter (is_usable m) input.soft_entries) in
      elim h [
        | inl i ↦ (
          true,
          (In-sort candidate_before (as_candidate true a) (usable_candidates m input)).1 (
              In-append_left (as_candidate true a) strong soft (
                In-map (as_candidate true) (filter (is_usable m) input.strong_entries) a
                  (In-filter (is_usable m) input.strong_entries a i u))),
        )
        | inr i ↦ (
          false,
          (In-sort candidate_before (as_candidate false a) (usable_candidates m input)).1 (
              In-append_right (as_candidate false a) strong soft (
                In-map (as_candidate false) (filter (is_usable m) input.soft_entries) a
                  (In-filter (is_usable m) input.soft_entries a i u))),
        )
      ]

  start-Before : (cs : List Candidate) → All (λ (c : Candidate). Unit {0}) cs
  start-Before [] = tt
  start-Before (c ∷ cs) = (tt, start-Before cs)

  referenced-AllDone :
      (p : Progress) × AllDone p (referenced m decode input options) (candidates m input)
  unfolding referenced
  referenced-AllDone = (
    _,
    consider_all-AllDone _ (candidates m input)
        (record { apart = tt; placed = tt; ends = tt; cover = inl refl; last = inl refl })
        candidates-AreInOrder (start-Before (candidates m input)) candidates-usable,
  )

  -- Where the regions end two words below the top of the address space, the functions of the loop are
  -- in order and apart; each starts at an aligned address of the code and ends in its region; and
  -- every such address among the strong and the soft entries lies in one of them.
  pub referenced-Covers :
      Tracks m (referenced m decode input options)
      × ((a : ℕ)
          → In a input.strong_entries ⊎ In a input.soft_entries
          → is_usable m a ≡ true
          → Covers (referenced m decode input options).emitted a)
  referenced-Covers =
      let (p, d) = referenced-AllDone in
      (d.tracks, λ a h u. let (strong, i) = listed a h u in d.covers (as_candidate strong a) i)
