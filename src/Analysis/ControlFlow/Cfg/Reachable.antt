-- ===== src/Analysis/ControlFlow/Cfg/Reachable.antt =====
-- The set that `build` covers is exactly what control flow reaches, and the extent is its end.
use mathlib.Core.Logic.{∥∥₁_elim}
use fn_finder.Base.{
  ℕ, ◌-◌, ◌%◌, ◌≤◌, ◌<◌, ◌≡◌, refl, true, false, List, [], ◌∷◌, some, arith, In, Bool-cases,
  Option-cases, inl, inr, ◌⊎◌, ◌↔◌, sym, subst,
}
use fn_finder.Base.Words.{instruction_size}
use fn_finder.Base.Sets
use fn_finder.Disasm.Instruction.{FlowType, Decoder, IsAarch64}
use fn_finder.Analysis.CodeMap
use fn_finder.Analysis.CodeMap.{CodeMap}
use fn_finder.Analysis.ControlFlow.Instructions.{
  DecodedInstruction, InstructionCache, end_address, decode_at, code_bytes,
}
use fn_finder.Analysis.ControlFlow.Instructions.Memo.{fetch, IsConsistent}
use fn_finder.Analysis.ControlFlow.Cfg.{
  CfgBuildRequest, Walk, is_boundary, visit, pop, is_enterable, initial_frontier, initial_walk,
  walk,
}
use fn_finder.Analysis.ControlFlow.Cfg.Scheduling.{Enqueues, is_schedulable_lem}
use fn_finder.Analysis.ControlFlow.Cfg.Termination.{walk_loop_rule, walk-IsFinished}
use fn_finder.Analysis.ControlFlow.Cfg.Round.{
  IsWalkable, Reach, enter, step, Outcome, passed, covers, visit-Outcome,
}
use fn_finder.Analysis.ControlFlow.Cfg.Invariant.{Visits, Inv, Inv-passed}
use fn_finder.Analysis.ControlFlow.Cfg.Covering.{Inv-covered}

module _ (m : CodeMap) (decode : Decoder) (request : CfgBuildRequest) where
  open request use {entry, upper_bound}

  abbrev Holds : Walk → Type 0
  Holds = Inv m decode request (λ b. ⊥)

  -- The invariant when `a` has left the worklist.
  Inv-pop :
      (w : Walk) (a : ℕ) (rest : List ℕ)
      → w.frontier.worklist ≡ a ∷ rest
      → Holds w
      → Inv m decode request (λ b. b ≡ a) (pop w rest)
  unfolding pop
  Inv-pop w a rest e h = record {
    consistent = h.consistent;
    walkable = h.walkable;
    listed = h.listed;
    queued = λ b n. h.queued b (subst (In b) (sym e) (inr n));
    parse_arguments-IsSettled = λ b q. elim (h.parse_arguments-IsSettled b q) [
      | inl never ↦ absurd never
      | inr (inl n) ↦ elim (subst (In b) e n) [ inl here ↦ inl here | inr later ↦ inr (inl later) ]
      | inr (inr r) ↦ inr (inr r)
    ];
    sound = h.sound;
    started = h.started;
    closed = h.closed;
    below = h.below;
    start = h.start;
    reached = h.reached;
    returns = h.returns;
    returning = h.returning;
  }

  Outcome-Inv :
      (w : Walk) (a : ℕ) (w' : Walk)
      → Enqueues w.frontier a
      → Inv m decode request (λ b. b ≡ a) w
      → Outcome m decode request w a w'
      → Holds w'
  Outcome-Inv w a w' q h (passed c k o) = Inv-passed m decode request w a c k o h
  Outcome-Inv w a w' q h (covers c i k p) = Inv-covered m decode request w a c i p q h k

  round-Inv :
      (w : Walk) (a : ℕ) (rest : List ℕ)
      → w.frontier.worklist ≡ a ∷ rest
      → Holds w
      → Holds (visit m decode request (pop w rest) a)
  round-Inv w a rest e h =
      let popped = Inv-pop w a rest e h in
      Outcome-Inv (pop w rest) a _ (unfold pop in h.queued a (subst (In a) (sym e) (inl refl)))
        popped (visit-Outcome m decode request (pop w rest) a popped.consistent)

  initial-Inv :
      (cache : InstructionCache)
      → IsConsistent m decode cache
      → Holds (initial_walk m decode request cache)
  unfolding initial_walk initial_frontier Sets.contains
  initial-Inv cache k = elim (Bool-cases (is_enterable m request)) [
    | inl ok ↦ rw ok (record {
      consistent = k;
      walkable = λ a v. cc;
      listed = λ a v. cc;
      queued = λ a n. ground arith;
      parse_arguments-IsSettled = λ a q. ground arith;
      sound = λ a q. enter (ground arith) ok;
      started = λ _. ground arith;
      closed = λ a t i v p s u. cc;
      below = λ a i v p. cc;
      start = omega arith;
      reached = inl refl;
      returns = λ e. cc;
      returning = λ a i v p e. cc;
    })
    | inr bad ↦ rw bad (record {
      consistent = k;
      walkable = λ a v. cc;
      listed = λ a v. cc;
      queued = λ a n. elim n [ ];
      parse_arguments-IsSettled = λ a q. cc;
      sound = λ a q. cc;
      started = λ ok. cc;
      closed = λ a t i v p s u. cc;
      below = λ a i v p. cc;
      start = omega arith;
      reached = inl refl;
      returns = λ e. cc;
      returning = λ a i v p e. cc;
    })
  ]

  flag-Inv : (w : Walk) → Holds w → Holds (record w { truncated = true })
  flag-Inv w h = record {
    consistent = h.consistent;
    walkable = h.walkable;
    listed = h.listed;
    queued = h.queued;
    parse_arguments-IsSettled = h.parse_arguments-IsSettled;
    sound = h.sound;
    started = h.started;
    closed = h.closed;
    below = h.below;
    start = h.start;
    reached = h.reached;
    returns = h.returns;
    returning = h.returning;
  }

  pub walk-Inv :
      (cache : InstructionCache)
      → IsConsistent m decode cache
      → Inv m decode request (λ b. ⊥) (walk m decode request cache)
  unfolding walk
  walk-Inv cache k =
      walk_loop_rule m decode request Holds round-Inv flag-Inv (upper_bound - entry) _
        (initial-Inv cache k)

  Reach-Enqueues :
      (w : Walk) (a : ℕ)
      → Holds w
      → w.frontier.worklist ≡ []
      → Reach m decode request a
      → Enqueues w.frontier a
  Reach-Enqueues w a h e (enter p ok) = subst (Enqueues w.frontier) (sym p) (h.started ok)
  Reach-Enqueues w t h e (step {a} i r p n u) =
      elim (h.parse_arguments-IsSettled a (Reach-Enqueues w a h e r)) [
        | inl never ↦ absurd never
        | inr (inl queue) ↦ elim (subst (In a) e queue) [ ]
        | inr (inr (inl v)) ↦ h.closed a t i v p n u
        | inr (inr (inr never)) ↦ absurd (never i p)
      ]

  -- A walk that did not hit the cap on instructions covers an address exactly if control flow
  -- reaches it from the entry inside the window and the instruction there may be covered.
  pub walk-covers :
      (cache : InstructionCache) (a : ℕ)
      → IsConsistent m decode cache
      → (walk m decode request cache).truncated ≡ false
      → Visits (walk m decode request cache) a
        ↔ (Reach m decode request a × ((i : DecodedInstruction) × IsWalkable m decode request a i))
  walk-covers cache a k t =
      let w = walk m decode request cache in
      let h = walk-Inv cache k in
      let empty : w.frontier.worklist ≡ [] = elim (walk-IsFinished m decode request cache) [
        | inl e ↦ e
        | inr capped ↦ cc
      ] in
      (
        λ v. (h.sound a (h.listed a v), h.walkable a v),
        λ (r, (i, p)). elim (h.parse_arguments-IsSettled a (Reach-Enqueues w a h empty r)) [
          | inl never ↦ absurd never
          | inr (inl queue) ↦ elim (subst (In a) empty queue) [ ]
          | inr (inr (inl v)) ↦ v
          | inr (inr (inr never)) ↦ absurd (never i p)
        ],
      )

  -- What a reached address satisfies: it is aligned, executable code of the window, and another
  -- function's boundary only if it is the entry.
  pub record IsInside (a : ℕ) : Type 0 where
    pub from : entry ≤ a
    pub below : a < upper_bound
    pub aligned : a % instruction_size ≡ 0
    pub executable : CodeMap.contains m a ≡ true
    pub owned : (a ≡ entry) ⊎ (is_boundary request.boundaries a ≡ false)

  Reach-IsInside : (a : ℕ) → Reach m decode request a → IsInside a
  Reach-IsInside a (enter p ok) = unfold is_enterable in subst IsInside (sym p) (ground arith)
  Reach-IsInside a (step i r p n u) =
      let f = is_schedulable_lem m request a u in
      record { from = f.0; below = f.1; aligned = f.2; executable = f.3; owned = inr f.4 }

  -- Every instruction that `build` covers lies in the window from the entry to the upper bound, is
  -- aligned and executable, and is no boundary of another function.
  pub walk-IsInside :
      (cache : InstructionCache) (a : ℕ)
      → IsConsistent m decode cache
      → Visits (walk m decode request cache) a
      → IsInside a
  walk-IsInside cache a k v =
      let h = walk-Inv cache k in Reach-IsInside a (h.sound a (h.listed a v))

  -- The extent's end is the entry or the end of a covered instruction, and no covered instruction
  -- ends behind it.
  pub walk_extent :
      (cache : InstructionCache)
      → IsConsistent m decode cache
      → (((walk m decode request cache).covered_end ≡ entry)
          ⊎ ((a : ℕ) × (i : DecodedInstruction) × Visits (walk m decode request cache) a
              × IsWalkable m decode request a i
              × ((walk m decode request cache).covered_end ≡ end_address i)))
        × ((a : ℕ) (i : DecodedInstruction)
            → Visits (walk m decode request cache) a
            → IsWalkable m decode request a i
            → end_address i ≤ (walk m decode request cache).covered_end)
  walk_extent cache k = let h = walk-Inv cache k in (h.reached, h.below)

  -- `reachesReturn` tells exactly whether a covered instruction is a return.
  pub walk_returns :
      (cache : InstructionCache)
      → IsConsistent m decode cache
      → ((walk m decode request cache).reaches_return ≡ true)
        ↔ ∥ (
            (a : ℕ) × (i : DecodedInstruction) × Visits (walk m decode request cache) a
            × IsWalkable m decode request a i
            × (i.flow ≡ FlowType.return)) ∥₁
  walk_returns cache k =
      let h = walk-Inv cache k in
      (λ e. ∣ h.returns e ∣₁, λ t. ∥∥₁_elim t (hlevel) (λ (a, i, v, p, f). h.returning a i v p f))

  fetch-IsAarch64 :
      (a : ℕ) (i : DecodedInstruction)
      → IsAarch64 decode
      → fetch m decode a ≡ some i
      → (i.address ≡ a) × (i.size ≡ instruction_size)
  unfolding fetch decode_at
  fetch-IsAarch64 a i h e = elim (Option-cases (CodeMap.at m a)) [
    | inl miss ↦ absurd (ground arith)
    | inr (span, hit) ↦ elim (Option-cases (decode (code_bytes m span) span.available a)) [
      | inl bad ↦ absurd (ground arith)
      | inr (x, good) ↦
          let p = h.located (code_bytes m span) span.available a x good in
          let q = h.fixed (code_bytes m span) span.available a x good in ground arith
    ]
  ]

  -- With an AArch64 decoder the extent lies in the window.
  pub walk_bounds :
      (cache : InstructionCache)
      → IsConsistent m decode cache
      → IsAarch64 decode
      → entry ≤ upper_bound
      → (entry ≤ (walk m decode request cache).covered_end)
        × ((walk m decode request cache).covered_end ≤ upper_bound)
  walk_bounds cache k d b =
      let h = walk-Inv cache k in
      elim h.reached [
        | inl e ↦ omega (arith, h.start)
        | inr (a, i, v, p, e) ↦
            let (at, _) = fetch-IsAarch64 a i d p.fetched in
            let fits = p.fits in (h.start, rw (e, at) fits)
      ]
