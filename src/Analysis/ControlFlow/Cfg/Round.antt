-- ===== src/Analysis/ControlFlow/Cfg/Round.antt =====
-- What one round of the loop of `build` does.
use fn_finder.Base.{
  ℕ, ◌≤◌, ◌≡◌, true, false, Option, none, some, arith, ltb, In, Bool-cases, max, inl, inr, ◌⊎◌, sym,
}
use fn_finder.Base.Words.{add64}
use fn_finder.Base.Sets
use fn_finder.Disasm.Instruction.{Decoder}
use fn_finder.Analysis.CodeMap.{CodeMap}
use fn_finder.Analysis.ControlFlow.Instructions.{
  DecodedInstruction, InstructionCache, end_address, is_hard_stop_word, cache_at,
}
use fn_finder.Analysis.ControlFlow.Instructions.Memo.{
  fetch, IsConsistent, cache_at-fetch, cache_at-IsConsistent,
}
use fn_finder.Analysis.ControlFlow.Cfg.{
  CfgBuildRequest, Walk, is_schedulable, follow, note_call, note_return, cover, visit, is_enterable,
}
use fn_finder.Analysis.ControlFlow.Cfg.Scheduling.{successors}

module _ (m : CodeMap) (decode : Decoder) (request : CfgBuildRequest) where
  open request use {entry, upper_bound}

  -- The walk may cover the instruction `i` at `a`: the word there is not zero, decoding gives `i`,
  -- and `i` ends inside the window.
  pub record IsWalkable (a : ℕ) (i : DecodedInstruction) : Type 0 where
    pub no_stop : is_hard_stop_word m a ≡ false
    pub fetched : fetch m decode a ≡ some i
    pub fits : add64 a i.size ≤ upper_bound

  -- The addresses that control flow reaches inside the window, from the entry on.
  pub data Reach : ℕ → Type 0 where
    enter : {a : ℕ} → a ≡ entry → is_enterable m request ≡ true → Reach a
    step :
        {a t : ℕ} (i : DecodedInstruction)
        → Reach a
        → IsWalkable a i
        → In t (successors request i i.flow)
        → is_schedulable m request t ≡ true
        → Reach t

  abbrev pub covered : Walk → DecodedInstruction → ℕ → Walk
  covered w i a = record w {
    visited = Sets.insert a w.visited;
    covered_end = max w.covered_end (end_address i);
    frontier = follow m request i i.flow w.frontier;
    reaches_return = note_return i.flow w.reaches_return;
    call_targets = note_call i i.flow w.call_targets;
  }

  -- A round passes over an address or covers the instruction there.
  pub data Outcome (w : Walk) (a : ℕ) : Walk → Type 0 where
    passed :
        (c : InstructionCache)
        → IsConsistent m decode c
        → (Sets.contains a w.visited ≡ true) ⊎ ((i : DecodedInstruction) → IsWalkable a i → ⊥)
        → Outcome w a (record w { cache = c })
    covers :
        (c : InstructionCache) (i : DecodedInstruction)
        → IsConsistent m decode c
        → IsWalkable a i
        → Outcome w a (covered (record w { cache = c }) i a)

  pub fetched_once :
      (a : ℕ) (i j : DecodedInstruction)
      → fetch m decode a ≡ some i
      → fetch m decode a ≡ some j
      → i ≡ j
  fetched_once a i j h k = ground arith

  cover-Outcome :
      (w : Walk) (a : ℕ) (c : InstructionCache) (o : Option DecodedInstruction)
      → IsConsistent m decode c
      → is_hard_stop_word m a ≡ false
      → o ≡ fetch m decode a
      → Outcome w a (cover m decode request (record w { cache = c }) a o)
  unfolding cover
  cover-Outcome w a c none k s e = passed c k (inr λ i h. let f = h.fetched in ground arith)
  cover-Outcome w a c (some i) k s e = elim (Bool-cases (ltb upper_bound (add64 a i.size))) [
    | inl long ↦ rw long (
        passed c k (
          inr λ j h.
            let f = h.fetched in
            let g = h.fits in let p = fetched_once a i j (sym e) f in ground arith))
    | inr short ↦
        rw short (covers c i k (record { no_stop = s; fetched = sym e; fits = ground arith }))
  ]

  pub visit-Outcome :
      (w : Walk) (a : ℕ) → IsConsistent m decode w.cache → Outcome w a (visit m decode request w a)
  unfolding visit
  visit-Outcome w a k = elim (Bool-cases (Sets.contains a w.visited)) [
    | inl old ↦ rw old (passed w.cache k (inl old))
    | inr new ↦ elim (Bool-cases (is_hard_stop_word m a)) [
      | inl stop ↦ rw (new, stop) (passed w.cache k (inr λ i h. let f = h.no_stop in ground arith))
      | inr go ↦
          rw (new, go)
            (cover-Outcome w a (cache_at m decode w.cache a).0 (cache_at m decode w.cache a).1
              (cache_at-IsConsistent m decode w.cache a k) go (cache_at-fetch m decode w.cache a k))
    ]
  ]
