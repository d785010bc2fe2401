-- ===== src/Analysis/ControlFlow/Cfg/Termination.antt =====
-- The loop of `build` ends: every address of the window is queued at most once.
use fn_finder.Base.{
  ℕ, zero, suc, ◌+◌, ◌-◌, ◌≤◌, ◌<◌, ◌≡◌, refl, Bool, true, false, ◌||◌, List, [], ◌∷◌, arith, ltb,
  leb, length, All, All-imply, Bool-cases, Option-cases, List-cases, inl, inr, ◌⊎◌, ap, sym, subst,
}
use fn_finder.Base.Words.{add64}
use fn_finder.Base.Sets
use fn_finder.Base.Sets.{IsAscending}
use fn_finder.Disasm.Instruction.{Decoder}
use fn_finder.Analysis.CodeMap.{CodeMap}
use fn_finder.Analysis.ControlFlow.Instructions.{InstructionCache, is_hard_stop_word, cache_at}
use fn_finder.Analysis.ControlFlow.Cfg.{
  CfgBuildRequest, Walk, cover, visit, pop, walk_loop, is_enterable, initial_frontier, initial_walk,
  walk,
}
use fn_finder.Analysis.ControlFlow.Cfg.Scheduling.{
  successors, schedule_all, follow-schedule_all, IsInWindow, IsFrontier, schedule_all-IsFrontier,
  schedule_all_balance,
}

-- The loop ended by its own test, or by the cap on the instructions.
abbrev pub IsFinished : Walk → Type 0
IsFinished w = (w.frontier.worklist ≡ []) ⊎ (w.truncated ≡ true)

module _ (m : CodeMap) (decode : Decoder) (request : CfgBuildRequest) where
  open request use {entry, upper_bound}

  abbrev is_capped : Walk → Bool
  is_capped w = leb request.max_instructions (length w.visited)

  abbrev round : Walk → ℕ → List ℕ → Walk
  round w a rest = visit m decode request (pop w rest) a

  -- The loop's equations: at its end, at the cap, and for a round.
  walk_loop_done :
      (fuel : ℕ) (w : Walk) → w.frontier.worklist ≡ [] → walk_loop m decode request fuel w ≡ w
  unfolding walk_loop
  walk_loop_done zero w e = refl
  walk_loop_done (suc fuel) w e = ground arith

  walk_loop_capped :
      (fuel : ℕ) (w : Walk) (a : ℕ) (rest : List ℕ)
      → w.frontier.worklist ≡ a ∷ rest
      → is_capped w ≡ true
      → walk_loop m decode request (suc fuel) w ≡ record w { truncated = true }
  unfolding walk_loop
  walk_loop_capped fuel w a rest e full = ground arith

  walk_loop-round :
      (fuel : ℕ) (w : Walk) (a : ℕ) (rest : List ℕ)
      → w.frontier.worklist ≡ a ∷ rest
      → is_capped w ≡ false
      → walk_loop m decode request (suc fuel) w ≡ walk_loop m decode request fuel (round w a rest)
  unfolding walk_loop
  walk_loop-round fuel w a rest e more = ground arith

  -- A rule for the loop: what a round and the cap's flag keep holds at the end.
  pub walk_loop_rule :
      (P : Walk → Type 0)
      → ((w : Walk) (a : ℕ) (rest : List ℕ)
          → w.frontier.worklist ≡ a ∷ rest
          → P w
          → P (round w a rest))
      → ((w : Walk) → P w → P (record w { truncated = true }))
      → (fuel : ℕ) (w : Walk) → P w
      → P (walk_loop m decode request fuel w)
  walk_loop_rule P keep flag zero w p = unfold walk_loop in p
  walk_loop_rule P keep flag (suc fuel) w p = elim (List-cases w.frontier.worklist) [
    | inl e ↦ subst P (sym (walk_loop_done (suc fuel) w e)) p
    | inr (a, rest, e) ↦ elim (Bool-cases (is_capped w)) [
      | inl full ↦ subst P (sym (walk_loop_capped fuel w a rest e full)) (flag w p)
      | inr more ↦
          subst P (sym (walk_loop-round fuel w a rest e more))
            (walk_loop_rule P keep flag fuel (round w a rest) (keep w a rest e p))
    ]
  ]

  -- A round leaves the frontier, or schedules the successors of an instruction.
  pub visit-frontier :
      (w : Walk) (a : ℕ)
      → (ts : List ℕ) × ((visit m decode request w a).frontier
          ≡ schedule_all m request w.frontier ts)
  unfolding visit cover
  visit-frontier w a = elim (Bool-cases (Sets.contains a w.visited || is_hard_stop_word m a)) [
    | inl e ↦ ([], unfold schedule_all in rw e)
    | inr e ↦ elim (Option-cases (cache_at m decode w.cache a).1) [
      | inl f ↦ ([], unfold schedule_all in rw (e, f))
      | inr (i, f) ↦ elim (Bool-cases (ltb upper_bound (add64 a i.size))) [
        | inl g ↦ ([], unfold schedule_all in rw (e, f, g))
        | inr g ↦ (
          successors request i i.flow,
          rw (e, f, g) (follow-schedule_all m request i i.flow w.frontier),
        )
      ]
    ]
  ]

  enqueued-le-window :
      (xs : List ℕ)
      → IsAscending xs
      → All (IsInWindow m request) xs
      → length xs ≤ upper_bound - entry
  enqueued-le-window [] h k = omega arith
  enqueued-le-window (x ∷ xs) h (k, ks) = omega (
    arith,
    Sets.length-ascending-le entry upper_bound (x ∷ xs) (omega arith) h
        (All-imply (IsInWindow m request) (λ y. entry ≤ y) (x ∷ xs) (λ y p. p.0) (k, ks))
        (All-imply (IsInWindow m request) (λ y. y < upper_bound) (x ∷ xs) (λ y p. p.1) (k, ks)),
  )

  -- A round keeps the frontier's shape, and takes one address from the worklist.
  round-IsFrontier :
      (w : Walk) (a : ℕ) (rest : List ℕ)
      → IsFrontier m request w.frontier
      → IsFrontier m request (round w a rest).frontier
        × (length (round w a rest).frontier.enqueued + length rest
            ≡ length w.frontier.enqueued + length (round w a rest).frontier.worklist)
  round-IsFrontier w a rest h =
      let f = (pop w rest).frontier in
      let shape : IsFrontier m request f =
        unfold pop in record { ascending = h.ascending; window = h.window } in
      let (ts, e) = visit-frontier (pop w rest) a in
      rw e (
        schedule_all-IsFrontier m request f ts shape,
        unfold pop in schedule_all_balance m request f ts shape,
      )

  -- The fuel covers all that can still come.
  pub walk_loop-IsFinished :
      (fuel : ℕ) (w : Walk)
      → IsFrontier m request w.frontier
      → upper_bound - entry + length w.frontier.worklist ≤ length w.frontier.enqueued + fuel
      → IsFinished (walk_loop m decode request fuel w)
  walk_loop-IsFinished zero w h b = elim (List-cases w.frontier.worklist) [
    | inl e ↦ unfold walk_loop in inl e
    | inr (a, rest, e) ↦
        absurd
          (omega (arith, ap length e, enqueued-le-window w.frontier.enqueued h.ascending h.window))
  ]
  walk_loop-IsFinished (suc fuel) w h b = elim (List-cases w.frontier.worklist) [
    | inl e ↦ subst IsFinished (sym (walk_loop_done (suc fuel) w e)) (inl e)
    | inr (a, rest, e) ↦ elim (Bool-cases (is_capped w)) [
      | inl full ↦ subst IsFinished (sym (walk_loop_capped fuel w a rest e full)) (inr refl)
      | inr more ↦
          let (shape, balance) = round-IsFrontier w a rest h in
          subst IsFinished (sym (walk_loop-round fuel w a rest e more))
            (walk_loop-IsFinished fuel (round w a rest) shape (omega (arith, ap length e)))
    ]
  ]

  pub initial_frontier-IsFrontier : IsFrontier m request (initial_frontier m request)
  unfolding initial_frontier is_enterable
  initial_frontier-IsFrontier = ground arith

  -- The loop of `build` ends by its own test or at the cap on instructions: the rounds that the
  -- model gives it, one for each address of the window, are enough.
  pub walk-IsFinished : (cache : InstructionCache) → IsFinished (walk m decode request cache)
  unfolding walk initial_walk
  walk-IsFinished cache =
      walk_loop-IsFinished (upper_bound - entry) _ initial_frontier-IsFrontier
        (unfold initial_frontier is_enterable in ground arith)
