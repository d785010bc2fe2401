-- ===== src/Analysis/ControlFlow/Cfg/Covering.antt =====
-- Covering an instruction keeps the invariant of the loop of `build`.
use fn_finder.Base.{
  ℕ, ◌≤◌, ◌≡◌, refl, Bool, true, arith, leb, In, Bool-cases, inl, inr, ◌⊎◌, sym, subst,
}
use fn_finder.Base.Sets
use fn_finder.Disasm.Instruction.{FlowType, Decoder}
use fn_finder.Analysis.CodeMap.{CodeMap}
use fn_finder.Analysis.ControlFlow.Instructions.{DecodedInstruction, InstructionCache, end_address}
use fn_finder.Analysis.ControlFlow.Instructions.Memo.{IsConsistent}
use fn_finder.Analysis.ControlFlow.Cfg.{CfgBuildRequest, Walk, is_schedulable, note_return}
use fn_finder.Analysis.ControlFlow.Cfg.Scheduling.{successors, Enqueues}
use fn_finder.Analysis.ControlFlow.Cfg.Round.{IsWalkable, step, covered, fetched_once}
use fn_finder.Analysis.ControlFlow.Cfg.Invariant.{
  Visits, Inv, Visits-covered, covered_self, covered_keeps, covered-Enqueues, Enqueues-covered,
  covered-queued, covered_queues,
}

note_return_lem :
    (flow : FlowType) (b : Bool) → note_return flow b ≡ true → (flow ≡ FlowType.return) ⊎ (b ≡ true)
unfolding note_return
note_return_lem FlowType.return b h = inl refl
note_return_lem _ b h = inr h

note_return_set : (b : Bool) → note_return FlowType.return b ≡ true
unfolding note_return
note_return_set b = refl

note_return_keeps : (flow : FlowType) (b : Bool) → b ≡ true → note_return flow b ≡ true
unfolding note_return
note_return_keeps FlowType.return b h = refl
note_return_keeps _ b h = h

module _ (m : CodeMap) (decode : Decoder) (request : CfgBuildRequest) where
  open request use {entry, upper_bound}

  abbrev Walkable : ℕ → DecodedInstruction → Type 0
  Walkable = IsWalkable m decode request

  abbrev Settled : Walk → ℕ → Type 0
  Settled w b =
      ⊥ ⊎ In b w.frontier.worklist ⊎ Visits w b ⊎ ((i : DecodedInstruction) → Walkable b i → ⊥)

  same : (a : ℕ) (i j : DecodedInstruction) → Walkable a i → Walkable a j → i ≡ j
  same a i j p q = fetched_once m decode request a i j p.fetched q.fetched

  module _ (w : Walk) (a : ℕ) (c : InstructionCache) (i : DecodedInstruction)
      (p : IsWalkable m decode request a i) (q : Enqueues w.frontier a)
      (h : Inv m decode request (λ b. b ≡ a) w) (k : IsConsistent m decode c) where
    abbrev w0 : Walk
    w0 = record w { cache = c }

    abbrev w' : Walk
    w' = covered m decode request w0 i a

    visits_new : (b : ℕ) → Visits w' b → (b ≡ a) ⊎ Visits w b
    visits_new b v = Visits-covered m decode request w0 i a b v

    kept_enqueued : (b : ℕ) → Enqueues w.frontier b → Enqueues w'.frontier b
    kept_enqueued b e = Enqueues-covered m decode request w0 i a b (inl e)

    Settled-covered : (b : ℕ) → Enqueues w'.frontier b → Settled w' b
    Settled-covered b e = elim (Bool-cases (Sets.contains b w.frontier.enqueued)) [
      | inl old ↦ elim (h.parse_arguments-IsSettled b old) [
        | inl here ↦
            inr (inr (inl (subst (Visits w') (sym here) (covered_self m decode request w0 i a))))
        | inr (inl queue) ↦ inr (inl (covered_queues m decode request w0 i a b (inl queue)))
        | inr (inr (inl v)) ↦ inr (inr (inl (covered_keeps m decode request w0 i a b v)))
        | inr (inr (inr n)) ↦ inr (inr (inr n))
      ]
      | inr new ↦ inr (inl (covered_queues m decode request w0 i a b (inr (e, new))))
    ]

    closed_covered :
        (b t : ℕ) (j : DecodedInstruction)
        → Visits w' b
        → Walkable b j
        → In t (successors request j j.flow)
        → is_schedulable m request t ≡ true
        → Enqueues w'.frontier t
    closed_covered b t j v r s u = elim (visits_new b v) [
      | inl e ↦
          let eq = same a j i (subst (λ x. Walkable x j) e r) p in
          Enqueues-covered m decode request w0 i a t
            (inr (subst (λ k. In t (successors request k k.flow)) eq s, u))
      | inr old ↦ kept_enqueued t (h.closed b t j old r s u)
    ]

    below_covered :
        (b : ℕ) (j : DecodedInstruction)
        → Visits w' b
        → Walkable b j
        → end_address j ≤ w'.covered_end
    below_covered b j v r = elim (visits_new b v) [
      | inl e ↦
          let eq = same a j i (subst (λ x. Walkable x j) e r) p in
          subst (λ k. end_address k ≤ w'.covered_end) (sym eq) (omega arith)
      | inr old ↦ omega (arith, h.below b j old r)
    ]

    reached_covered :
        (w'.covered_end ≡ entry)
        ⊎ ((b : ℕ) × (j : DecodedInstruction) × Visits w' b
            × Walkable b j
            × (w'.covered_end ≡ end_address j))
    reached_covered = elim (Bool-cases (leb w.covered_end (end_address i))) [
      | inl le ↦ inr (a, i, covered_self m decode request w0 i a, p, ground arith)
      | inr gt ↦ elim h.reached [
        | inl e ↦ inl (ground arith)
        | inr (b, j, v, r, e) ↦
            inr (b, j, covered_keeps m decode request w0 i a b v, r, ground arith)
      ]
    ]

    returns_covered :
        w'.reaches_return ≡ true
        → (b : ℕ) × (j : DecodedInstruction) × Visits w' b
          × Walkable b j
          × (j.flow ≡ FlowType.return)
    returns_covered e = elim (note_return_lem i.flow w.reaches_return e) [
      | inl r ↦ (a, i, covered_self m decode request w0 i a, p, r)
      | inr old ↦
          let (b, j, v, r, f) = h.returns old in
          (b, j, covered_keeps m decode request w0 i a b v, r, f)
    ]

    returning_covered :
        (b : ℕ) (j : DecodedInstruction)
        → Visits w' b
        → Walkable b j
        → j.flow ≡ FlowType.return
        → w'.reaches_return ≡ true
    returning_covered b j v r f = elim (visits_new b v) [
      | inl e ↦
          let eq = same a j i (subst (λ x. Walkable x j) e r) p in
          subst (λ (fl : FlowType). note_return fl w.reaches_return ≡ true)
            (sym (subst (λ k. k.flow ≡ FlowType.return) eq f)) (note_return_set w.reaches_return)
      | inr old ↦ note_return_keeps i.flow w.reaches_return (h.returning b j old r f)
    ]

    pub Inv-covered : Inv m decode request (λ b. ⊥) w'
    Inv-covered = record {
      consistent = k;
      walkable = λ b v. elim (visits_new b v) [
        | inl e ↦ (i, subst (λ x. Walkable x i) (sym e) p)
        | inr old ↦ h.walkable b old
      ];
      listed = λ b v. elim (visits_new b v) [
        | inl e ↦ kept_enqueued b (subst (Enqueues w.frontier) (sym e) q)
        | inr old ↦ kept_enqueued b (h.listed b old)
      ];
      queued = λ b n. elim (covered-queued m decode request w0 i a b n) [
        | inl old ↦ kept_enqueued b (h.queued b old)
        | inr new ↦ new
      ];
      parse_arguments-IsSettled = Settled-covered;
      sound = λ b e. elim (covered-Enqueues m decode request w0 i a b e) [
        | inl old ↦ h.sound b old
        | inr (s, u) ↦ step i (h.sound a q) p s u
      ];
      started = λ ok. kept_enqueued entry (h.started ok);
      closed = closed_covered;
      below = below_covered;
      start = omega (arith, h.start);
      reached = reached_covered;
      returns = returns_covered;
      returning = returning_covered;
    }
