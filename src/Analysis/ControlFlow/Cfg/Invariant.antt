-- ===== src/Analysis/ControlFlow/Cfg/Invariant.antt =====
-- The invariant of the loop of `build`, and what covering an instruction adds.
use fn_finder.Base.{ℕ, ◌≤◌, ◌≡◌, true, false, arith, In, inl, inr, ◌⊎◌, sym, subst}
use fn_finder.Base.Sets
use fn_finder.Disasm.Instruction.{FlowType, Decoder}
use fn_finder.Analysis.CodeMap.{CodeMap}
use fn_finder.Analysis.ControlFlow.Instructions.{DecodedInstruction, InstructionCache, end_address}
use fn_finder.Analysis.ControlFlow.Instructions.Memo.{IsConsistent}
use fn_finder.Analysis.ControlFlow.Cfg.{CfgBuildRequest, Walk, is_schedulable, is_enterable}
use fn_finder.Analysis.ControlFlow.Cfg.Scheduling.{
  successors, follow-schedule_all, schedule_all-Enqueues, schedule_all-queued, Enqueues,
}
use fn_finder.Analysis.ControlFlow.Cfg.Round.{IsWalkable, Reach, covered}

abbrev pub Visits : Walk → ℕ → Type 0
Visits w a = Sets.contains a w.visited ≡ true

module _ (m : CodeMap) (decode : Decoder) (request : CfgBuildRequest) where
  open request use {entry, upper_bound}

  -- The invariant, with the addresses `extra` that left the worklist and are still to be looked at.
  pub record Inv (extra : ℕ → Type 0) (w : Walk) : Type 0 where
    pub consistent : IsConsistent m decode w.cache
    pub walkable : (a : ℕ) → Visits w a → (i : DecodedInstruction) × IsWalkable m decode request a i
    pub listed : (a : ℕ) → Visits w a → Enqueues w.frontier a
    pub queued : (a : ℕ) → In a w.frontier.worklist → Enqueues w.frontier a
    pub parse_arguments-IsSettled :
        (a : ℕ)
        → Enqueues w.frontier a
        → extra a
          ⊎ In a w.frontier.worklist
          ⊎ Visits w a
          ⊎ ((i : DecodedInstruction) → IsWalkable m decode request a i → ⊥)
    pub sound : (a : ℕ) → Enqueues w.frontier a → Reach m decode request a
    pub started : is_enterable m request ≡ true → Enqueues w.frontier entry
    pub closed :
        (a t : ℕ) (i : DecodedInstruction)
        → Visits w a
        → IsWalkable m decode request a i
        → In t (successors request i i.flow)
        → is_schedulable m request t ≡ true
        → Enqueues w.frontier t
    pub below :
        (a : ℕ) (i : DecodedInstruction)
        → Visits w a
        → IsWalkable m decode request a i
        → end_address i ≤ w.covered_end
    pub start : entry ≤ w.covered_end
    pub reached :
        (w.covered_end ≡ entry)
        ⊎ ((a : ℕ) × (i : DecodedInstruction) × Visits w a
            × IsWalkable m decode request a i
            × (w.covered_end ≡ end_address i))
    pub returns :
        w.reaches_return ≡ true
        → (a : ℕ) × (i : DecodedInstruction) × Visits w a
          × IsWalkable m decode request a i
          × (i.flow ≡ FlowType.return)
    pub returning :
        (a : ℕ) (i : DecodedInstruction)
        → Visits w a
        → IsWalkable m decode request a i
        → i.flow ≡ FlowType.return
        → w.reaches_return ≡ true

  pub Inv-passed :
      (w : Walk) (a : ℕ) (c : InstructionCache)
      → IsConsistent m decode c
      → (Sets.contains a w.visited ≡ true)
        ⊎ ((i : DecodedInstruction) → IsWalkable m decode request a i → ⊥)
      → Inv (λ b. b ≡ a) w
      → Inv (λ b. ⊥) (record w { cache = c })
  Inv-passed w a c k o h = record {
    consistent = k;
    walkable = h.walkable;
    listed = h.listed;
    queued = h.queued;
    parse_arguments-IsSettled = λ b q. elim (h.parse_arguments-IsSettled b q) [
      | inl e ↦
          subst
            (λ x.
              ⊥
              ⊎ In x w.frontier.worklist
              ⊎ Visits w x
              ⊎ ((i : DecodedInstruction) → IsWalkable m decode request x i → ⊥))
            (sym e) (inr (inr o))
      | inr r ↦ inr r
    ];
    sound = h.sound;
    started = h.started;
    closed = h.closed;
    below = h.below;
    start = h.start;
    reached = h.reached;
    returns = h.returns;
    returning = h.returning;
  }

  -- What covering an instruction adds to the set of covered addresses and to the frontier.
  pub Visits-covered :
      (w : Walk) (i : DecodedInstruction) (a b : ℕ)
      → Visits (covered m decode request w i a) b
      → (b ≡ a) ⊎ Visits w b
  Visits-covered w i a b h = ground (arith, Sets.contains-insert b a w.visited)

  pub covered_self :
      (w : Walk) (i : DecodedInstruction) (a : ℕ) → Visits (covered m decode request w i a) a
  covered_self w i a = ground (arith, Sets.contains-insert a a w.visited)

  pub covered_keeps :
      (w : Walk) (i : DecodedInstruction) (a b : ℕ)
      → Visits w b
      → Visits (covered m decode request w i a) b
  covered_keeps w i a b h = ground (arith, Sets.contains-insert b a w.visited)

  pub covered-Enqueues :
      (w : Walk) (i : DecodedInstruction) (a b : ℕ)
      → Enqueues (covered m decode request w i a).frontier b
      → Enqueues w.frontier b
        ⊎ In b (successors request i i.flow) × (is_schedulable m request b ≡ true)
  covered-Enqueues w i a b h =
      (schedule_all-Enqueues m request w.frontier (successors request i i.flow) b).0
        (subst (λ f. Enqueues f b) (follow-schedule_all m request i i.flow w.frontier) h)

  pub Enqueues-covered :
      (w : Walk) (i : DecodedInstruction) (a b : ℕ)
      → Enqueues w.frontier b
        ⊎ In b (successors request i i.flow) × (is_schedulable m request b ≡ true)
      → Enqueues (covered m decode request w i a).frontier b
  Enqueues-covered w i a b h =
      subst (λ f. Enqueues f b) (sym (follow-schedule_all m request i i.flow w.frontier))
        ((schedule_all-Enqueues m request w.frontier (successors request i i.flow) b).1 h)

  pub covered-queued :
      (w : Walk) (i : DecodedInstruction) (a b : ℕ)
      → In b (covered m decode request w i a).frontier.worklist
      → In b w.frontier.worklist ⊎ Enqueues (covered m decode request w i a).frontier b
  covered-queued w i a b h =
      let e = follow-schedule_all m request i i.flow w.frontier in
      let q = schedule_all-queued m request w.frontier (successors request i i.flow) b in
      elim (q.0 (subst (λ f. In b f.worklist) e h)) [
        | inl old ↦ inl old
        | inr (new, _) ↦ inr (subst (λ f. Enqueues f b) (sym e) new)
      ]

  pub covered_queues :
      (w : Walk) (i : DecodedInstruction) (a b : ℕ)
      → In b w.frontier.worklist
        ⊎ Enqueues (covered m decode request w i a).frontier b
          × (Sets.contains b w.frontier.enqueued ≡ false)
      → In b (covered m decode request w i a).frontier.worklist
  covered_queues w i a b h =
      let e = follow-schedule_all m request i i.flow w.frontier in
      subst (λ f. In b f.worklist) (sym e)
        ((schedule_all-queued m request w.frontier (successors request i i.flow) b).1 (elim h [
          | inl old ↦ inl old
          | inr (new, fresh) ↦ inr (subst (λ f. Enqueues f b) e new, fresh)
        ]))
