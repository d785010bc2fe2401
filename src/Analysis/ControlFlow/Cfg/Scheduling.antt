-- ===== src/Analysis/ControlFlow/Cfg/Scheduling.antt =====
-- Scheduling: what `schedule` and the switch add to the frontier.
use fn_finder.Base.{
  ℕ, ◌+◌, ◌%◌, ◌≤◌, ◌<◌, ◌≡◌, refl, true, false, List, [], ◌∷◌, arith, if◌then◌else◌, length, All,
  In, Bool-cases, inl, inr, ◌⊎◌, ◌↔◌,
}
use fn_finder.Base.Words.{instruction_size}
use fn_finder.Base.Sets
use fn_finder.Base.Sets.{IsAscending}
use fn_finder.Disasm.Instruction.{FlowType}
use fn_finder.Analysis.CodeMap
use fn_finder.Analysis.CodeMap.{CodeMap}
use fn_finder.Analysis.ControlFlow.Instructions.{DecodedInstruction, end_address}
use fn_finder.Analysis.ControlFlow.Cfg.{
  CfgBuildRequest, Frontier, is_boundary, is_schedulable, schedule, follow,
}

-- The addresses to which control may pass from an instruction inside its function: the target of a
-- branch and the instruction behind, but for a branch without return.
unfoldable pub successors : CfgBuildRequest → DecodedInstruction → FlowType → List ℕ
successors request i FlowType.sequential = end_address i ∷ []
successors request i FlowType.direct_call = end_address i ∷ []
successors request i FlowType.indirect_call = end_address i ∷ []
successors request i FlowType.conditional_branch =
    if i.has_target then i.target ∷ end_address i ∷ [] else end_address i ∷ []
successors request i FlowType.unconditional_branch = if i.has_target then i.target ∷ [] else []
successors request i FlowType.indirect_branch =
    if request.linear_past_indirect_branch then end_address i ∷ [] else []
successors request i FlowType.return = []

abbrev pub Enqueues : Frontier → ℕ → Type 0
Enqueues f a = Sets.contains a f.enqueued ≡ true

module _ (m : CodeMap) (request : CfgBuildRequest) where
  open request use {entry, upper_bound}

  unfoldable pub schedule_all : Frontier → List ℕ → Frontier
  schedule_all f [] = f
  schedule_all f (t ∷ ts) = schedule_all (schedule m request f t) ts

  pub follow-schedule_all :
      (i : DecodedInstruction) (flow : FlowType) (f : Frontier)
      → follow m request i flow f ≡ schedule_all f (successors request i flow)
  unfolding follow successors schedule_all
  follow-schedule_all i FlowType.sequential f = refl
  follow-schedule_all i FlowType.direct_call f = refl
  follow-schedule_all i FlowType.indirect_call f = refl
  follow-schedule_all i FlowType.conditional_branch f = elim (Bool-cases i.has_target) [
    | inl e ↦ rw e refl
    | inr e ↦ rw e refl
  ]
  follow-schedule_all i FlowType.unconditional_branch f = elim (Bool-cases i.has_target) [
    | inl e ↦ rw e refl
    | inr e ↦ rw e refl
  ]
  follow-schedule_all i FlowType.indirect_branch f =
      elim (Bool-cases request.linear_past_indirect_branch) [
        | inl e ↦ rw e refl
        | inr e ↦ rw e refl
      ]
  follow-schedule_all i FlowType.return f = refl

  -- What the tests of `isSchedulable` mean.
  pub is_schedulable_lem :
      (t : ℕ)
      → is_schedulable m request t ≡ true
      → (entry ≤ t)
        × (t < upper_bound)
        × (t % instruction_size ≡ 0)
        × (CodeMap.contains m t ≡ true)
        × (is_boundary request.boundaries t ≡ false)
  unfolding is_schedulable
  is_schedulable_lem t h = ground arith

  -- The addresses that may stand in the frontier.
  abbrev pub IsInWindow : ℕ → Type 0
  IsInWindow t = (entry ≤ t) × (t < upper_bound) × (CodeMap.contains m t ≡ true)

  -- An ascending set of addresses of the window.
  pub record IsFrontier (f : Frontier) : Type 0 where
    pub ascending : IsAscending f.enqueued
    pub window : All IsInWindow f.enqueued

  pub schedule-IsFrontier :
      (f : Frontier) (t : ℕ) → IsFrontier f → IsFrontier (schedule m request f t)
  unfolding schedule
  schedule-IsFrontier f t h = ground (
    arith,
    is_schedulable_lem t,
    Sets.insert-IsAscending t f.enqueued h.ascending,
    Sets.All-insert IsInWindow t f.enqueued,
  )

  pub schedule_all-IsFrontier :
      (f : Frontier) (ts : List ℕ) → IsFrontier f → IsFrontier (schedule_all f ts)
  unfolding schedule_all
  schedule_all-IsFrontier f [] h = h
  schedule_all-IsFrontier f (t ∷ ts) h =
      schedule_all-IsFrontier (schedule m request f t) ts (schedule-IsFrontier f t h)

  -- Every address that is scheduled is queued once: the set and the worklist grow alike.
  pub schedule_balance :
      (f : Frontier) (t : ℕ)
      → IsFrontier f
      → length (schedule m request f t).enqueued + length f.worklist
        ≡ length f.enqueued + length (schedule m request f t).worklist
  unfolding schedule
  schedule_balance f t h = ground (arith, Sets.length-insert t f.enqueued h.ascending)

  pub schedule_all_balance :
      (f : Frontier) (ts : List ℕ)
      → IsFrontier f
      → length (schedule_all f ts).enqueued + length f.worklist
        ≡ length f.enqueued + length (schedule_all f ts).worklist
  unfolding schedule_all
  schedule_all_balance f [] h = refl
  schedule_all_balance f (t ∷ ts) h = omega (
    arith,
    schedule_balance f t h,
    schedule_all_balance (schedule m request f t) ts (schedule-IsFrontier f t h),
  )

  -- A scheduled set holds what it held, and of the new addresses the schedulable ones.
  schedule-Enqueues :
      (f : Frontier) (t a : ℕ)
      → Enqueues (schedule m request f t) a
        ↔ (Enqueues f a ⊎ (a ≡ t) × (is_schedulable m request t ≡ true))
  unfolding schedule
  schedule-Enqueues f t a = ground (arith, Sets.contains-insert a t f.enqueued)

  pub schedule_all-Enqueues :
      (f : Frontier) (ts : List ℕ) (a : ℕ)
      → Enqueues (schedule_all f ts) a
        ↔ (Enqueues f a ⊎ In a ts × (is_schedulable m request a ≡ true))
  unfolding schedule_all
  schedule_all-Enqueues f [] a = (inl, λ s. elim s [ inl h ↦ h | inr (n, _) ↦ elim n [ ] ])
  schedule_all-Enqueues f (t ∷ ts) a =
      ground (arith, schedule-Enqueues f t a, schedule_all-Enqueues (schedule m request f t) ts a)

  -- What joins the worklist is what joins the set.
  schedule-queued :
      (f : Frontier) (t a : ℕ)
      → In a (schedule m request f t).worklist ↔ (
          In a f.worklist
          ⊎ Enqueues (schedule m request f t) a × (Sets.contains a f.enqueued ≡ false))
  unfolding schedule
  schedule-queued f t a = ground (arith, Sets.contains-insert a t f.enqueued)

  pub schedule_all-queued :
      (f : Frontier) (ts : List ℕ) (a : ℕ)
      → In a (schedule_all f ts).worklist
        ↔ (In a f.worklist ⊎ Enqueues (schedule_all f ts) a × (Sets.contains a f.enqueued ≡ false))
  unfolding schedule_all
  schedule_all-queued f [] a = (inl, λ s. elim s [ inl h ↦ h | inr (p, q) ↦ cc ])
  schedule_all-queued f (t ∷ ts) a = ground (
    arith,
    schedule-queued f t a,
    schedule-Enqueues f t a,
    schedule_all-Enqueues (schedule m request f t) ts a,
    schedule_all-queued (schedule m request f t) ts a,
  )
