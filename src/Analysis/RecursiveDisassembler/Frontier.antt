-- ===== src/Analysis/RecursiveDisassembler/Frontier.antt =====
-- What the traversal of src/analysis/recursive_disassembler.cc schedules for an instruction.
use fn_finder.Base.{
  ℕ, ◌+◌, ◌≤◌, ◌<◌, ◌≡◌, refl, true, false, List, [], ◌∷◌, arith, if◌then◌else◌, length, All, In,
  Bool-cases, inl, inr, ◌⊎◌, ◌↔◌, ◌∙◌,
}
use fn_finder.Base.Words.{Address}
use fn_finder.Base.Sets
use fn_finder.Base.Sets.{IsAscending}
use fn_finder.Disasm.Instruction.{FlowType, Instruction}
use fn_finder.Analysis.CodeMap
use fn_finder.Analysis.CodeMap.{CodeMap, CodeRegion}
use fn_finder.Analysis.CodeMap.Lookup.{contains-region, region_containing_sound}
use fn_finder.Analysis.RecursiveDisassembler.{
  Discovery, is_instruction_address, enqueue, add_function_start, enqueue_flow, code_limit,
}

-- The addresses to which control may pass from an instruction, and those that it calls.
unfoldable pub flow_targets : Instruction → FlowType → (next : Address) → List ℕ
flow_targets i FlowType.sequential next = next ∷ []
flow_targets i FlowType.direct_call next = if i.has_target then i.target ∷ next ∷ [] else next ∷ []
flow_targets i FlowType.indirect_call next = next ∷ []
flow_targets i FlowType.conditional_branch next =
    if i.has_target then i.target ∷ next ∷ [] else next ∷ []
flow_targets i FlowType.unconditional_branch next = if i.has_target then i.target ∷ [] else []
flow_targets i FlowType.indirect_branch next = []
flow_targets i FlowType.return next = []

unfoldable pub called : Instruction → FlowType → List ℕ
called i FlowType.direct_call = if i.has_target then i.target ∷ [] else []
called i _ = []

abbrev pub Schedules : Discovery → ℕ → Type 0
Schedules d a = Sets.contains a d.scheduled ≡ true

abbrev pub Starts : Discovery → ℕ → Type 0
Starts d a = Sets.contains a d.result.function_starts ≡ true

-- The limit lies behind every address that a map contains.
In-code_limit : (r : CodeRegion) (rs : List CodeRegion) → In r rs → r.end ≤ code_limit rs
unfolding code_limit
In-code_limit r [] i = elim i [ ]
In-code_limit r (q ∷ rs) (inl e) = ground arith
In-code_limit r (q ∷ rs) (inr i) = omega (arith, In-code_limit r rs i)

pub contains-code_limit :
    (m : CodeMap) (a : ℕ) → CodeMap.contains m a ≡ true → a < code_limit m.regions
contains-code_limit m a h =
    let (r, e) = contains-region m a h in
    let (i, l, u) = region_containing_sound m a r e in omega (arith, In-code_limit r m.regions i)

module _ (m : CodeMap) where
  unfoldable pub enqueue_all : Discovery → List ℕ → Discovery
  enqueue_all d [] = d
  enqueue_all d (t ∷ ts) = enqueue_all (enqueue m d t) ts

  unfoldable pub add_starts : Discovery → List ℕ → Discovery
  add_starts d [] = d
  add_starts d (t ∷ ts) = add_starts (add_function_start m d t) ts

  pub enqueue_flow-enqueue_all :
      (d : Discovery) (i : Instruction) (flow : FlowType) (next : Address)
      → enqueue_flow m d i flow next
        ≡ enqueue_all (add_starts d (called i flow)) (flow_targets i flow next)
  unfolding enqueue_flow enqueue_all add_starts called flow_targets
  enqueue_flow-enqueue_all d i FlowType.sequential next = refl
  enqueue_flow-enqueue_all d i FlowType.direct_call next = elim (Bool-cases i.has_target) [
    | inl e ↦ rw e refl
    | inr e ↦ rw e refl
  ]
  enqueue_flow-enqueue_all d i FlowType.indirect_call next = refl
  enqueue_flow-enqueue_all d i FlowType.conditional_branch next = elim (Bool-cases i.has_target) [
    | inl e ↦ rw e refl
    | inr e ↦ rw e refl
  ]
  enqueue_flow-enqueue_all d i FlowType.unconditional_branch next = elim (Bool-cases i.has_target) [
    | inl e ↦ rw e refl
    | inr e ↦ rw e refl
  ]
  enqueue_flow-enqueue_all d i FlowType.indirect_branch next = refl
  enqueue_flow-enqueue_all d i FlowType.return next = refl

  -- An aligned address of the code.
  abbrev pub IsCode : ℕ → Type 0
  IsCode a = is_instruction_address m a ≡ true

  pub IsCode-below : (a : ℕ) → IsCode a → a < code_limit m.regions
  unfolding is_instruction_address
  IsCode-below a h = ground (arith, contains-code_limit m a)

  enqueue-Schedules :
      (d : Discovery) (t a : ℕ) → Schedules (enqueue m d t) a ↔ (Schedules d a ⊎ (a ≡ t) × IsCode t)
  unfolding enqueue
  enqueue-Schedules d t a = ground (arith, Sets.contains-insert a t d.scheduled)

  pub enqueue_all-Schedules :
      (d : Discovery) (ts : List ℕ) (a : ℕ)
      → Schedules (enqueue_all d ts) a ↔ (Schedules d a ⊎ In a ts × IsCode a)
  unfolding enqueue_all
  enqueue_all-Schedules d [] a = (inl, λ s. elim s [ inl h ↦ h | inr (n, _) ↦ elim n [ ] ])
  enqueue_all-Schedules d (t ∷ ts) a =
      ground (arith, enqueue-Schedules d t a, enqueue_all-Schedules (enqueue m d t) ts a)

  enqueue-worklist :
      (d : Discovery) (t a : ℕ)
      → In a (enqueue m d t).worklist
        ↔ (In a d.worklist ⊎ Schedules (enqueue m d t) a × (Sets.contains a d.scheduled ≡ false))
  unfolding enqueue
  enqueue-worklist d t a = ground (arith, Sets.contains-insert a t d.scheduled)

  pub enqueue_all-worklist :
      (d : Discovery) (ts : List ℕ) (a : ℕ)
      → In a (enqueue_all d ts).worklist
        ↔ (In a d.worklist ⊎ Schedules (enqueue_all d ts) a × (Sets.contains a d.scheduled ≡ false))
  unfolding enqueue_all
  enqueue_all-worklist d [] a = (inl, λ s. elim s [ inl h ↦ h | inr (p, q) ↦ cc ])
  enqueue_all-worklist d (t ∷ ts) a = ground (
    arith,
    enqueue-worklist d t a,
    enqueue-Schedules d t a,
    enqueue_all-Schedules (enqueue m d t) ts a,
    enqueue_all-worklist (enqueue m d t) ts a,
  )

  enqueue-result : (d : Discovery) (t : ℕ) → (enqueue m d t).result ≡ d.result
  unfolding enqueue
  enqueue-result d t = ground arith

  pub enqueue_all-result : (d : Discovery) (ts : List ℕ) → (enqueue_all d ts).result ≡ d.result
  unfolding enqueue_all
  enqueue_all-result d [] = refl
  enqueue_all-result d (t ∷ ts) = enqueue_all-result (enqueue m d t) ts ∙ enqueue-result d t

  add_function_start-Starts :
      (d : Discovery) (t a : ℕ)
      → Starts (add_function_start m d t) a ↔ (Starts d a ⊎ (a ≡ t) × (CodeMap.contains m t ≡ true))
  unfolding add_function_start
  add_function_start-Starts d t a =
      ground (arith, Sets.contains-insert a t d.result.function_starts)

  pub add_starts-Starts :
      (d : Discovery) (ts : List ℕ) (a : ℕ)
      → Starts (add_starts d ts) a ↔ (Starts d a ⊎ In a ts × (CodeMap.contains m a ≡ true))
  unfolding add_starts
  add_starts-Starts d [] a = (inl, λ s. elim s [ inl h ↦ h | inr (n, _) ↦ elim n [ ] ])
  add_starts-Starts d (t ∷ ts) a =
      ground
        (arith, add_function_start-Starts d t a, add_starts-Starts (add_function_start m d t) ts a)

  -- What a start leaves alone.
  abbrev pub SameFrontier : Discovery → Discovery → Type 0
  SameFrontier d e =
      (d.scheduled ≡ e.scheduled)
      × (d.worklist ≡ e.worklist)
      × (d.result.instruction_sizes ≡ e.result.instruction_sizes)

  pub add_starts-SameFrontier : (d : Discovery) (ts : List ℕ) → SameFrontier (add_starts d ts) d
  unfolding add_starts add_function_start
  add_starts-SameFrontier d [] = (refl, refl, refl)
  add_starts-SameFrontier d (t ∷ ts) =
      ground (arith, add_starts-SameFrontier (add_function_start m d t) ts)

  -- Scheduled addresses are in ascending order and lie in the code.
  pub record IsFrontier (d : Discovery) : Type 0 where
    pub ascending : IsAscending d.scheduled
    pub bounded : All (λ a. a < code_limit m.regions) d.scheduled

  enqueue-IsFrontier : (d : Discovery) (t : ℕ) → IsFrontier d → IsFrontier (enqueue m d t)
  unfolding enqueue
  enqueue-IsFrontier d t h = ground (
    arith,
    IsCode-below t,
    Sets.insert-IsAscending t d.scheduled h.ascending,
    Sets.All-insert (λ a. a < code_limit m.regions) t d.scheduled,
  )

  pub enqueue_all-IsFrontier :
      (d : Discovery) (ts : List ℕ) → IsFrontier d → IsFrontier (enqueue_all d ts)
  unfolding enqueue_all
  enqueue_all-IsFrontier d [] h = h
  enqueue_all-IsFrontier d (t ∷ ts) h =
      enqueue_all-IsFrontier (enqueue m d t) ts (enqueue-IsFrontier d t h)

  enqueue_balance :
      (d : Discovery) (t : ℕ)
      → IsFrontier d
      → length (enqueue m d t).scheduled + length d.worklist
        ≡ length d.scheduled + length (enqueue m d t).worklist
  unfolding enqueue
  enqueue_balance d t h = ground (arith, Sets.length-insert t d.scheduled h.ascending)

  -- The set and the worklist grow alike.
  pub enqueue_all_balance :
      (d : Discovery) (ts : List ℕ)
      → IsFrontier d
      → length (enqueue_all d ts).scheduled + length d.worklist
        ≡ length d.scheduled + length (enqueue_all d ts).worklist
  unfolding enqueue_all
  enqueue_all_balance d [] h = refl
  enqueue_all_balance d (t ∷ ts) h = omega (
    arith,
    enqueue_balance d t h,
    enqueue_all_balance (enqueue m d t) ts (enqueue-IsFrontier d t h),
  )
