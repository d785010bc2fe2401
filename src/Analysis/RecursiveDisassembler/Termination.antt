-- ===== src/Analysis/RecursiveDisassembler/Termination.antt =====
-- The loop of `discover` in src/analysis/recursive_disassembler.cc ends: every address of the code
-- is scheduled at most once.
use fn_finder.Base.{
  ℕ, zero, suc, ◌+◌, ◌≤◌, ◌<◌, ◌≡◌, refl, true, false, List, [], ◌∷◌, arith, leb, length, All, ap,
  Bool-cases, Option-cases, List-cases, inl, inr, ◌⊎◌, sym, subst, none, some,
}
use fn_finder.Base.Words.{add64}
use fn_finder.Base.Sets
use fn_finder.Base.Sets.{IsAscending}
use fn_finder.Disasm.Instruction.{Decoder, Instruction}
use fn_finder.Analysis.CodeMap.{CodeMap}
use fn_finder.Analysis.RecursiveDisassembler.{
  Discovery, add_seeds, record_size, without_back, decoded, take_address, traverse, start_discovery,
  discovered, code_limit,
}
use fn_finder.Analysis.RecursiveDisassembler.Frontier.{
  flow_targets, called, enqueue_all, add_starts, enqueue_flow-enqueue_all, add_starts-SameFrontier,
  IsFrontier, enqueue_all-IsFrontier, enqueue_all_balance,
}

-- What a decoded instruction at an address does to the variables.
abbrev pub after : CodeMap → Discovery → ℕ → Instruction → Discovery
after m d a i =
    enqueue_all m (add_starts m (record_size d a i.size) (called i i.flow))
      (flow_targets i i.flow (add64 a i.size))

from_zero : (xs : List ℕ) → All (λ y. 0 ≤ y) xs
from_zero [] = tt
from_zero (x ∷ xs) = (omega arith, from_zero xs)

module _ (m : CodeMap) (decode : Decoder) where
  pub take_address-none :
      (d : Discovery) (a : ℕ) → decoded m decode a ≡ none → take_address m decode d a ≡ d
  unfolding take_address
  take_address-none d a e = rw (take_address, e)

  pub take_address-after :
      (d : Discovery) (a : ℕ) (i : Instruction)
      → decoded m decode a ≡ some i
      → take_address m decode d a ≡ after m d a i
  unfolding take_address
  take_address-after d a i e =
      rw (take_address, e)
        (enqueue_flow-enqueue_all m (record_size d a i.size) i i.flow (add64 a i.size))

  module _ (max_instructions : ℕ) where
    -- The loop ended by its own test, or by the cap on the instructions.
    abbrev pub IsFinished : Discovery → Type 0
    IsFinished d = (d.worklist ≡ []) ⊎ (max_instructions ≤ length d.result.instruction_sizes)

    abbrev round : Discovery → ℕ → List ℕ → Discovery
    round d a rest = take_address m decode (without_back d rest) a

    traverse_done :
        (fuel : ℕ) (d : Discovery) → d.worklist ≡ [] → traverse m decode fuel max_instructions d ≡ d
    unfolding traverse
    traverse_done zero d e = refl
    traverse_done (suc fuel) d e = ground arith

    traverse_capped :
        (fuel : ℕ) (d : Discovery)
        → leb max_instructions (length d.result.instruction_sizes) ≡ true
        → traverse m decode fuel max_instructions d ≡ d
    unfolding traverse
    traverse_capped zero d e = refl
    traverse_capped (suc fuel) d e = ground arith

    traverse-round :
        (fuel : ℕ) (d : Discovery) (a : ℕ) (rest : List ℕ)
        → d.worklist ≡ a ∷ rest
        → leb max_instructions (length d.result.instruction_sizes) ≡ false
        → traverse m decode (suc fuel) max_instructions d
          ≡ traverse m decode fuel max_instructions (round d a rest)
    unfolding traverse
    traverse-round fuel d a rest e more = ground arith

    -- A rule for the loop: what a round keeps holds at its end.
    pub traverse_rule :
        (P : Discovery → Type 0)
        → ((d : Discovery) (a : ℕ) (rest : List ℕ)
            → d.worklist ≡ a ∷ rest
            → P d
            → P (round d a rest))
        → (fuel : ℕ) (d : Discovery) → P d
        → P (traverse m decode fuel max_instructions d)
    traverse_rule P keep zero d p = unfold traverse in p
    traverse_rule P keep (suc fuel) d p = elim (List-cases d.worklist) [
      | inl e ↦ subst P (sym (traverse_done (suc fuel) d e)) p
      | inr (a, rest, e) ↦
          elim (Bool-cases (leb max_instructions (length d.result.instruction_sizes))) [
            | inl full ↦ subst P (sym (traverse_capped (suc fuel) d full)) p
            | inr more ↦
                subst P (sym (traverse-round fuel d a rest e more))
                  (traverse_rule P keep fuel (round d a rest) (keep d a rest e p))
          ]
    ]

    scheduled-le-limit :
        (d : Discovery) → IsFrontier m d → length d.scheduled ≤ code_limit m.regions
    scheduled-le-limit d h = omega (
      arith,
      Sets.length-ascending-le 0 (code_limit m.regions) d.scheduled (omega arith) h.ascending
          (from_zero d.scheduled) h.bounded,
    )

    -- The variables before the flow of an instruction is scheduled.
    abbrev started : Discovery → ℕ → List ℕ → Instruction → Discovery
    started d a rest i = add_starts m (record_size (without_back d rest) a i.size) (called i i.flow)

    started_lem :
        (d : Discovery) (a : ℕ) (rest : List ℕ) (i : Instruction)
        → ((started d a rest i).scheduled ≡ d.scheduled) × ((started d a rest i).worklist ≡ rest)
    unfolding record_size without_back
    started_lem d a rest i =
        let same =
          add_starts-SameFrontier m (record_size (without_back d rest) a i.size)
            (called i i.flow) in
        (same.0, same.1)

    started-IsFrontier :
        (d : Discovery) (a : ℕ) (rest : List ℕ) (i : Instruction)
        → IsFrontier m d
        → IsFrontier m (started d a rest i)
    started-IsFrontier d a rest i h =
        let same = sym (started_lem d a rest i).0 in
        record {
          ascending = subst IsAscending same h.ascending;
          bounded = subst (All (λ a. a < code_limit m.regions)) same h.bounded;
        }

    -- A round keeps the frontier's shape, and takes one address from the worklist.
    round-IsFrontier :
        (d : Discovery) (a : ℕ) (rest : List ℕ)
        → IsFrontier m d
        → IsFrontier m (round d a rest)
          × (length (round d a rest).scheduled + length rest
              ≡ length d.scheduled + length (round d a rest).worklist)
    round-IsFrontier d a rest h = elim (Option-cases (decoded m decode a)) [
      | inl e ↦
          rw (take_address-none (without_back d rest) a e)
            (unfold without_back in (record { ascending = h.ascending; bounded = h.bounded }, refl))
      | inr (i, e) ↦
          let s = started d a rest i in
          let ts = flow_targets i i.flow (add64 a i.size) in
          let shape = started-IsFrontier d a rest i h in
          let (q, w) = started_lem d a rest i in
          rw (take_address-after (without_back d rest) a i e) (
            enqueue_all-IsFrontier m s ts shape,
            omega (arith, enqueue_all_balance m s ts shape, ap length q, ap length w),
          )
    ]

    -- The fuel covers all that can still come.
    pub traverse-IsFinished :
        (fuel : ℕ) (d : Discovery)
        → IsFrontier m d
        → code_limit m.regions + length d.worklist ≤ length d.scheduled + fuel
        → IsFinished (traverse m decode fuel max_instructions d)
    traverse-IsFinished zero d h b = elim (List-cases d.worklist) [
      | inl e ↦ unfold traverse in inl e
      | inr (a, rest, e) ↦ absurd (omega (arith, ap length e, scheduled-le-limit d h))
    ]
    traverse-IsFinished (suc fuel) d h b = elim (List-cases d.worklist) [
      | inl e ↦ subst IsFinished (sym (traverse_done (suc fuel) d e)) (inl e)
      | inr (a, rest, e) ↦
          elim (Bool-cases (leb max_instructions (length d.result.instruction_sizes))) [
            | inl full ↦
                subst IsFinished (sym (traverse_capped (suc fuel) d full)) (inr (ground arith))
            | inr more ↦
                let (shape, balance) = round-IsFrontier d a rest h in
                subst IsFinished (sym (traverse-round fuel d a rest e more))
                  (traverse-IsFinished fuel (round d a rest) shape (omega (arith, ap length e)))
          ]
    ]

-- The seeds are scheduled one by one.
module _ (m : CodeMap) where
  abbrev pub seeded : Discovery → ℕ → Discovery
  seeded d a = enqueue_all m (add_starts m d (a ∷ [])) (a ∷ [])

  pub add_seeds-seeded :
      (d : Discovery) (a : ℕ) (rest : List ℕ)
      → add_seeds m d (a ∷ rest) ≡ add_seeds m (seeded d a) rest
  unfolding add_seeds enqueue_all add_starts
  add_seeds-seeded d a rest = refl

  -- A frontier of which all is in the worklist.
  record IsFresh (d : Discovery) : Type 0 where
    frontier : IsFrontier m d
    queued : length d.worklist ≡ length d.scheduled

  seeded-IsFresh : (d : Discovery) (a : ℕ) → IsFresh d → IsFresh (seeded d a)
  seeded-IsFresh d a h =
      let s = add_starts m d (a ∷ []) in
      let same = add_starts-SameFrontier m d (a ∷ []) in
      let shape : IsFrontier m s = record {
        ascending = subst IsAscending (sym same.0) h.frontier.ascending;
        bounded = subst (All (λ a. a < code_limit m.regions)) (sym same.0) h.frontier.bounded;
      } in
      record {
        frontier = enqueue_all-IsFrontier m s (a ∷ []) shape;
        queued = omega (
          arith,
          enqueue_all_balance m s (a ∷ []) shape,
          ap length same.0,
          ap length same.1,
          h.queued,
        );
      }

  add_seeds-IsFresh : (d : Discovery) (seeds : List ℕ) → IsFresh d → IsFresh (add_seeds m d seeds)
  add_seeds-IsFresh d [] h = unfold add_seeds in h
  add_seeds-IsFresh d (a ∷ rest) h =
      subst IsFresh (sym (add_seeds-seeded d a rest))
        (add_seeds-IsFresh (seeded d a) rest (seeded-IsFresh d a h))

-- The loop of `discover` ends by its own test or at the cap on instructions: the rounds that the
-- model gives it, one for each address below the end of the code, are enough.
pub discovered-IsFinished :
    (m : CodeMap) (decode : Decoder) (max_instructions : ℕ) (seeds : List ℕ)
    → IsFinished m decode max_instructions (discovered m decode max_instructions seeds)
unfolding discovered start_discovery
discovered-IsFinished m decode max_instructions seeds =
    let d = start_discovery m decode seeds in
    let fresh : IsFresh m d =
      unfold start_discovery in
      add_seeds-IsFresh m _ seeds
        (record { frontier = record { ascending = tt; bounded = tt }; queued = refl }) in
    traverse-IsFinished m decode max_instructions (code_limit m.regions) d fresh.frontier
      (omega (arith, fresh.queued))
