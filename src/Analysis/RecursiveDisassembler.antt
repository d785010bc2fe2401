-- ===== src/Analysis/RecursiveDisassembler.antt =====
-- The traversal of the code from known entries: src/analysis/recursive_disassembler.h and
-- recursive_disassembler.cc. The back of the worklist is the head of its list.
pub mod Frontier
pub mod Termination
pub mod Invariant
pub mod Closure
use fn_finder.Base.{
  ℕ, zero, suc, ◌%◌, Bool, true, false, not, List, [], ◌∷◌, Option, none, some, leb, ◌==◌,
  if◌then◌else◌, length, max,
}
use fn_finder.Base.Words.{Address, add64, instruction_size}
use fn_finder.Base.Sets
use fn_finder.Base.Maps.{assign}
use fn_finder.Disasm.Instruction.{FlowType, Instruction, Decoder}
use fn_finder.Analysis.CodeMap
use fn_finder.Analysis.CodeMap.{CodeMap, CodeRegion, at}
use fn_finder.Analysis.ControlFlow.Instructions.{code_bytes}

pub record RecursiveResult : Type 0 where
  pub function_starts : List ℕ
  pub instruction_sizes : List (ℕ × ℕ)

-- The local variables of `discover`.
pub record Discovery : Type 0 where
  pub result : RecursiveResult
  pub scheduled : List ℕ
  pub worklist : List ℕ

-- A bound on the addresses that a map contains.
unfoldable pub code_limit : List CodeRegion → Address
code_limit [] = 0
code_limit (r ∷ rs) = max r.end (code_limit rs)

module _ (m : CodeMap) where
  -- The tests of the local function `schedule`.
  unfoldable pub is_instruction_address : Address → Bool
  unfolding CodeMap.contains
  is_instruction_address addr =
      if not (addr % instruction_size == 0) then false else CodeMap.contains m addr

  unfoldable pub enqueue : Discovery → Address → Discovery
  unfolding is_instruction_address Sets.contains Sets.insert
  enqueue d addr =
      if not (is_instruction_address addr)
      then d
      else if Sets.contains addr d.scheduled
      then d
      else record d { scheduled = Sets.insert addr d.scheduled; worklist = addr ∷ d.worklist }

  -- `if (codeMap_.contains(a)) result.functionStarts.insert(a)`.
  unfoldable pub add_function_start : Discovery → Address → Discovery
  unfolding CodeMap.contains Sets.insert
  add_function_start d a =
      if CodeMap.contains m a
      then record d {
        result = record {
          function_starts = Sets.insert a d.result.function_starts;
          instruction_sizes = d.result.instruction_sizes;
        };
      }
      else d

  -- The loop over the seeds.
  unfoldable pub add_seeds : Discovery → List Address → Discovery
  unfolding enqueue add_function_start
  add_seeds d [] = d
  add_seeds d (a ∷ rest) = add_seeds (enqueue (add_function_start d a) a) rest

  -- The switch on the flow of an instruction, with its fall-through address.
  unfoldable pub enqueue_flow : Discovery → Instruction → FlowType → Address → Discovery
  unfolding enqueue add_function_start
  enqueue_flow d i FlowType.direct_call next =
      enqueue (if i.has_target then enqueue (add_function_start d i.target) i.target else d) next
  enqueue_flow d i FlowType.indirect_call next = enqueue d next
  enqueue_flow d i FlowType.conditional_branch next =
      enqueue (if i.has_target then enqueue d i.target else d) next
  enqueue_flow d i FlowType.unconditional_branch next =
      if i.has_target then enqueue d i.target else d
  enqueue_flow d i FlowType.indirect_branch next = d
  enqueue_flow d i FlowType.return next = d
  enqueue_flow d i FlowType.sequential next = enqueue d next

-- `result.instructionSizes[addr] = size`.
unfoldable pub record_size : Discovery → Address → ℕ → Discovery
unfolding assign
record_size d addr size = record d {
  result = record {
    function_starts = d.result.function_starts;
    instruction_sizes = assign addr size d.result.instruction_sizes;
  };
}

unfoldable pub without_back : Discovery → List ℕ → Discovery
without_back d rest = record d { worklist = rest }

module _ (m : CodeMap) (decode : Decoder) where
  -- `codeMap_.at` and `decode`.
  unfoldable pub decoded : Address → Option Instruction
  unfolding at
  decoded addr = elim (at m addr) [
    | none ↦ none
    | some span ↦ decode (code_bytes m span) span.available addr
  ]

  -- The body of the loop for the address that left the worklist.
  unfoldable pub take_address : Discovery → Address → Discovery
  unfolding decoded record_size enqueue_flow
  take_address d addr = elim (decoded addr) [
    | none ↦ d
    | some i ↦ enqueue_flow m (record_size d addr i.size) i i.flow (add64 addr i.size)
  ]

  -- The loop, on fuel. A round takes one address from the worklist.
  unfoldable pub traverse : (fuel max_instructions : ℕ) → Discovery → Discovery
  unfolding take_address without_back
  traverse zero max_instructions d = d
  traverse (suc fuel) max_instructions d = elim d.worklist [
    | [] ↦ d
    | addr ∷ rest ↦ elim (leb max_instructions (length d.result.instruction_sizes)) [
      | true ↦ d
      | false ↦ traverse fuel max_instructions (take_address (without_back d rest) addr)
    ]
  ]

  unfoldable pub start_discovery : List Address → Discovery
  unfolding add_seeds
  start_discovery seeds =
      add_seeds m
        (record {
          result = record { function_starts = []; instruction_sizes = [] };
          scheduled = [];
          worklist = [];
        })
        seeds

  -- The loop on its result: each address of the code is scheduled once, so that a round for each
  -- address below the limit is enough.
  unfoldable pub discovered : (max_instructions : ℕ) → List Address → Discovery
  unfolding traverse start_discovery code_limit
  discovered max_instructions seeds =
      traverse (code_limit m.regions) max_instructions (start_discovery seeds)

  -- `RecursiveDisassembler::discover`.
  unfoldable pub discover : (max_instructions : ℕ) → List Address → RecursiveResult
  unfolding discovered
  discover max_instructions seeds = (discovered max_instructions seeds).result
