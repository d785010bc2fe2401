-- ===== src/Analysis/ControlFlow/Cfg.antt =====
-- The walk over the instructions of one function: src/analysis/control_flow/cfg_builder.{h,cc} and
-- control_flow_graph.{h,cc}. The basic blocks are built in `Cfg.Blocks`.
pub mod Blocks
pub mod Scheduling
pub mod Termination
pub mod Round
pub mod Invariant
pub mod Covering
pub mod Reachable
use fn_finder.Base.{
  ℕ, zero, suc, ◌+◌, ◌-◌, ◌%◌, Bool, true, false, not, ◌&&◌, ◌||◌, List, [], ◌∷◌, Option, none,
  some, ltb, leb, ◌==◌, if◌then◌else◌, length, max,
}
use fn_finder.Base.Words.{Address, add64, instruction_size}
use fn_finder.Base.Sets
use Blocks.{ControlFlowGraph, BasicBlock, build_blocks}
use fn_finder.Disasm.Instruction.{FlowType, Decoder}
use fn_finder.Analysis.CodeMap
use fn_finder.Analysis.CodeMap.{CodeMap}
use fn_finder.Analysis.ControlFlow.Instructions.{
  DecodedInstruction, InstructionCache, end_address, is_hard_stop_word, cache_at,
}

-- A null pointer to a set is `none`.
pub record CfgBuildRequest : Type 0 where
  pub entry : Address
  pub upper_bound : Address
  pub boundaries : Option (List ℕ)
  pub max_instructions : ℕ
  pub linear_past_indirect_branch : Bool
  pub call_targets_out : Option (List ℕ)
  pub build_basic_blocks : Bool

-- What scheduling touches; the back of the worklist is the head of its list.
pub record Frontier : Type 0 where
  pub enqueued : List ℕ
  pub worklist : List ℕ

-- The local variables of `build`.
pub record Walk : Type 0 where
  pub cache : InstructionCache
  pub visited : List ℕ
  pub frontier : Frontier
  pub covered_end : Address
  pub truncated : Bool
  pub reaches_return : Bool
  pub call_targets : Option (List ℕ)

unfoldable pub is_boundary : Option (List ℕ) → Address → Bool
unfolding Sets.contains
is_boundary none target = false
is_boundary (some boundaries) target = Sets.contains target boundaries

module _ (m : CodeMap) (request : CfgBuildRequest) where
  open request use {entry, upper_bound}

  unfoldable pub is_schedulable : Address → Bool
  unfolding is_boundary CodeMap.contains
  is_schedulable target =
      if ltb target entry || leb upper_bound target
      then false
      else if not (target % instruction_size == 0)
      then false
      else if not (CodeMap.contains m target)
      then false
      else not (is_boundary request.boundaries target)

  unfoldable pub schedule : Frontier → Address → Frontier
  unfolding is_schedulable Sets.contains Sets.insert
  schedule f target =
      if not (is_schedulable target)
      then f
      else if Sets.contains target f.enqueued
      then f
      else record { enqueued = Sets.insert target f.enqueued; worklist = target ∷ f.worklist }

  -- The calls of `schedule` in the cases of the switch.
  unfoldable pub follow : DecodedInstruction → FlowType → Frontier → Frontier
  unfolding schedule
  follow i FlowType.sequential f = schedule f (end_address i)
  follow i FlowType.direct_call f = schedule f (end_address i)
  follow i FlowType.indirect_call f = schedule f (end_address i)
  follow i FlowType.conditional_branch f =
      schedule (if i.has_target then schedule f i.target else f) (end_address i)
  follow i FlowType.unconditional_branch f = if i.has_target then schedule f i.target else f
  follow i FlowType.indirect_branch f =
      if request.linear_past_indirect_branch then schedule f (end_address i) else f
  follow i FlowType.return f = f

  -- The test in front of the loop.
  unfoldable pub is_enterable : Bool
  unfolding CodeMap.contains
  is_enterable = entry % instruction_size == 0 && ltb entry upper_bound && CodeMap.contains m entry

  unfoldable pub initial_frontier : Frontier
  unfolding is_enterable
  initial_frontier =
      if is_enterable
      then record { enqueued = entry ∷ []; worklist = entry ∷ [] }
      else record { enqueued = []; worklist = [] }

-- The rest of the cases: `callTargetsOut->insert` of a direct call, `reachesReturn` of a return.
unfoldable pub note_call : DecodedInstruction → FlowType → Option (List ℕ) → Option (List ℕ)
unfolding Sets.insert
note_call i FlowType.direct_call (some targets) =
    if i.has_target then some (Sets.insert i.target targets) else some targets
note_call i _ targets = targets

unfoldable pub note_return : FlowType → Bool → Bool
note_return FlowType.return reaches = true
note_return _ reaches = reaches

unfoldable pub pop : Walk → List ℕ → Walk
pop w rest = record w { frontier = record { enqueued = w.frontier.enqueued; worklist = rest } }

module _ (m : CodeMap) (decode : Decoder) (request : CfgBuildRequest) where
  open request use {entry, upper_bound}

  -- The body of the loop behind `cache_.at(a)`.
  unfoldable pub cover : Walk → Address → Option DecodedInstruction → Walk
  unfolding follow note_call note_return Sets.insert
  cover w a none = w
  cover w a (some i) = if ltb upper_bound (add64 a i.size) then w else record w {
    visited = Sets.insert a w.visited;
    covered_end = max w.covered_end (end_address i);
    frontier = follow m request i i.flow w.frontier;
    reaches_return = note_return i.flow w.reaches_return;
    call_targets = note_call i i.flow w.call_targets;
  }

  -- The body of the loop for the address `a` that left the worklist.
  unfoldable pub visit : Walk → Address → Walk
  unfolding cover is_hard_stop_word cache_at Sets.contains
  visit w a =
      if Sets.contains a w.visited || is_hard_stop_word m a
      then w
      else let (cache, found) = cache_at m decode w.cache a in
        cover (record w { cache = cache }) a found

  -- The loop, on fuel. A round takes one address from the worklist.
  unfoldable pub walk_loop : ℕ → Walk → Walk
  unfolding visit pop
  walk_loop zero w = w
  walk_loop (suc fuel) w = elim w.frontier.worklist [
    | [] ↦ w
    | a ∷ rest ↦ elim (leb request.max_instructions (length w.visited)) [
      | true ↦ record w { truncated = true }
      | false ↦ walk_loop fuel (visit (pop w rest) a)
    ]
  ]

  unfoldable pub initial_walk : InstructionCache → Walk
  unfolding initial_frontier
  initial_walk cache = record {
    cache = cache;
    visited = [];
    frontier = initial_frontier m request;
    covered_end = entry;
    truncated = false;
    reaches_return = false;
    call_targets = request.call_targets_out;
  }

  -- `CfgBuilder::build` up to its loop's end: `upper_bound - entry` rounds are enough.
  unfoldable pub walk : InstructionCache → Walk
  unfolding walk_loop initial_walk
  walk cache = walk_loop (upper_bound - entry) (initial_walk cache)

-- What `build` leaves: the graph, the cache, and the set behind `callTargetsOut`.
pub record Built : Type 0 where
  pub graph : ControlFlowGraph
  pub cache : InstructionCache
  pub call_targets : Option (List ℕ)

unfoldable pub finish : CfgBuildRequest → Walk → InstructionCache × List (ℕ × BasicBlock) → Built
finish request w (cache, blocks) = record {
  graph = record {
    entry = request.entry;
    blocks = blocks;
    covered_instructions = w.visited;
    extent_end = w.covered_end;
    truncated = w.truncated;
    reaches_return = w.reaches_return;
  };
  cache = cache;
  call_targets = w.call_targets;
}

-- `CfgBuilder::build`.
unfoldable pub build : CodeMap → Decoder → CfgBuildRequest → InstructionCache → Built
unfolding walk finish build_blocks
build m decode request cache =
    let w = walk m decode request cache in
    finish request w (
      if request.build_basic_blocks
      then build_blocks m decode w.visited request.entry w.cache
      else (w.cache, []))
