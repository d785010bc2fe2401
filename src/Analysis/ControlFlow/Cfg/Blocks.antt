-- ===== src/Analysis/ControlFlow/Cfg/Blocks.antt =====
-- Basic blocks and the finished graph: `appendSuccessors`, `buildBlocks` and the end of `build` in
-- src/analysis/control_flow/cfg_builder.cc, with basic_block.h and control_flow_graph.{h,cc}.
use fn_finder.Base.{
  ℕ, Bool, true, false, not, ◌&&◌, ◌||◌, List, [], ◌∷◌, ◌++◌, Option, none, some, ◌==◌,
  if◌then◌else◌, length,
}
use fn_finder.Base.Words.{Address}
use fn_finder.Base.Sets
use fn_finder.Base.Maps.{find, assign, emplace}
use fn_finder.Disasm.Instruction.{FlowType, Decoder}
use fn_finder.Analysis.CodeMap.{CodeMap}
use fn_finder.Analysis.ControlFlow.Instructions.{
  DecodedInstruction, InstructionCache, end_address, is_block_terminator, cache_at,
}

pub data EdgeKind : Type 0 where
  fall_through branch_taken call_return : EdgeKind

pub record SuccessorEdge : Type 0 where
  pub target : Address
  pub kind : EdgeKind

pub record BasicBlock : Type 0 where
  pub start : Address
  pub end : Address
  pub terminator_flow : FlowType
  pub successors : List SuccessorEdge

pub record ControlFlowGraph : Type 0 where
  pub entry : Address
  pub blocks : List (ℕ × BasicBlock)
  pub covered_instructions : List ℕ
  pub extent_end : Address
  pub truncated : Bool
  pub reaches_return : Bool

-- `addIfCovered`, as the edges that it appends.
unfoldable pub edge_if_covered : List ℕ → Address → EdgeKind → List SuccessorEdge
unfolding Sets.contains
edge_if_covered covered target kind =
    if Sets.contains target covered then record { target = target; kind = kind } ∷ [] else []

-- `appendSuccessors` to an empty list.
unfoldable pub append_successors : DecodedInstruction → FlowType → List ℕ → List SuccessorEdge
unfolding edge_if_covered
append_successors i FlowType.sequential covered =
    edge_if_covered covered (end_address i) fall_through
append_successors i FlowType.direct_call covered =
    edge_if_covered covered (end_address i) call_return
append_successors i FlowType.indirect_call covered =
    edge_if_covered covered (end_address i) call_return
append_successors i FlowType.conditional_branch covered =
    (if i.has_target then edge_if_covered covered i.target branch_taken else [])
    ++ edge_if_covered covered (end_address i) fall_through
append_successors i FlowType.unconditional_branch covered =
    if i.has_target then edge_if_covered covered i.target branch_taken else []
append_successors i FlowType.indirect_branch covered = []
append_successors i FlowType.return covered = []

abbrev pub is_branch : FlowType → Bool
is_branch FlowType.conditional_branch = true
is_branch FlowType.unconditional_branch = true
is_branch _ = false

-- The leaders that one covered instruction adds.
unfoldable pub add_leaders : List ℕ → DecodedInstruction → List ℕ → List ℕ
unfolding Sets.contains Sets.insert
add_leaders covered i leaders =
    if not (is_block_terminator i.flow)
    then leaders
    else let behind =
        if Sets.contains (end_address i) covered
        then Sets.insert (end_address i) leaders
        else leaders in
      if is_branch i.flow && i.has_target && Sets.contains i.target covered
      then Sets.insert i.target behind
      else behind

-- The second loop's variables: the blocks, the key of `current`, and `previousEnd`.
pub record BlockState : Type 0 where
  pub blocks : List (ℕ × BasicBlock)
  pub current : Option Address
  pub previous_end : Address

unfoldable pub starts_block : List ℕ → BlockState → Address → Bool
unfolding Sets.contains
starts_block leaders s a = elim s.current [
  | none ↦ true
  | some _ ↦ Sets.contains a leaders || not (a == s.previous_end)
]

-- `current->end = …` and the lines behind it, on the block of the given key.
unfoldable pub extend_block :
    List ℕ → List (ℕ × BasicBlock) → Address → DecodedInstruction → List (ℕ × BasicBlock)
unfolding find assign append_successors
extend_block covered blocks key i = elim (find key blocks) [
  | none ↦ blocks
  | some block ↦
      assign key
        (record {
          start = block.start;
          end = end_address i;
          terminator_flow = i.flow;
          successors = append_successors i i.flow covered;
        })
        blocks
]

unfoldable pub new_block : Address → BasicBlock
new_block a = record { start = a; end = 0; terminator_flow = FlowType.sequential; successors = [] }

unfoldable pub add_instruction :
    List ℕ → List ℕ → BlockState → Address → DecodedInstruction → BlockState
unfolding starts_block extend_block emplace new_block
add_instruction covered leaders s a i =
    let fresh = starts_block leaders s a in
    let key = if fresh then a else elim s.current [ none ↦ a | some k ↦ k ] in
    let blocks = if fresh then emplace a (new_block a) s.blocks else s.blocks in
    record {
      blocks = extend_block covered blocks key i;
      current = some key;
      previous_end = end_address i;
    }

module _ (m : CodeMap) (decode : Decoder) (covered : List ℕ) where
  unfoldable pub collect_leaders : InstructionCache → List ℕ → List ℕ → InstructionCache × List ℕ
  unfolding add_leaders cache_at
  collect_leaders cache [] leaders = (cache, leaders)
  collect_leaders cache (a ∷ rest) leaders =
      let (cache', found) = cache_at m decode cache a in
      collect_leaders cache' rest
        (elim found [ none ↦ leaders | some i ↦ add_leaders covered i leaders ])

  unfoldable pub fill_blocks :
      List ℕ → InstructionCache → List ℕ → BlockState → InstructionCache × BlockState
  unfolding add_instruction cache_at
  fill_blocks leaders cache [] s = (cache, s)
  fill_blocks leaders cache (a ∷ rest) s =
      let (cache', found) = cache_at m decode cache a in
      fill_blocks leaders cache' rest
        (elim found [ none ↦ s | some i ↦ add_instruction covered leaders s a i ])

  -- `buildBlocks`, which walks over the covered addresses in ascending order.
  unfoldable pub build_blocks :
      Address → InstructionCache → InstructionCache × List (ℕ × BasicBlock)
  unfolding collect_leaders fill_blocks Sets.insert
  build_blocks entry cache =
      if length covered == 0
      then (cache, [])
      else let (cache1, leaders) = collect_leaders cache covered (Sets.insert entry []) in
        let (cache2, s) =
          fill_blocks leaders cache1 covered
            (record { blocks = []; current = none; previous_end = 0 }) in
        (cache2, s.blocks)
