-- ===== src/Disasm/Capstone.antt =====
-- The disassembler on top of the vendored library: src/disasm/capstone_disassembler.h and
-- capstone_disassembler.cc. The library's `cs_disasm_iter` is a parameter, and what it leaves in a
-- `cs_insn` a record of the fields that the code reads. Closing the library is left out.
use fn_finder.Base.{
  ℕ, ◌≡◌, refl, Bool, true, false, not, ◌&&◌, ◌||◌, List, [], ◌∷◌, Option, none, some, ltb,
  if◌then◌else◌, Bool-cases, Option-cases, inl, inr, arith, ◌++◌, All, sym, ap, ◌∙◌,
}
use fn_finder.Base.Words.{Address, instruction_size}
use fn_finder.Common.Result.{Result, require, ◌>>◌, disassembler_error}
use fn_finder.Disasm.Instruction.{FlowType, Instruction, Decoder}
use fn_finder.Disasm.Mnemonics.{
  is_conditional_branch, is_return, is_indirect_call, is_indirect_branch,
}

-- An immediate operand holds the pattern of its 64 bits.
pub data CsOperand : Type 0 where
  immediate : ℕ → CsOperand
  other : CsOperand

-- The groups of an instruction, and its operands.
pub record CsDetail : Type 0 where
  pub jump : Bool
  pub call : Bool
  pub ret : Bool
  pub branch_relative : Bool
  pub operands : List CsOperand

pub record CsInstruction : Type 0 where
  pub address : Address
  pub size : ℕ
  pub mnemonic : List ℕ
  pub op_str : List ℕ
  pub detail : Option CsDetail

-- `cs_disasm_iter` on the bytes at a pointer, their count, and the address.
abbrev pub CsDisasmIter : Type 0
CsDisasmIter = List ℕ → ℕ → Address → Option CsInstruction

-- The constructor: whether `cs_open` succeeds, and whether `cs_malloc` gives a buffer.
unfoldable pub open_disassembler : (opened allocated : Bool) → Result (Unit {0})
open_disassembler opened allocated = do
  require opened disassembler_error
  require allocated disassembler_error

unfoldable pub flow_of : List ℕ → CsDetail → FlowType
unfolding is_conditional_branch is_return is_indirect_call is_indirect_branch
flow_of mnemonic d =
    if d.ret || is_return mnemonic
    then FlowType.return
    else if is_indirect_call mnemonic
    then FlowType.indirect_call
    else if is_indirect_branch mnemonic
    then FlowType.indirect_branch
    else if d.call
    then (if d.branch_relative then FlowType.direct_call else FlowType.indirect_call)
    else if d.jump
    then (if not d.branch_relative
        then FlowType.indirect_branch
        else if is_conditional_branch mnemonic
        then FlowType.conditional_branch
        else FlowType.unconditional_branch)
    else FlowType.sequential

abbrev pub wants_target : FlowType → Bool
wants_target FlowType.conditional_branch = true
wants_target FlowType.unconditional_branch = true
wants_target FlowType.direct_call = true
wants_target FlowType.sequential = false
wants_target FlowType.indirect_branch = false
wants_target FlowType.indirect_call = false
wants_target FlowType.return = false

-- The last immediate operand.
unfoldable pub last_immediate : List CsOperand → Option ℕ
last_immediate [] = none
last_immediate (o ∷ os) = elim (last_immediate os) [
  | some v ↦ some v
  | none ↦ elim o [ immediate v ↦ some v | other ↦ none ]
]

-- `out` in front of `classify`.
abbrev raw_instruction : CsInstruction → Instruction
raw_instruction i = record {
  address = i.address;
  size = i.size;
  mnemonic = i.mnemonic;
  operands = i.op_str;
  flow = FlowType.sequential;
  has_target = false;
  target = 0;
}

abbrev pub target_of : FlowType → CsDetail → Option ℕ
target_of flow d =
    if wants_target flow && d.branch_relative then last_immediate d.operands else none

unfoldable pub with_target : Instruction → Option ℕ → Instruction
with_target i none = i
with_target i (some v) = record i { has_target = true; target = v }

unfoldable pub classify : CsInstruction → Instruction → Instruction
unfolding flow_of last_immediate with_target
classify i out = elim i.detail [
  | none ↦ out
  | some d ↦
      let flow = flow_of i.mnemonic d in with_target (record out { flow = flow }) (target_of flow d)
]

unfoldable pub decode_with : CsDisasmIter → Decoder
unfolding classify
decode_with cs_disasm_iter code size address =
    if ltb size instruction_size then none else elim (cs_disasm_iter code size address) [
      | none ↦ none
      | some i ↦ some (classify i (raw_instruction i))
    ]

-- What `decode_with` returns comes of an instruction of the library.
decode_with_cases :
    (cs_disasm_iter : CsDisasmIter) (code : List ℕ) (size addr : ℕ) (i : Instruction)
    → decode_with cs_disasm_iter code size addr ≡ some i
    → (c : CsInstruction) × (cs_disasm_iter code size addr ≡ some c)
      × (i ≡ classify c (raw_instruction c))
unfolding decode_with
decode_with_cases cs_disasm_iter code size addr i e =
    elim (Bool-cases (ltb size instruction_size)) [
      | inl b ↦ cc
      | inr b ↦ elim (Option-cases (cs_disasm_iter code size addr)) [
        | inl q ↦ cc
        | inr (c, q) ↦ (c, q, cc)
      ]
    ]

-- The immediate operand with no immediate behind it.
abbrev pub HasLastImmediate : List CsOperand → ℕ → Type 0
HasLastImmediate operands v =
    (before : List CsOperand) × (after : List CsOperand) × (operands
      ≡ before ++ immediate v ∷ after)
    × All (λ o. o ≡ other) after

last_immediate-none : (os : List CsOperand) → last_immediate os ≡ none → All (λ o. o ≡ other) os
unfolding last_immediate
last_immediate-none [] e = tt
last_immediate-none (immediate w ∷ os) e = elim (Option-cases (last_immediate os)) [
  | inr (v, q) ↦ cc
  | inl q ↦ cc
]
last_immediate-none (other ∷ os) e = elim (Option-cases (last_immediate os)) [
  | inr (v, q) ↦ cc
  | inl q ↦ (refl, last_immediate-none os q)
]

first_immediate :
    (o : CsOperand) (os : List CsOperand) (v : ℕ)
    → last_immediate (o ∷ os) ≡ some v
    → last_immediate os ≡ none
    → o ∷ os ≡ immediate v ∷ os
unfolding last_immediate
first_immediate (immediate w) os v e q = cc
first_immediate other os v e q = cc

last_immediate-some :
    (os : List CsOperand) (v : ℕ) → last_immediate os ≡ some v → HasLastImmediate os v
unfolding last_immediate
last_immediate-some [] v e = cc
last_immediate-some (o ∷ os) v e = elim (Option-cases (last_immediate os)) [
  | inr (w, q) ↦
      let (before, after, p, h) = last_immediate-some os v cc in
      (o ∷ before, after, ap (λ r. o ∷ r) p, h)
  | inl q ↦ ([], os, first_immediate o os v e q, last_immediate-none os q)
]

-- The target that an instruction gets from `target_of` is one of a relative branch.
target_of-some :
    (flow : FlowType) (d : CsDetail) (v : ℕ)
    → target_of flow d ≡ some v
    → (wants_target flow ≡ true) × (d.branch_relative ≡ true) × HasLastImmediate d.operands v
target_of-some flow d v e = elim (Bool-cases (wants_target flow && d.branch_relative)) [
  | inl b ↦ (ground arith, ground arith, last_immediate-some d.operands v cc)
  | inr b ↦ cc
]

classify_detail :
    (c : CsInstruction) (d : CsDetail) (out : Instruction)
    → c.detail ≡ some d
    → classify c out
      ≡ with_target
          (record out { flow = flow_of c.mnemonic d })
          (target_of (flow_of c.mnemonic d) d)
unfolding classify
classify_detail c d out e = rw e refl

classify_no_detail :
    (c : CsInstruction) (out : Instruction) → c.detail ≡ none → classify c out ≡ out
unfolding classify
classify_no_detail c out e = rw e refl

-- An instruction with a target has it from `target_of`.
with_target_has :
    (out : Instruction) (o : Option ℕ)
    → out.has_target ≡ false
    → (with_target out o).has_target ≡ true
    → o ≡ some (with_target out o).target
unfolding with_target
with_target_has out none n t = cc
with_target_has out (some v) n t = refl

with_target_flow : (out : Instruction) (o : Option ℕ) → (with_target out o).flow ≡ out.flow
unfolding with_target
with_target_flow out none = refl
with_target_flow out (some v) = refl

-- The instruction that `classify` leaves has a target.
classify_has_target :
    (c : CsInstruction) (i : Instruction)
    → i ≡ classify c (raw_instruction c)
    → i.has_target ≡ true
    → (d : CsDetail) × (c.detail ≡ some d) × (target_of i.flow d ≡ some i.target)
classify_has_target c i r t = elim (Option-cases c.detail) [
  | inl n ↦
      let p : i ≡ raw_instruction c = r ∙ classify_no_detail c (raw_instruction c) n in
      let z : false ≡ true = sym (ap (λ (x : Instruction). x.has_target) p) ∙ t in cc
  | inr (d, n) ↦
      let flow = flow_of c.mnemonic d in
      let out : Instruction = record (raw_instruction c) { flow = flow } in
      let p : i ≡ with_target out (target_of flow d) =
        r ∙ classify_detail c d (raw_instruction c) n in
      let f : i.flow ≡ flow =
        ap (λ (x : Instruction). x.flow) p ∙ with_target_flow out (target_of flow d) in
      let s : (with_target out (target_of flow d)).has_target ≡ true =
        sym (ap (λ (x : Instruction). x.has_target) p) ∙ t in
      (
        d,
        n,
        ap (λ g. target_of g d) f
            ∙ with_target_has out (target_of flow d) refl s
            ∙ ap (λ (x : Instruction). some x.target) (sym p),
      )
]

-- A decoded instruction has a target only if it is a branch or a direct call and the library puts it
-- in the relative group; the target is then the last of the immediate operands.
pub decode_with-target :
    (cs_disasm_iter : CsDisasmIter) (code : List ℕ) (size addr : ℕ) (i : Instruction)
    → decode_with cs_disasm_iter code size addr ≡ some i
    → i.has_target ≡ true
    → (wants_target i.flow ≡ true)
      × ((c : CsInstruction) × (d : CsDetail) × (cs_disasm_iter code size addr ≡ some c)
          × (c.detail ≡ some d)
          × (d.branch_relative ≡ true)
          × HasLastImmediate d.operands i.target)
decode_with-target cs_disasm_iter code size addr i e t =
    let (c, q, r) = decode_with_cases cs_disasm_iter code size addr i e in
    let (d, n, m) = classify_has_target c i r t in
    let (w, b, l) = target_of-some i.flow d i.target m in (w, (c, d, q, n, b, l))
