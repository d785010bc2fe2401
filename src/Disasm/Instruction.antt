-- ===== src/Disasm/Instruction.antt =====
-- Decoded instructions and the decoder interface: src/disasm/instruction.h, disassembler.h.
use fn_finder.Base.{ℕ, Bool, true, false, Option, some, List, ◌≡◌}
use fn_finder.Base.Words.{Address, add64, instruction_size}

pub data FlowType : Type 0 where
  sequential : FlowType
  conditional_branch : FlowType
  unconditional_branch : FlowType
  direct_call : FlowType
  indirect_branch : FlowType
  indirect_call : FlowType
  return : FlowType

pub record Instruction : Type 0 where
  pub address : Address
  pub size : ℕ
  pub mnemonic : List ℕ
  pub operands : List ℕ
  pub flow : FlowType
  pub has_target : Bool
  pub target : Address

abbrev pub end_address : Instruction → Address
end_address i = add64 i.address i.size

abbrev pub has_fall_through : FlowType → Bool
has_fall_through FlowType.sequential = true
has_fall_through FlowType.conditional_branch = true
has_fall_through FlowType.direct_call = true
has_fall_through FlowType.indirect_call = true
has_fall_through FlowType.unconditional_branch = false
has_fall_through FlowType.indirect_branch = false
has_fall_through FlowType.return = false

-- `IDisassembler::decode`: the bytes from `code` on, `size` of them, and the address.
abbrev pub Decoder : Type 0
Decoder = List ℕ → ℕ → Address → Option Instruction

-- What an AArch64 decoder documents: an instruction is at the address asked for, and four bytes long.
pub record IsAarch64 (decode : Decoder) : Type 0 where
  pub located :
      (code : List ℕ) (size addr : ℕ) (i : Instruction)
      → decode code size addr ≡ some i
      → i.address ≡ addr
  pub fixed :
      (code : List ℕ) (size addr : ℕ) (i : Instruction)
      → decode code size addr ≡ some i
      → i.size ≡ instruction_size
