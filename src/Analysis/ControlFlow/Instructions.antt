-- ===== src/Analysis/ControlFlow/Instructions.antt =====
-- Code words and the memo of decoded instructions: src/analysis/control_flow/code_patterns.{h,cc},
-- decoded_instruction.h and instruction_cache.{h,cc}.
pub mod Memo
use fn_finder.Base.{
  ℕ, zero, suc, ◌+◌, ◌*◌, ◌%◌, Bool, true, false, not, ◌&&◌, ◌||◌, List, [], ◌∷◌, Option, none,
  some, ltb, ◌==◌, if◌then◌else◌, get_or, take, drop,
}
use fn_finder.Base.Words.{Address, add64, instruction_size}
use fn_finder.Base.Maps.{find, assign}
use fn_finder.Elf.Image.{DataSpan}
use fn_finder.Disasm.Instruction.{FlowType, Instruction, Decoder}
use fn_finder.Analysis.CodeMap.{CodeMap, at}

abbrev pub zero_word : ℕ
zero_word = 0

abbrev pub nop_word : ℕ
nop_word = 0xd503201f

-- The bytes that a pointer of the code map leads to, as many as it reports.
abbrev pub code_bytes : CodeMap → DataSpan → List ℕ
code_bytes m span = take span.available (drop span.offset m.bytes)

-- Four bytes, lowest first; the `|` of shifted bytes is their sum.
abbrev pub word_of : List ℕ → ℕ
word_of p = get_or p 0 0 + get_or p 1 0 * 0x100 + get_or p 2 0 * 0x10000 + get_or p 3 0 * 0x1000000

unfoldable pub read_word : CodeMap → Address → Option ℕ
unfolding at
read_word m addr = elim (at m addr) [
  | none ↦ none
  | some span ↦
      if ltb span.available instruction_size then none else some (word_of (code_bytes m span))
]

unfoldable pub is_padding_word : CodeMap → Address → Bool
unfolding read_word
is_padding_word m addr = elim (read_word m addr) [
  | none ↦ true
  | some word ↦ word == zero_word || word == nop_word
]

unfoldable pub is_hard_stop_word : CodeMap → Address → Bool
unfolding read_word
is_hard_stop_word m addr = elim (read_word m addr) [ none ↦ true | some word ↦ word == zero_word ]

pub record DecodedInstruction : Type 0 where
  pub address : Address
  pub size : ℕ
  pub flow : FlowType
  pub has_target : Bool
  pub target : Address

abbrev pub end_address : DecodedInstruction → Address
end_address i = add64 i.address i.size

abbrev pub is_block_terminator : FlowType → Bool
is_block_terminator FlowType.conditional_branch = true
is_block_terminator FlowType.unconditional_branch = true
is_block_terminator FlowType.indirect_branch = true
is_block_terminator FlowType.return = true
is_block_terminator FlowType.sequential = false
is_block_terminator FlowType.direct_call = false
is_block_terminator FlowType.indirect_call = false

-- The fields that the cache keeps of a decoded instruction.
abbrev pub kept : Instruction → DecodedInstruction
kept i = record {
  address = i.address;
  size = i.size;
  flow = i.flow;
  has_target = i.has_target;
  target = i.target;
}

-- `cache_` binds an address to an entry; `none` is an entry with `valid == false`.
pub record InstructionCache : Type 0 where
  pub cache : List (ℕ × Option DecodedInstruction)
  pub decoded : ℕ

abbrev pub empty_cache : InstructionCache
empty_cache = record { cache = []; decoded = 0 }

module _ (m : CodeMap) (decode : Decoder) where
  -- The read and the decoding behind a miss.
  unfoldable pub decode_at : Address → Option DecodedInstruction
  unfolding at
  decode_at addr = elim (at m addr) [
    | none ↦ none
    | some span ↦
        if ltb span.available instruction_size
        then none
        else elim (decode (code_bytes m span) span.available addr) [
          | none ↦ none
          | some i ↦ some (kept i)
        ]
  ]

  -- The entry that a miss stores, and the count of decoded instructions.
  unfoldable pub store_entry :
      InstructionCache
      → Address
      → Option DecodedInstruction
      → InstructionCache × Option DecodedInstruction
  unfolding assign
  store_entry c addr none = (record c { cache = assign addr none c.cache }, none)
  store_entry c addr (some i) =
      (record { cache = assign addr (some i) c.cache; decoded = c.decoded + 1 }, some i)

  -- `InstructionCache::at`.
  unfoldable pub cache_at :
      InstructionCache → Address → InstructionCache × Option DecodedInstruction
  unfolding store_entry decode_at find
  cache_at c addr =
      if not (addr % instruction_size == 0) then (c, none) else elim (find addr c.cache) [
        | some entry ↦ (c, entry)
        | none ↦ store_entry c addr (decode_at addr)
      ]
