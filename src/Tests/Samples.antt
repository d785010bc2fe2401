-- ===== src/Tests/Samples.antt =====
-- A small image and a decoder to run the model on.
use fn_finder.Base.{
  ℕ, ◌+◌, ◌*◌, ◌≡◌, refl, List, [], ◌∷◌, none, some, true, false, if◌then◌else◌, ltb, ◌==◌, arith,
  get_or,
}
use fn_finder.Base.Words.{instruction_size}
use fn_finder.Elf.Types.{ElfSection, ElfImage}
use fn_finder.Disasm.Instruction.{FlowType, Decoder, IsAarch64}
use fn_finder.Analysis.CodeMap.{CodeMap, CodeRegion, make_code_map}

-- `nop; ret`, twice.
abbrev pub sample_bytes : List ℕ
sample_bytes =
    0x1f ∷ 0x20 ∷ 0x03 ∷ 0xd5 ∷ 0xc0 ∷ 0x03 ∷ 0x5f ∷ 0xd6 ∷ 0x1f ∷ 0x20 ∷ 0x03 ∷ 0xd5 ∷ 0xc0 ∷ 0x03
    ∷ 0x5f ∷ 0xd6 ∷ []

abbrev pub sample_section : ElfSection
sample_section = record {
  name = [];
  type = 1;
  flags = 6;
  address = 0x1000;
  file_offset = 0;
  size = 16;
  link = 0;
  info = 0;
  entry_size = 0;
}

abbrev pub sample_image : ElfImage
sample_image = record {
  bytes = sample_bytes;
  entry_point = 0x1000;
  machine = 183;
  type = 2;
  little_endian = true;
  sections = sample_section ∷ [];
  segments = [];
  symbols = [];
}

abbrev pub sample_region : CodeRegion
sample_region = record { start = 0x1000; end = 0x1010; offset = 0 }

abbrev pub sample_map : CodeMap
sample_map = record {
  bytes = sample_bytes;
  regions = sample_region ∷ [];
  lowest = 0x1000;
  highest = 0x1010;
}

sample_map_made : make_code_map sample_image ≡ sample_map
unfolding make_code_map fn_finder.Elf.Image.data_at
sample_map_made = refl

-- A decoder that knows `ret` and takes every other word for a sequential instruction.
abbrev pub flow_of : ℕ → FlowType
flow_of word = if word == 0xd65f03c0 then FlowType.return else FlowType.sequential

abbrev pub sample_decode : Decoder
sample_decode code size addr =
    if ltb size instruction_size
    then none
    else some (record {
      address = addr;
      size = 4;
      mnemonic = [];
      operands = [];
      flow = flow_of (
          get_or code 0 0
          + get_or code 1 0 * 0x100
          + get_or code 2 0 * 0x10000
          + get_or code 3 0 * 0x1000000);
      has_target = false;
      target = 0;
    })

pub sample_decode-IsAarch64 : IsAarch64 sample_decode
sample_decode-IsAarch64 = record {
  located = λ code size addr i h. ground arith;
  fixed = λ code size addr i h. ground arith;
}
