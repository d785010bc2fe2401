-- ===== src/Common/ByteReader.antt =====
-- The byte reader: src/common/byte_reader.h and byte_reader.cc. The bytes behind `data_` are the
-- list, `size_` is its length. Bytes that are joined by `|` share no bits, so `|` is `+`. A signed
-- result is the pattern of 64 bits that its conversion to `uint64_t` gives.
pub mod Bounds
pub mod Leb128
pub mod Strings
pub mod SignedLeb128
use fn_finder.Base.{
  ℕ, zero, suc, ◌+◌, ◌-◌, ◌*◌, ◌%◌, ◌^◌, Bool, true, false, not, ◌&&◌, List, [], ◌∷◌, ltb, leb,
  ◌==◌, if◌then◌else◌, length, get_or, drop,
}
use fn_finder.Base.Words.{add64, u64_mod}
use fn_finder.Common.Result.{StatusCode, Result, failure, done, ◌>>=◌, ◌>>◌, require, malformed_elf}

pub record ByteReader : Type 0 where
  pub bytes : List ℕ
  pub position : ℕ

abbrev pub make_reader : List ℕ → ByteReader
make_reader bytes = record { bytes = bytes; position = 0 }

abbrev pub size : ByteReader → ℕ
size r = length r.bytes

abbrev pub remaining : ByteReader → ℕ
remaining r = size r - r.position

unfoldable pub in_bounds : ByteReader → (offset count : ℕ) → Bool
in_bounds r offset count = if ltb (size r) offset then false else leb count (size r - offset)

-- `BufferOverrunError` carries `kMalformedElf`.
unfoldable pub ensure : ByteReader → (offset count : ℕ) → Result (Unit {0})
unfolding in_bounds
ensure r offset count = require (in_bounds r offset count) malformed_elf

-- `data_[offset]`, behind a check of the bounds.
abbrev pub byte_at : ByteReader → ℕ → ℕ
byte_at r offset = get_or r.bytes offset 0

unfoldable pub u8 : ByteReader → ℕ → Result ℕ
unfolding ensure
u8 r offset = do ensure r offset 1; done (byte_at r offset)

unfoldable pub u16 : ByteReader → ℕ → Result ℕ
unfolding ensure
u16 r offset = do ensure r offset 2; done (byte_at r offset + byte_at r (offset + 1) * 0x100)

unfoldable pub u32 : ByteReader → ℕ → Result ℕ
unfolding ensure
u32 r offset = do
  ensure r offset 4
  done (
      byte_at r offset
      + byte_at r (offset + 1) * 0x100
      + byte_at r (offset + 2) * 0x1_0000
      + byte_at r (offset + 3) * 0x100_0000)

-- `value = (value << 8) | byte` for `count` bytes, from the last one down.
unfoldable pub join_bytes : ByteReader → (offset count value : ℕ) → ℕ
join_bytes r offset zero value = value
join_bytes r offset (suc i) value =
    join_bytes r offset i (value * 0x100 % u64_mod + byte_at r (offset + i))

unfoldable pub u64 : ByteReader → ℕ → Result ℕ
unfolding ensure join_bytes
u64 r offset = do ensure r offset 8; done (join_bytes r offset 8 0)

-- The bytes in front of the first zero byte.
unfoldable pub until_zero : List ℕ → List ℕ
until_zero [] = []
until_zero (b ∷ bs) = let rest = until_zero bs in if b == 0 then [] else b ∷ rest

unfoldable pub string_at : ByteReader → ℕ → Result (List ℕ)
unfolding ensure until_zero
string_at r offset = do ensure r offset 0; done (until_zero (drop offset r.bytes))

unfoldable pub seek : ByteReader → ℕ → Result ByteReader
seek r position =
    if ltb (size r) position then failure malformed_elf else done (record r { position = position })

unfoldable pub skip : ByteReader → ℕ → Result ByteReader
unfolding seek
skip r count = seek r (add64 r.position count)

abbrev pub advance : ByteReader → ℕ → ByteReader
advance r count = record r { position = r.position + count }

-- The reads at the position, which they move past what they read.
unfoldable pub read_u8 : ByteReader → Result (ℕ × ByteReader)
unfolding u8
read_u8 r = do value ← u8 r r.position; done (value, advance r 1)

unfoldable pub read_u16 : ByteReader → Result (ℕ × ByteReader)
unfolding u16
read_u16 r = do value ← u16 r r.position; done (value, advance r 2)

unfoldable pub read_u32 : ByteReader → Result (ℕ × ByteReader)
unfolding u32
read_u32 r = do value ← u32 r r.position; done (value, advance r 4)

unfoldable pub read_u64 : ByteReader → Result (ℕ × ByteReader)
unfolding u64
read_u64 r = do value ← u64 r r.position; done (value, advance r 8)

-- The pattern of 64 bits of a signed number of `half * 2` patterns.
abbrev pub sign_extend : (half value : ℕ) → ℕ
sign_extend half value = if ltb value half then value else value + u64_mod - half * 2

unfoldable pub read_s8 : ByteReader → Result (ℕ × ByteReader)
unfolding read_u8
read_s8 r = do (value, r') ← read_u8 r; done (sign_extend 0x80 value, r')

unfoldable pub read_s16 : ByteReader → Result (ℕ × ByteReader)
unfolding read_u16
read_s16 r = do (value, r') ← read_u16 r; done (sign_extend 0x8000 value, r')

unfoldable pub read_s32 : ByteReader → Result (ℕ × ByteReader)
unfolding read_u32
read_s32 r = do (value, r') ← read_u32 r; done (sign_extend 0x8000_0000 value, r')

-- The pattern of a 64-bit number is the number read.
unfoldable pub read_s64 : ByteReader → Result (ℕ × ByteReader)
unfolding read_u64
read_s64 r = read_u64 r

-- `if (shift < 64) { result |= (byte & 0x7f) << shift; shift += 7; }`
abbrev pub add_group : (result shift byte : ℕ) → ℕ
add_group result shift byte =
    if ltb shift 64 then result + byte % 128 * 2 ^ shift % u64_mod else result

abbrev pub next_shift : ℕ → ℕ
next_shift shift = if ltb shift 64 then shift + 7 else shift

-- The loop that both LEB128 reads share, one byte a round: the result, the shift, the last byte.
-- The fuel is the count of bytes that remain; with none left, the read of a byte throws.
unfoldable pub leb_loop : (fuel result shift : ℕ) → ByteReader → Result ((ℕ × ℕ × ℕ) × ByteReader)
unfolding read_u8
leb_loop zero result shift r = failure malformed_elf
leb_loop (suc fuel) result shift r = do
  (byte, r') ← read_u8 r
  elim (ltb byte 128) [
    | true ↦ done ((add_group result shift byte, next_shift shift, byte), r')
    | false ↦ leb_loop fuel (add_group result shift byte) (next_shift shift) r'
  ]

unfoldable pub read_uleb128 : ByteReader → Result (ℕ × ByteReader)
unfolding leb_loop
read_uleb128 r = do ((result, shift, byte), r') ← leb_loop (remaining r) 0 0 r; done (result, r')

-- `result |= ~0 << shift` if bit 6 of the last byte is set.
abbrev pub extend_sign : (result shift byte : ℕ) → ℕ
extend_sign result shift byte =
    if ltb shift 64 && leb 64 (byte % 128) then result + (u64_mod - 2 ^ shift) else result

unfoldable pub read_sleb128 : ByteReader → Result (ℕ × ByteReader)
unfolding leb_loop
read_sleb128 r = do
  ((result, shift, byte), r') ← leb_loop (remaining r) 0 0 r
  done (extend_sign result shift byte, r')

unfoldable pub read_c_string : ByteReader → Result (List ℕ × ByteReader)
unfolding string_at
read_c_string r = do
  value ← string_at r r.position
  let end = r.position + length value
  done (
    value,
    record r { position = if ltb end (size r) && byte_at r end == 0 then end + 1 else end },
  )
