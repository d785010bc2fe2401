-- ===== src/Common/ByteReader/Bounds.antt =====
-- The reads stay inside the bytes: src/common/byte_reader.cc.
use fn_finder.Base.{
  ℕ, zero, suc, ◌+◌, ◌-◌, ◌≤◌, ◌<◌, get_or, ◌≡◌, ◌↔◌, true, List, [], ◌∷◌, arith, length, drop, inl,
  inr,
}
use fn_finder.Common.Result.{IsDone, Result-cases, done}
use fn_finder.Common.ByteReader.{
  ByteReader, size, remaining, in_bounds, ensure, u8, u32, u64, until_zero, read_u8, read_uleb128,
  leb_loop, add_group, next_shift,
}

-- `inBounds` holds exactly if the range ends inside the bytes, with no wrap-around.
pub in_bounds_iff :
    (r : ByteReader) (offset count : ℕ)
    → (in_bounds r offset count ≡ true) ↔ (offset + count ≤ size r)
unfolding in_bounds
in_bounds_iff r offset count = (λ h. ground arith, λ h. ground arith)

-- The reader `r'` has the bytes of `r`, at a position that is not before that of `r`.
pub record IsAdvanced (r r' : ByteReader) : Type 0 where
  pub same : r'.bytes ≡ r.bytes
  pub forward : r.position ≤ r'.position
  pub inside : r'.position ≤ length r.bytes

pub read_u8-IsAdvanced :
    (r r' : ByteReader) (value : ℕ) → read_u8 r ≡ done (value, r') → IsAdvanced r r'
unfolding read_u8 u8 ensure in_bounds
read_u8-IsAdvanced r r' value h = ground arith

pub leb_loop-IsAdvanced :
    (fuel result shift : ℕ) (r r' : ByteReader) (out : ℕ × ℕ × ℕ)
    → leb_loop fuel result shift r ≡ done (out, r')
    → IsAdvanced r r'
unfolding leb_loop
leb_loop-IsAdvanced zero result shift r r' out h = cc
leb_loop-IsAdvanced (suc fuel) result shift r r' out h = elim (Result-cases (read_u8 r)) [
  | inl (s, e) ↦ ground arith
  | inr ((byte, r1), e) ↦ ground (
    arith,
    read_u8-IsAdvanced r r1 byte e,
    leb_loop-IsAdvanced fuel (add_group result shift byte) (next_shift shift) r1 r' out,
  )
]

until_zero-length : (bs : List ℕ) → length (until_zero bs) ≤ length bs
unfolding until_zero
until_zero-length [] = omega arith
until_zero-length (b ∷ bs) = ground (arith, until_zero-length bs)

pub length-drop : (n : ℕ) (bs : List ℕ) → length (drop n bs) ≡ length bs - n
length-drop zero bs = omega arith
length-drop (suc n) [] = omega arith
length-drop (suc n) (b ∷ bs) = omega (arith, length-drop n bs)

-- An unsigned LEB128 number that is read leaves the bytes as they are and moves the position
-- forward inside them.
pub read_uleb128-IsAdvanced :
    (r r' : ByteReader) (value : ℕ) → read_uleb128 r ≡ done (value, r') → IsAdvanced r r'
unfolding read_uleb128
read_uleb128-IsAdvanced r r' value h = elim (Result-cases (leb_loop (remaining r) 0 0 r)) [
  | inl (s, e) ↦ ground arith
  | inr ((out, r1), e) ↦ ground (arith, leb_loop-IsAdvanced (remaining r) 0 0 r r1 out e)
]

pub u32-IsDone : (r : ByteReader) (offset : ℕ) → offset + 4 ≤ size r → IsDone (u32 r offset)
unfolding u32 ensure in_bounds
u32-IsDone r offset h = ground arith

pub u64-IsDone : (r : ByteReader) (offset : ℕ) → offset + 8 ≤ size r → IsDone (u64 r offset)
unfolding u64 ensure in_bounds
u64-IsDone r offset h = ground arith

pub drop_head :
    (p : ℕ) (bs : List ℕ) (b : ℕ) (rest : List ℕ)
    → drop p bs ≡ b ∷ rest
    → (p < length bs) × (get_or bs p 0 ≡ b) × (drop (suc p) bs ≡ rest)
drop_head zero [] b rest h = cc
drop_head zero (c ∷ bs) b rest h = ground arith
drop_head (suc p) [] b rest h = cc
drop_head (suc p) (c ∷ bs) b rest h = ground (arith, drop_head p bs b rest h)
