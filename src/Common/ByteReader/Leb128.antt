-- ===== src/Common/ByteReader/Leb128.antt =====
-- Unsigned LEB128 numbers read back: `ByteReader::readUleb128` of src/common/byte_reader.cc.
use fn_finder.Base.{
  ℕ, zero, suc, ◌+◌, ◌*◌, ◌/◌, ◌%◌, ◌^◌, ◌≤◌, ◌<◌, ◌≡◌, ap, List, [], ◌∷◌, ◌++◌, arith, length, ltb,
  if◌then◌else◌, drop, length-append, Bool-cases, inl, inr,
}
use fn_finder.Base.Words.{IsU64}
use fn_finder.Common.Result.{done}
use fn_finder.Common.ByteReader.{
  ByteReader, advance, remaining, in_bounds, ensure, u8, read_u8, read_uleb128, leb_loop,
}
use fn_finder.Common.ByteReader.Bounds.{length-drop, drop_head}
use native.Mathlib.Nat.{div-add-mod}
use native.Mathlib.Numerals.{towards_suc}

-- The shortest encoding of a number below `128 ^ (k + 1)`.
unfoldable pub uleb128 : ℕ → ℕ → List ℕ
uleb128 zero w = w ∷ []
uleb128 (suc k) w =
    let rest = uleb128 k (w / 128) in if ltb w 128 then w ∷ [] else (w % 128 + 128) ∷ rest

read_u8-drop :
    (r : ByteReader) (b : ℕ) (rest : List ℕ)
    → drop r.position r.bytes ≡ b ∷ rest
    → read_u8 r ≡ done (b, advance r 1)
unfolding read_u8 u8 ensure in_bounds
read_u8-drop r b rest h = ground (arith, drop_head r.position r.bytes b rest h)

pub next_group : (bit : ℕ) → 2 ^ (bit + 7) ≡ 2 ^ bit * 128
next_group bit = simp towards_suc (omega arith)

-- A number at a bit is its low seven bits there and its rest at the next group's bit.
pub groups_of : (bit v : ℕ) → v % 128 * 2 ^ bit + v / 128 * 2 ^ (bit + 7) ≡ v * 2 ^ bit
groups_of bit v =
    let whole = ap (λ u. u * 2 ^ bit) (div-add-mod v 128) in
    let next = ap (λ u. v / 128 * u) (next_group bit) in omega (arith, whole, next)

-- Where the loop stands after an encoded number: its value is added at the current shift.
abbrev Reads : (fuel result shift k w : ℕ) → ByteReader → Type 0
Reads fuel result shift k w r =
    (s : ℕ) × (b : ℕ) × (leb_loop fuel result shift r
      ≡ done ((result + w * 2 ^ shift, s, b), advance r (length (uleb128 k w))))

pub last_group :
    (fuel result shift k w : ℕ) (r : ByteReader) (rest : List ℕ)
    → w < 128
    → shift ≤ 63
    → IsU64 (result + w * 2 ^ shift)
    → drop r.position r.bytes ≡ w ∷ rest
    → leb_loop (suc fuel) result shift r
      ≡ done ((result + w * 2 ^ shift, shift + 7, w), advance r 1)
unfolding leb_loop
last_group fuel result shift k w r rest hw hs fits h = ground (arith, read_u8-drop r w rest h)

pub inner_group :
    (fuel result shift g : ℕ) (r : ByteReader) (rest : List ℕ)
    → g < 128
    → shift ≤ 63
    → IsU64 (result + g * 2 ^ shift)
    → drop r.position r.bytes ≡ (g + 128) ∷ rest
    → leb_loop (suc fuel) result shift r
      ≡ leb_loop fuel (result + g * 2 ^ shift) (shift + 7) (advance r 1)
unfolding leb_loop
inner_group fuel result shift g r rest hg hs fits h =
    ground (arith, read_u8-drop r (g + 128) rest h)

pub next_power : (k : ℕ) → 128 ^ suc (suc k) ≡ 128 * 128 ^ suc k
next_power k = omega arith

leb_loop-uleb128 :
    (fuel result shift k w : ℕ) (r : ByteReader) (rest : List ℕ)
    → w < 128 ^ suc k
    → shift + 7 * k ≤ 63
    → IsU64 (result + w * 2 ^ shift)
    → length (uleb128 k w) ≤ fuel
    → drop r.position r.bytes ≡ uleb128 k w ++ rest
    → Reads fuel result shift k w r
unfolding uleb128
leb_loop-uleb128 zero result shift zero w r rest hw hs fits hf h = absurd (omega arith)
leb_loop-uleb128 zero result shift (suc k) w r rest hw hs fits hf h = absurd (ground arith)
leb_loop-uleb128 (suc fuel) result shift zero w r rest hw hs fits hf h =
    (shift + 7, w, last_group fuel result shift zero w r rest (omega arith) (omega arith) fits h)
leb_loop-uleb128 (suc fuel) result shift (suc k) w r rest hw hs fits hf h =
    elim (Bool-cases (ltb w 128)) [
      | inl e ↦ (
        shift + 7,
        w,
        rw e (
            last_group fuel result shift zero w r rest (ground arith) (omega arith) fits
              (ground arith)),
      )
      | inr e ↦
          let split = groups_of shift w in
          let h' : drop r.position r.bytes ≡ (w % 128 + 128) ∷ (uleb128 k (w / 128) ++ rest) =
            ground arith in
          let (s, b, eq) =
            leb_loop-uleb128 fuel (result + w % 128 * 2 ^ shift) (shift + 7) k (w / 128)
              (advance r 1) rest (omega (arith, next_power k)) (omega arith) (omega arith)
              (ground arith)
              (ground (
                arith,
                drop_head r.position r.bytes (w % 128 + 128) (uleb128 k (w / 128) ++ rest) h',
              )) in
          (
            s,
            b,
            ground (arith, inner_group fuel result shift (w % 128) r (uleb128 k (w / 128) ++ rest)),
          )
    ]

-- `readUleb128` reads back the encoding of any 64-bit number that stands at the position, and moves
-- the position behind it.
pub read_uleb128-uleb128 :
    (r : ByteReader) (v : ℕ) (rest : List ℕ)
    → IsU64 v
    → drop r.position r.bytes ≡ uleb128 9 v ++ rest
    → read_uleb128 r ≡ done (v, advance r (length (uleb128 9 v)))
unfolding read_uleb128
read_uleb128-uleb128 r v rest hv h =
    let (s, b, eq) =
      leb_loop-uleb128 (remaining r) 0 0 9 v r rest (omega arith) (omega arith) (omega arith)
        (ground
          (arith, ap length h, length-drop r.position r.bytes, length-append (uleb128 9 v) rest))
        h in
    ground arith
