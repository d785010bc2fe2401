-- ===== src/Common/ByteReader/SignedLeb128.antt =====
-- Signed LEB128 numbers read back: `ByteReader::readSleb128` of src/common/byte_reader.cc.
use fn_finder.Base.{
  ℕ, zero, suc, ◌+◌, ◌-◌, ◌*◌, ◌/◌, ◌%◌, ◌^◌, ◌≤◌, ◌<◌, ◌≡◌, refl, ap, ◌∙◌, true, false, List, [],
  ◌∷◌, ◌++◌, arith, length, ltb, drop, length-append,
}
use fn_finder.Base.Words.{IsU64, u64_mod}
use fn_finder.Common.Result.{done}
use fn_finder.Common.ByteReader.{ByteReader, advance, remaining, read_sleb128, leb_loop}
use fn_finder.Common.ByteReader.Bounds.{length-drop, drop_head}
use fn_finder.Common.ByteReader.Leb128.{last_group, inner_group, groups_of, next_power, next_group}

-- A signed number: `n` and `-(n + 1)`.
pub data ℤ : Type 0 where
  pos : ℕ → ℤ
  negsuc : ℕ → ℤ

-- Its pattern of 64 bits.
abbrev pub to_u64 : ℤ → ℕ
to_u64 (pos n) = n
to_u64 (negsuc n) = u64_mod - suc n

-- A number below `128 ^ (k + 1)` in exactly `k + 1` groups of seven bits.
unfoldable pub groups : ℕ → ℕ → List ℕ
groups zero w = w ∷ []
groups (suc k) w = (w % 128 + 128) ∷ groups k (w / 128)

-- The two's complement of a number in `k + 1` groups, and the numbers that fit.
unfoldable pub sleb128 : ℕ → ℤ → List ℕ
unfolding groups
sleb128 k (pos n) = groups k n
sleb128 k (negsuc n) = groups k (128 ^ suc k - suc n)

abbrev pub FitsGroups : ℕ → ℤ → Type 0
FitsGroups k (pos n) = n < 64 * 128 ^ k
FitsGroups k (negsuc n) = n < 64 * 128 ^ k

groups-length : (k w : ℕ) → length (groups k w) ≡ suc k
unfolding groups
groups-length zero w = refl
groups-length (suc k) w = ap suc (groups-length k (w / 128))

-- Behind the groups: the number, the shift, and a last byte with its bit 6.
abbrev Ends : (fuel result shift k w : ℕ) → ByteReader → Type 0
Ends fuel result shift k w r =
    (b : ℕ) × (leb_loop fuel result shift r
      ≡ done ((result + w * 2 ^ shift, shift + 7 * suc k, b), advance r (suc k)))
    × (b < 128)
    × (ltb b 64 ≡ ltb w (64 * 128 ^ k))

power_step : (k : ℕ) → 128 ^ suc k ≡ 128 * 128 ^ k
power_step k = omega arith

last_bit : (k w : ℕ) → ltb (w / 128) (64 * 128 ^ k) ≡ ltb w (64 * 128 ^ suc k)
last_bit k w = ground (arith, power_step k)

Ends-before :
    (fuel result shift k w : ℕ) (r : ByteReader) (rest : List ℕ)
    → shift ≤ 63
    → IsU64 (result + w * 2 ^ shift)
    → drop r.position r.bytes ≡ groups (suc k) w ++ rest
    → Ends fuel (result + w % 128 * 2 ^ shift) (shift + 7) k (w / 128) (advance r 1)
    → Ends (suc fuel) result shift (suc k) w r
unfolding groups
Ends-before fuel result shift k w r rest hs fits h (b, eq, low, bit) =
    let split = groups_of shift w in
    let first =
      inner_group fuel result shift (w % 128) r (groups k (w / 128) ++ rest) (omega arith) hs
        (omega arith) h in
    (b, ground (arith, first, eq, split), low, bit ∙ last_bit k w)

leb_loop-groups :
    (fuel result shift k w : ℕ) (r : ByteReader) (rest : List ℕ)
    → w < 128 ^ suc k
    → shift + 7 * k ≤ 63
    → IsU64 (result + w * 2 ^ shift)
    → suc k ≤ fuel
    → drop r.position r.bytes ≡ groups k w ++ rest
    → Ends fuel result shift k w r
unfolding groups
leb_loop-groups zero result shift k w r rest hw hs fits hf h = absurd (omega arith)
leb_loop-groups (suc fuel) result shift zero w r rest hw hs fits hf h = (
  w,
  last_group fuel result shift zero w r rest (omega arith) (omega arith) fits h,
  omega arith,
  ground arith,
)
leb_loop-groups (suc fuel) result shift (suc k) w r rest hw hs fits hf h =
    let split = groups_of shift w in
    let (i, g, d) = drop_head r.position r.bytes (w % 128 + 128) (groups k (w / 128) ++ rest) h in
    Ends-before fuel result shift k w r rest (omega arith) (omega arith) h (
      leb_loop-groups fuel (result + w % 128 * 2 ^ shift) (shift + 7) k (w / 128) (advance r 1) rest
        (omega (arith, next_power k)) (omega arith) (omega arith) (omega arith) (ground (arith, d)))

the_sum : (k : ℕ) → 7 * suc (suc k) ≡ 7 * suc k + 7
the_sum k = omega arith

power_of_groups : (k : ℕ) → 2 ^ (7 * suc k) ≡ 128 ^ suc k
power_of_groups zero = refl
power_of_groups (suc k) =
    omega
      (arith, power_of_groups k, next_group (7 * suc k), next_power k, ap (λ u. 2 ^ u) (the_sum k))

groups-remaining :
    (k w : ℕ) (r : ByteReader) (rest : List ℕ)
    → drop r.position r.bytes ≡ groups k w ++ rest
    → suc k ≤ remaining r
groups-remaining k w r rest h =
    let whole = ap length h in
    let left = length-drop r.position r.bytes in
    let both = length-append (groups k w) rest in let here = groups-length k w in omega arith

groups_mono : (k n : ℕ) → k ≤ n → 128 ^ suc k ≤ 128 ^ suc n
groups_mono zero zero h = omega arith
groups_mono zero (suc n) h = omega (arith, next_power n, groups_mono zero n (omega arith))
groups_mono (suc k) zero h = absurd (omega arith)
groups_mono (suc k) (suc n) h =
    omega (arith, next_power n, next_power k, groups_mono k n (omega arith))

sleb_fits : (k : ℕ) → k ≤ 8 → 128 ^ suc k < u64_mod
sleb_fits k hk = omega (arith, groups_mono k 8 hk)

-- `readSleb128` reads back a signed number that stands at the position as its two's complement in
-- one to nine groups of seven bits, where it fits into them: the result is its pattern of 64 bits,
-- and the position is moved behind the groups.
pub read_sleb128-sleb128 :
    (r : ByteReader) (k : ℕ) (v : ℤ) (rest : List ℕ)
    → k ≤ 8
    → FitsGroups k v
    → drop r.position r.bytes ≡ sleb128 k v ++ rest
    → read_sleb128 r ≡ done (to_u64 v, advance r (suc k))
unfolding read_sleb128 groups sleb128
read_sleb128-sleb128 r k (pos n) rest hk hf h =
    let bound = sleb_fits k hk in
    let (b, eq, low, bit) =
      leb_loop-groups (remaining r) 0 0 k n r rest (omega (arith, power_step k)) (omega arith)
        (omega (arith, power_step k)) (groups-remaining k n r rest h) h in
    let low' : ltb b 64 ≡ true = bit ∙ (ground arith) in ground (arith, eq, low')
read_sleb128-sleb128 r k (negsuc n) rest hk hf h =
    let bound = sleb_fits k hk in
    let w = 128 ^ suc k - suc n in
    let (b, eq, low, bit) =
      leb_loop-groups (remaining r) 0 0 k w r rest (omega (arith, power_step k)) (omega arith)
        (omega (arith, power_step k)) (groups-remaining k w r rest h) h in
    let high : ltb b 64 ≡ false = bit ∙ (ground (arith, power_step k)) in
    ground (arith, eq, high, power_of_groups k, power_step k)
