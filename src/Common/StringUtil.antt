-- ===== src/Common/StringUtil.antt =====
-- Text helpers: src/common/string_util.h and string_util.cc. A string is the list of its bytes.
pub mod Hex
use fn_finder.Base.{
  ℕ, zero, suc, ◌+◌, ◌-◌, ◌*◌, ◌/◌, ◌%◌, ◌^◌, ◌<◌, ◌≡◌, refl, sym, ap, ◌∙◌, Bool, true, false, ◌&&◌,
  List, [], ◌∷◌, ◌++◌, ltb, leb, ◌==◌, if◌then◌else◌, length, get_or, take, drop, replicate,
  text_eq, arith, ◌||◌, reverse, Bool-cases, inl, inr,
}
use fn_finder.Base.Words.{IsU64}

-- "0123456789abcdef" and "0123456789ABCDEF".
abbrev pub hex_digits : (upper : Bool) → List ℕ
hex_digits upper =
    let a = if upper then 0x41 else 0x61 in
    0x30
    ∷ 0x31
    ∷ 0x32
    ∷ 0x33
    ∷ 0x34
    ∷ 0x35
    ∷ 0x36
    ∷ 0x37
    ∷ 0x38
    ∷ 0x39
    ∷ a
    ∷ (a + 1)
    ∷ (a + 2)
    ∷ (a + 3)
    ∷ (a + 4)
    ∷ (a + 5)
    ∷ []

-- The loop over the digits, the last one first, put in front as the reversal does. A 64-bit value
-- has sixteen digits at most.
unfoldable pub hex_loop : (fuel : ℕ) → Bool → (value : ℕ) → (out : List ℕ) → List ℕ
hex_loop zero upper value out = out
hex_loop (suc fuel) upper value out = elim (value == 0) [
  | true ↦ out
  | false ↦ hex_loop fuel upper (value / 16) (get_or (hex_digits upper) (value % 16) 0 ∷ out)
]

unfoldable pub to_hex :
    (value : ℕ) → (with_prefix : Bool) → (min_digits : ℕ) → (upper : Bool) → List ℕ
unfolding hex_loop
to_hex value with_prefix min_digits upper =
    let out = if value == 0 then 0x30 ∷ [] else hex_loop 16 upper value [] in
    let padded =
      if ltb (length out) min_digits
      then replicate (min_digits - length out) 0x30 ++ out
      else out in
    if with_prefix then 0x30 ∷ 0x78 ∷ padded else padded

unfoldable pub starts_with : (text prefix : List ℕ) → Bool
unfolding text_eq
starts_with text prefix =
    leb (length prefix) (length text) && text_eq (take (length prefix) text) prefix

unfoldable pub ends_with : (text suffix : List ℕ) → Bool
unfolding text_eq
ends_with text suffix =
    leb (length suffix) (length text) && text_eq (drop (length text - length suffix) text) suffix

-- `std::isspace` in the C locale.
abbrev is_space : ℕ → Bool
is_space c = c == 0x20 || (leb 0x09 c && leb c 0x0d)

-- `std::find_if` of a byte that is no space, as an index.
unfoldable pub find_not_space : List ℕ → ℕ
find_not_space [] = 0
find_not_space (c ∷ cs) = let rest = find_not_space cs in if is_space c then suc rest else 0

unfoldable pub trim : List ℕ → List ℕ
unfolding find_not_space
trim text =
    let begin = find_not_space text in
    let end = length text - find_not_space (reverse text) in
    if leb end begin then [] else take (end - begin) (drop begin text)
