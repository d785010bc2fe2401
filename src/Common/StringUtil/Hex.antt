-- ===== src/Common/StringUtil/Hex.antt =====
-- `strutil::toHex` of src/common/string_util.cc read back.
use fn_finder.Base.{
  ℕ, zero, suc, ◌+◌, ◌-◌, ◌*◌, ◌/◌, ◌%◌, ◌^◌, ◌<◌, ◌≡◌, refl, sym, subst, ==→eq, ap, ◌∙◌, Bool,
  true, false, ◌&&◌, List, [], ◌∷◌, ltb, ◌==◌, if◌then◌else◌, get_or, arith, Bool-cases, inl, inr,
  length,
}
use fn_finder.Base.Words.{IsU64}
use fn_finder.Common.StringUtil.{hex_digits, hex_loop, to_hex}

-- The value of one digit, and of a text of digits behind `value`.
abbrev digit_value : ℕ → ℕ
digit_value c = if ltb c 0x40 then c - 0x30 else if ltb c 0x60 then c - 0x37 else c - 0x57

abbrev pub hex_value : (value : ℕ) → List ℕ → ℕ
hex_value value [] = value
hex_value value (c ∷ cs) = hex_value (value * 16 + digit_value c) cs

unfoldable agree_below : Bool → ℕ → Bool
agree_below upper zero = true
agree_below upper (suc n) =
    let rest = agree_below upper n in (digit_value (get_or (hex_digits upper) n 0) == n) && rest

agree_below_lem :
    (upper : Bool) (n : ℕ)
    → agree_below upper n ≡ true
    → (d : ℕ) → d < n
    → digit_value (get_or (hex_digits upper) d 0) ≡ d
unfolding agree_below
agree_below_lem upper zero e d h = absurd (omega arith)
agree_below_lem upper (suc n) e d h = elim (Bool-cases (d == n)) [
  | inl q ↦
      let same : d ≡ n = ground arith in
      let here : (digit_value (get_or (hex_digits upper) n 0) == n) ≡ true = ground arith in
      subst (λ k. digit_value (get_or (hex_digits upper) k 0) ≡ k) (sym same)
        (==→eq (digit_value (get_or (hex_digits upper) n 0)) n here)
  | inr q ↦ agree_below_lem upper n (ground arith) d (ground arith)
]

digit_value-hex_digits :
    (upper : Bool) (d : ℕ) → d < 16 → digit_value (get_or (hex_digits upper) d 0) ≡ d
unfolding agree_below
digit_value-hex_digits true d h = agree_below_lem true 16 refl d h
digit_value-hex_digits false d h = agree_below_lem false 16 refl d h

zero_of : (v : ℕ) → v < 16 ^ zero → 0 ≡ v
zero_of v h = omega arith

shorter : (fuel v : ℕ) → v < 16 ^ suc fuel → v / 16 < 16 ^ fuel
shorter fuel v h = omega arith

hex_value-hex_loop :
    (fuel : ℕ) (upper : Bool) (v : ℕ) (out : List ℕ)
    → v < 16 ^ fuel
    → hex_value 0 (hex_loop fuel upper v out) ≡ hex_value v out
unfolding hex_loop
hex_value-hex_loop zero upper v out h = ap (λ k. hex_value k out) (zero_of v h)
hex_value-hex_loop (suc fuel) upper v out h = elim (Bool-cases (v == 0)) [
  | inl e ↦
      let nothing : v ≡ 0 = ground arith in
      rw (hex_loop, e) (ap (λ k. hex_value k out) (sym nothing))
  | inr e ↦
      let digit = get_or (hex_digits upper) (v % 16) 0 in
      let joined : v / 16 * 16 + digit_value digit ≡ v =
        omega (arith, digit_value-hex_digits upper (v % 16) (omega arith)) in
      rw (hex_loop, e)
        (hex_value-hex_loop fuel upper (v / 16) (digit ∷ out) (shorter fuel v h)
          ∙ ap (λ k. hex_value k out) joined)
]

-- The hexadecimal digits of a 64-bit value, in either case, stand for that value.
pub hex_value-to_hex : (v : ℕ) (upper : Bool) → IsU64 v → hex_value 0 (to_hex v false 0 upper) ≡ v
unfolding to_hex
hex_value-to_hex v upper h = elim (Bool-cases (v == 0)) [
  | inl e ↦ let nothing : v ≡ 0 = ground arith in rw (to_hex, e) (sym nothing)
  | inr e ↦
      let unpadded : ltb (length (hex_loop 16 upper v [])) 0 ≡ false = ground arith in
      rw (to_hex, e, unpadded) (hex_value-hex_loop 16 upper v [] h)
]
