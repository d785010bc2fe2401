-- ===== src/Base/Text.antt =====
-- Text literals as the bytes of a `std::string`; the literals are ASCII.
use Prim.Native.Char.{code}
use Prim.Native.String.{String}
use Prim.Native.Nat.{ℕ}
use mathlib.Core.Path.{◌≡◌, refl}
use mathlib.Core.Logic.{inl, inr}
use mathlib.Core.Bool.{Bool, true, false, ◌||◌}
use native.Mathlib.Omega.{arith}
use fn_finder.Base.Tests.{text_eq, Bool-cases}
use fn_finder.Base.Lists.{In}
use mathlib.Core.List.{List, [], ◌∷◌}

abbrev pub text : String → List ℕ
text String.[] = []
text (String.◌∷◌ c s) = code c ∷ text s

-- A character literal.
abbrev pub byte : String → ℕ
byte String.[] = 0
byte (String.◌∷◌ c s) = code c

-- A chain of comparisons joined by `||`.
unfoldable pub is_one_of : List (List ℕ) → List ℕ → Bool
unfolding text_eq
is_one_of [] s = false
is_one_of (t ∷ ts) s = text_eq s t || is_one_of ts s

pub text_eq→eq : (s t : List ℕ) → text_eq s t ≡ true → s ≡ t
unfolding text_eq
text_eq→eq [] [] h = refl
text_eq→eq [] (x ∷ t) h = cc
text_eq→eq (x ∷ s) [] h = cc
text_eq→eq (x ∷ s) (y ∷ t) h = ground (arith, text_eq→eq s t)

pub In-is_one_of :
    (ms : List (List ℕ)) (mnemonic : List ℕ) → is_one_of ms mnemonic ≡ true → In mnemonic ms
unfolding is_one_of
In-is_one_of [] mnemonic h = cc
In-is_one_of (m ∷ ms) mnemonic h = elim (Bool-cases (text_eq mnemonic m)) [
  | inl e ↦ inl (text_eq→eq mnemonic m e)
  | inr e ↦ inr (In-is_one_of ms mnemonic (ground arith))
]
