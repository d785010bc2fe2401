-- ===== src/Disasm/Mnemonics.antt =====
-- Classes of AArch64 mnemonics: src/disasm/aarch64/aarch64_mnemonics.h and aarch64_mnemonics.cc.
use fn_finder.Base.{ℕ, ◌≡◌, refl, Bool, true, false, List, [], ◌∷◌, if◌then◌else◌, All-In}
use fn_finder.Base.Text.{text, is_one_of, In-is_one_of}
use fn_finder.Common.StringUtil.{starts_with}

abbrev pub conditional_branches : List (List ℕ)
conditional_branches = text "cbz" ∷ text "cbnz" ∷ text "tbz" ∷ text "tbnz" ∷ []

abbrev pub returns : List (List ℕ)
returns =
    text "ret"
    ∷ text "retaa"
    ∷ text "retab"
    ∷ text "eret"
    ∷ text "eretaa"
    ∷ text "eretab"
    ∷ text "drps"
    ∷ []

abbrev pub indirect_calls : List (List ℕ)
indirect_calls = text "blr" ∷ text "blraa" ∷ text "blrab" ∷ text "blraaz" ∷ text "blrabz" ∷ []

abbrev pub indirect_branches : List (List ℕ)
indirect_branches = text "br" ∷ text "braa" ∷ text "brab" ∷ text "braaz" ∷ text "brabz" ∷ []

unfoldable pub is_conditional_branch : List ℕ → Bool
unfolding is_one_of starts_with
is_conditional_branch mnemonic =
    if starts_with mnemonic (text "b.") then true else is_one_of conditional_branches mnemonic

unfoldable pub is_return : List ℕ → Bool
unfolding is_one_of
is_return mnemonic = is_one_of returns mnemonic

unfoldable pub is_indirect_call : List ℕ → Bool
unfolding is_one_of
is_indirect_call mnemonic = is_one_of indirect_calls mnemonic

unfoldable pub is_indirect_branch : List ℕ → Bool
unfolding is_one_of
is_indirect_branch mnemonic = is_one_of indirect_branches mnemonic

-- A mnemonic of a return is none of a conditional branch, an indirect call or an indirect branch:
-- the place of its test before the others makes no difference.
pub is_return_exclusive :
    (mnemonic : List ℕ)
    → is_return mnemonic ≡ true
    → (is_indirect_call mnemonic ≡ false)
      × (is_indirect_branch mnemonic ≡ false)
      × (is_conditional_branch mnemonic ≡ false)
unfolding is_return is_indirect_call is_indirect_branch is_conditional_branch
is_return_exclusive mnemonic h =
    All-In
      (λ m.
        (is_indirect_call m ≡ false)
        × (is_indirect_branch m ≡ false)
        × (is_conditional_branch m ≡ false))
      returns mnemonic
      (
        (refl, refl, refl),
        (
          (refl, refl, refl),
          (
            (refl, refl, refl),
            (
              (refl, refl, refl),
              ((refl, refl, refl), ((refl, refl, refl), ((refl, refl, refl), tt))),
            ),
          ),
        ),
      )
      (In-is_one_of returns mnemonic h)
