-- ===== src/App/ResultPrinter/Json.antt =====
-- The names that `jsonEscape` of src/app/result_printer.cc writes, read back by a reader of JSON
-- strings that follows the grammar and not the code.
use fn_finder.Base.{
  ℕ, ◌+◌, ◌-◌, ◌*◌, ◌<◌, ◌≡◌, refl, ap, ◌∙◌, true, false, List, [], ◌∷◌, ◌++◌, Option, none, some,
  ltb, leb, ◌==◌, ◌&&◌, if◌then◌else◌, arith, Bool-cases, inl, inr, subst, sym, ==→eq, append_assoc,
  Below, below_lem,
}
use fn_finder.App.ResultPrinter.{escape_byte, json_escape}

-- Between characters, behind a backslash, or with `left` hexadecimal digits of `\uXXXX` to come.
pub data Mode : Type 0 where
  between : Mode
  escaped : Mode
  unicode : (left value : ℕ) → Mode

abbrev put : ℕ → Option (List ℕ × List ℕ) → Option (List ℕ × List ℕ)
put c none = none
put c (some (s, rest)) = some (c ∷ s, rest)

abbrev hex_digit : ℕ → Option ℕ
hex_digit c =
    if leb 0x30 c && leb c 0x39
    then some (c - 0x30)
    else if leb 0x41 c && leb c 0x46
    then some (c - 0x37)
    else if leb 0x61 c && leb c 0x66
    then some (c - 0x57)
    else none

-- The escapes of one letter.
abbrev short_escape : ℕ → Option ℕ
short_escape c =
    if c == 0x22
    then some 0x22
    else if c == 0x5c
    then some 0x5c
    else if c == 0x2f
    then some 0x2f
    else if c == 0x62
    then some 0x08
    else if c == 0x66
    then some 0x0c
    else if c == 0x6e
    then some 0x0a
    else if c == 0x72
    then some 0x0d
    else if c == 0x74
    then some 0x09
    else none

-- The contents of a string up to its closing quote, and what stands behind it. A control byte in
-- between, an unknown escape and an escape above ASCII are refused.
unfoldable pub read_string : Mode → List ℕ → Option (List ℕ × List ℕ)
read_string mode [] = none
read_string between (c ∷ cs) = elim (c == 0x22) [
  | true ↦ some ([], cs)
  | false ↦ elim (c == 0x5c) [
    | true ↦ read_string escaped cs
    | false ↦ elim (ltb c 0x20) [ true ↦ none | false ↦ put c (read_string between cs) ]
  ]
]
read_string escaped (c ∷ cs) = elim (c == 0x75) [
  | true ↦ read_string (unicode 4 0) cs
  | false ↦ elim (short_escape c) [ none ↦ none | some d ↦ put d (read_string between cs) ]
]
read_string (unicode left value) (c ∷ cs) = elim (hex_digit c) [
  | none ↦ none
  | some d ↦
      let next = value * 16 + d in
      elim (ltb 1 left) [
        | true ↦ read_string (unicode (left - 1) next) cs
        | false ↦ elim (ltb next 0x80) [ true ↦ put next (read_string between cs) | false ↦ none ]
      ]
]

abbrev Reads : List ℕ → ℕ → Type 0
Reads t c = read_string between (escape_byte c ++ t) ≡ put c (read_string between t)

-- The control bytes, each by computation.
read_controls : (t : List ℕ) → Below (Reads t) 0x20
unfolding read_string escape_byte
read_controls t = (
  refl,
  (
    refl,
    (
      refl,
      (
        refl,
        (
          refl,
          (
            refl,
            (
              refl,
              (
                refl,
                (
                  refl,
                  (
                    refl,
                    (
                      refl,
                      (
                        refl,
                        (
                          refl,
                          (
                            refl,
                            (
                              refl,
                              (
                                refl,
                                (
                                  refl,
                                  (
                                    refl,
                                    (
                                      refl,
                                      (
                                        refl,
                                        (
                                          refl,
                                          (
                                            refl,
                                            (
                                              refl,
                                              (
                                                refl,
                                                (
                                                  refl,
                                                  (
                                                    refl,
                                                    (
                                                      refl,
                                                      (refl, (refl, (refl, (refl, (refl, tt))))),
                                                    ),
                                                  ),
                                                ),
                                              ),
                                            ),
                                          ),
                                        ),
                                      ),
                                    ),
                                  ),
                                ),
                              ),
                            ),
                          ),
                        ),
                      ),
                    ),
                  ),
                ),
              ),
            ),
          ),
        ),
      ),
    ),
  ),
)

printable_test : (c k : ℕ) → ltb c 0x20 ≡ false → k < 0x20 → (c == k) ≡ false
printable_test c k h l = ground arith

escape_plain :
    (c : ℕ)
    → ltb c 0x20 ≡ false
    → (c == 0x22) ≡ false
    → (c == 0x5c) ≡ false
    → escape_byte c ≡ c ∷ []
unfolding escape_byte
escape_plain c h q b =
    rw
      (
        h,
        q,
        b,
        printable_test c 0x08 h (omega arith),
        printable_test c 0x0c h (omega arith),
        printable_test c 0x0a h (omega arith),
        printable_test c 0x0d h (omega arith),
        printable_test c 0x09 h (omega arith),
      )
      refl

read_plain :
    (c : ℕ) (t : List ℕ)
    → ltb c 0x20 ≡ false
    → (c == 0x22) ≡ false
    → (c == 0x5c) ≡ false
    → Reads t c
unfolding read_string
read_plain c t h q b = rw (escape_plain c h q b, read_string, q, b, h) refl

read_printable :
    (c : ℕ) (t : List ℕ)
    → ltb c 0x20 ≡ false
    → read_string between (escape_byte c ++ t) ≡ put c (read_string between t)
unfolding read_string escape_byte
read_printable c t h = elim (Bool-cases (c == 0x22)) [
  | inl e ↦ subst (Reads t) (sym (==→eq c 0x22 e)) refl
  | inr q ↦ elim (Bool-cases (c == 0x5c)) [
    | inl e ↦ subst (Reads t) (sym (==→eq c 0x5c e)) refl
    | inr b ↦ read_plain c t h q b
  ]
]

read_string-escape_byte :
    (c : ℕ) (t : List ℕ) → read_string between (escape_byte c ++ t) ≡ put c (read_string between t)
read_string-escape_byte c t = elim (Bool-cases (ltb c 0x20)) [
  | inl e ↦ below_lem (Reads t) 0x20 (read_controls t) c (ground arith)
  | inr e ↦ read_printable c t e
]

-- A name that the code escapes is a JSON string: read up to the quote that closes it, it gives the
-- bytes of the name back, and leaves what is printed behind the quote.
pub read_string-json_escape :
    (s rest : List ℕ) → read_string between (json_escape s ++ 0x22 ∷ rest) ≡ some (s, rest)
unfolding read_string json_escape
read_string-json_escape [] rest = refl
read_string-json_escape (c ∷ s) rest =
    ap (read_string between) (append_assoc (escape_byte c) (json_escape s) (0x22 ∷ rest))
    ∙ read_string-escape_byte c (json_escape s ++ 0x22 ∷ rest)
    ∙ ap (put c) (read_string-json_escape s rest)
