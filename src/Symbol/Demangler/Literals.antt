-- ===== src/Symbol/Demangler/Literals.antt =====
-- The loops and the texts of src/symbol/itanium_demangler.cc that do not recur: qualifiers, literals,
-- builtin types.
use fn_finder.Base.{
  ℕ, zero, suc, ◌+◌, ◌-◌, Bool, true, false, List, [], ◌∷◌, ◌++◌, none, some, ◌==◌, if◌then◌else◌,
  length, text_eq,
}
use fn_finder.Base.Text.{text, byte}
use fn_finder.Symbol.Demangler.{
  Parser, Action, give, ◌>>=◌, failed, peek, at_end, consume, expect, is_listed, find_builtin,
}
use fn_finder.Symbol.Demangler.Tables.{builtin_types, extended_builtins}

-- `if (!first) out += ", "; out += arg;`
abbrev pub joined : (first : Bool) → (out arg : List ℕ) → List ℕ
joined true out arg = out ++ arg
joined false out arg = out ++ text ", " ++ arg

abbrev pub is_nil : {A : Type 0} → List A → Bool
is_nil [] = true
is_nil (_ ∷ _) = false

unfoldable pub ends_with_angle : List ℕ → Bool
ends_with_angle [] = false
ends_with_angle (c ∷ []) = c == byte ">"
ends_with_angle (c ∷ d ∷ cs) = ends_with_angle (d ∷ cs)

abbrev pub set_template : Parser → Parser
set_template p = record p { last_was_template = true }

abbrev pub qualifier : ℕ → List ℕ
qualifier c =
    if c == byte "K"
    then text " const"
    else if c == byte "V"
    then text " volatile"
    else text " restrict"

abbrev pub signed : List ℕ → List ℕ
signed [] = []
signed (c ∷ cs) = if c == byte "n" then text "-" ++ cs else c ∷ cs

abbrev pub literal_text : (kind value : List ℕ) → List ℕ
unfolding text_eq
literal_text kind value =
    if text_eq kind (text "bool")
    then (if text_eq value (text "0") then text "false" else text "true")
    else if is_nil (signed value)
    then kind
    else signed value

abbrev pub pointer_suffix : ℕ → List ℕ
pointer_suffix c = if c == byte "P" then text "*" else if c == byte "R" then text "&" else text "&&"

module _ (s : List ℕ) where
  -- `while (peek() == 'r' || peek() == 'V' || peek() == 'K') ++pos_;`
  unfoldable pub skip_qualifiers : (fuel : ℕ) → Parser → Parser
  unfolding peek is_listed
  skip_qualifiers zero p = p
  skip_qualifiers (suc fuel) p = elim (is_listed (text "rVK") (peek s p)) [
    | true ↦ skip_qualifiers fuel (record p { pos = p.pos + 1 })
    | false ↦ p
  ]

  -- The loop over the qualifiers of a type.
  unfoldable pub qualifiers_loop : (fuel : ℕ) → (qualifiers : List ℕ) → Action (List ℕ)
  unfolding peek is_listed
  qualifiers_loop zero qualifiers p = some (qualifiers, p)
  qualifiers_loop (suc fuel) qualifiers p = elim (is_listed (text "KVr") (peek s p)) [
    | true ↦
        qualifiers_loop fuel (qualifier (peek s p) ++ qualifiers) (record p { pos = p.pos + 1 })
    | false ↦ some (qualifiers, p)
  ]

  -- The loop of `parseExprPrimary` over the value.
  unfoldable pub value_loop : (fuel : ℕ) → (value : List ℕ) → Action (List ℕ)
  unfolding at_end peek
  value_loop zero value p = some (value, p)
  value_loop (suc fuel) value p = elim (at_end s p) [
    | true ↦ some (value, p)
    | false ↦ value_loop fuel (value ++ peek s p ∷ []) (record p { pos = p.pos + 1 })
  ]

  -- What stands behind the type of a literal.
  unfoldable pub literal_value : (kind : List ℕ) → Action (List ℕ)
  unfolding value_loop expect
  literal_value kind p =
      (value_loop (length s - p.pos) []
          >>= (λ value. expect s (text "E") (give (literal_text kind value))))
        p

  -- What stands behind the `D`.
  unfoldable pub extended_builtin_body : Action (List ℕ)
  unfolding peek find_builtin extended_builtins
  extended_builtin_body p = elim (find_builtin extended_builtins (peek s p)) [
    | some name ↦ some (name, record p { pos = p.pos + 1 })
    | none ↦ failed [] (record p { pos = p.pos + 1 })
  ]

  unfoldable pub parse_extended_builtin : Action (List ℕ)
  unfolding consume extended_builtin_body
  parse_extended_builtin = consume s (text "D") >>= (λ _. extended_builtin_body)

  unfoldable pub builtin_type : Action (List ℕ)
  unfolding find_builtin builtin_types
  builtin_type p = elim (find_builtin builtin_types (peek s p)) [
    | some name ↦ some (name, record p { pos = p.pos + 1 })
    | none ↦ failed [] p
  ]
