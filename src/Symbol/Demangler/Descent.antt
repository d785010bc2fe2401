-- ===== src/Symbol/Demangler/Descent.antt =====
-- The recursive functions of src/symbol/itanium_demangler.cc, given that the calls that they make end:
-- none throws, and the parser stands behind them and in the text.
use fn_finder.Base.{
  ℕ, zero, suc, ◌+◌, ◌-◌, ◌*◌, ◌<◌, ◌≤◌, ◌≡◌, refl, ap, sym, ◌∙◌, true, false, List, [], ◌∷◌, ◌++◌,
  none, some, ltb, leb, ◌==◌, length, arith, Bool-cases, Option-cases, inl, inr, ltb→lt,
}
use fn_finder.Base.Text.{text, byte}
use fn_finder.Symbol.Demangler.{
  Parser, Action, give, ◌>>=◌, peek, at_end, eof, consume, expect, is_listed, find_builtin,
}
use fn_finder.Symbol.Demangler.Tables.{builtin_types, extended_builtins}
use fn_finder.Symbol.Demangler.Grammar.{
  Call, type, template_arg, nested_loop, template_args_loop, pack_loop, params_loop,
}
use fn_finder.Symbol.Demangler.Literals.{
  skip_qualifiers, qualifiers_loop, value_loop, literal_text, literal_value, parse_extended_builtin,
  extended_builtin_body, qualifier, builtin_type,
}
use fn_finder.Symbol.Demangler.Progress.{
  Reaches, give-Reaches, Reaches-weaker, bind-Reaches, peek_outside, peek_inside, consume_here,
  expect-Reaches,
}

-- The calls that one position takes.
abbrev pub rank : Call → ℕ
rank type = 1
rank template_arg = 2
rank (nested_loop _ _) = 1
rank (template_args_loop _ _) = 3
rank (pack_loop _ _) = 3
rank (params_loop _ _) = 2

-- What a call takes of the text at least.
abbrev pub gain : Call → ℕ
gain type = 1
gain template_arg = 1
gain (nested_loop _ _) = 0
gain (template_args_loop _ _) = 0
gain (pack_loop _ _) = 0
gain (params_loop _ _) = 0

pub rank_le : (c : Call) → rank c ≤ 3
rank_le type = omega arith
rank_le template_arg = omega arith
rank_le (nested_loop _ _) = omega arith
rank_le (template_args_loop _ _) = omega arith
rank_le (pack_loop _ _) = omega arith
rank_le (params_loop _ _) = omega arith

pub rank_pos : (c : Call) → 1 ≤ rank c
rank_pos type = omega arith
rank_pos template_arg = omega arith
rank_pos (nested_loop _ _) = omega arith
rank_pos (template_args_loop _ _) = omega arith
rank_pos (pack_loop _ _) = omega arith
rank_pos (params_loop _ _) = omega arith

-- Each call ends within the fuel `n` if there is a unit for each call at each position that is left.
abbrev pub Ends : List ℕ → (n : ℕ) → (Call → Action (List ℕ)) → Type 0
Ends s n rec =
    (c : Call) (p : Parser)
    → p.pos ≤ length s
    → 3 * length s + rank c ≤ n + 3 * p.pos
    → Reaches (length s) (p.pos + gain c) (rec c) p

pub not_at_end : (s : List ℕ) (p : Parser) → at_end s p ≡ false → p.pos < length s
unfolding at_end eof
not_at_end s p e = elim (Bool-cases (leb (length s) p.pos)) [
  | inl i ↦ let x : true ≡ false = sym (rw i refl) ∙ e in cc
  | inr i ↦ ground arith
]

module _ (s : List ℕ) where
  pub skip_qualifiers_stays :
      (fuel lo : ℕ) (p : Parser)
      → lo ≤ p.pos
      → p.pos ≤ length s
      → (lo ≤ (skip_qualifiers s fuel p).pos) × ((skip_qualifiers s fuel p).pos ≤ length s)
  unfolding skip_qualifiers is_listed
  skip_qualifiers_stays zero lo p l h = (l, h)
  skip_qualifiers_stays (suc fuel) lo p l h =
      elim (Bool-cases (is_listed (text "rVK") (peek s p))) [
        | inl e ↦
            let i = peek_inside s p (is_listed (text "rVK")) refl e in
            rw (skip_qualifiers, e)
              (skip_qualifiers_stays fuel lo (record p { pos = p.pos + 1 }) (omega arith)
                (omega arith))
        | inr e ↦ rw (skip_qualifiers, e) (l, h)
      ]

  pub qualifiers_loop-Reaches :
      (fuel lo : ℕ) (qualifiers : List ℕ) (p : Parser)
      → lo ≤ p.pos
      → p.pos ≤ length s
      → (v : List ℕ) × (q : Parser) × (qualifiers_loop s fuel qualifiers p ≡ some (v, q))
        × (lo ≤ q.pos)
        × (q.pos ≤ length s)
  unfolding qualifiers_loop is_listed
  qualifiers_loop-Reaches zero lo qualifiers p l h = (qualifiers, p, refl, l, h)
  qualifiers_loop-Reaches (suc fuel) lo qualifiers p l h =
      elim (Bool-cases (is_listed (text "KVr") (peek s p))) [
        | inl e ↦
            let i = peek_inside s p (is_listed (text "KVr")) refl e in
            let (v, q, f, x, y) =
              qualifiers_loop-Reaches fuel lo (qualifier (peek s p) ++ qualifiers)
                (record p { pos = p.pos + 1 }) (omega arith) (omega arith) in
            (v, q, rw (qualifiers_loop, e) f, x, y)
        | inr e ↦ (qualifiers, p, rw (qualifiers_loop, e) refl, l, h)
      ]

  value_loop-Reaches :
      (fuel lo : ℕ) (value : List ℕ) (p : Parser)
      → lo ≤ p.pos
      → p.pos ≤ length s
      → (v : List ℕ) × (q : Parser) × (value_loop s fuel value p ≡ some (v, q))
        × (lo ≤ q.pos)
        × (q.pos ≤ length s)
  unfolding value_loop
  value_loop-Reaches zero lo value p l h = (value, p, refl, l, h)
  value_loop-Reaches (suc fuel) lo value p l h = elim (Bool-cases (at_end s p)) [
    | inl e ↦ (value, p, rw (value_loop, e) refl, l, h)
    | inr e ↦
        let i = not_at_end s p e in
        let (v, q, f, x, y) =
          value_loop-Reaches fuel lo (value ++ peek s p ∷ []) (record p { pos = p.pos + 1 })
            (omega arith) (omega arith) in
        (v, q, rw (value_loop, e) f, x, y)
  ]

  pub literal_value-Reaches :
      (lo : ℕ) (kind : List ℕ) (p : Parser)
      → lo ≤ p.pos
      → p.pos ≤ length s
      → Reaches (length s) lo (literal_value s kind) p
  unfolding literal_value
  literal_value-Reaches lo kind p l h =
      let (v, q, f, x, y) = value_loop-Reaches (length s - p.pos) lo [] p l h in
      bind-Reaches (length s) lo (value_loop s (length s - p.pos) [])
        (λ value. expect s (text "E") (give (literal_text kind value))) p v q f
        (expect-Reaches s (text "E") lo (give (literal_text kind v)) q y
          (λ t l' h'. give-Reaches (length s) lo (literal_text kind v) t (omega arith) h'))

  builtin_inside :
      (table : List (ℕ × List ℕ)) (p : Parser) (name : List ℕ)
      → find_builtin table 0 ≡ none
      → find_builtin table (peek s p) ≡ some name
      → p.pos < length s
  builtin_inside table p name z e = elim (Bool-cases (ltb p.pos (length s))) [
    | inl i ↦ ltb→lt p.pos (length s) i
    | inr i ↦
        let x : none ≡ some name = sym z ∙ sym (ap (find_builtin table) (peek_outside s p i)) ∙ e in
        cc
  ]

  pub builtin_type-Reaches : (p : Parser) → Reaches (length s) (p.pos + 1) (builtin_type s) p
  unfolding builtin_type builtin_types find_builtin
  builtin_type-Reaches p = elim (Option-cases (find_builtin builtin_types (peek s p))) [
    | inl e ↦ ([], record p { ok = false }, rw (builtin_type, e) refl, λ i. cc)
    | inr (name, e) ↦
        let i = builtin_inside builtin_types p name refl e in
        (
          name,
          record p { pos = p.pos + 1 },
          rw (builtin_type, e) refl,
          λ _. (omega arith, omega arith),
        )
  ]

  extended_builtin_body-Reaches :
      (p : Parser) → Reaches (length s) (p.pos + 1) (extended_builtin_body s) p
  unfolding extended_builtin_body extended_builtins find_builtin
  extended_builtin_body-Reaches p =
      elim (Option-cases (find_builtin extended_builtins (peek s p))) [
        | inl e ↦ (
          [],
          record p { ok = false; pos = p.pos + 1 },
          rw (extended_builtin_body, e) refl,
          λ i. cc,
        )
        | inr (name, e) ↦
            let i = builtin_inside extended_builtins p name refl e in
            (
              name,
              record p { pos = p.pos + 1 },
              rw (extended_builtin_body, e) refl,
              λ _. (omega arith, omega arith),
            )
      ]

  -- A call whose first byte has been seen.
  pub behind-Reaches :
      (c lo : ℕ) (m : Action (List ℕ)) (p : Parser)
      → ltb 0 c ≡ true
      → (peek s p == c) ≡ true
      → ((q : Parser) → q.pos ≡ p.pos + 1 → q.pos ≤ length s → Reaches (length s) lo m q)
      → Reaches (length s) lo (consume s (c ∷ []) >>= (λ _. m)) p
  behind-Reaches c lo m p z e k =
      let (f, i) = consume_here s c p z e in
      let q : Parser = record p { pos = p.pos + 1 } in
      bind-Reaches (length s) lo (consume s (c ∷ [])) (λ _. m) p true q f (k q refl (omega arith))

  pub parse_extended_builtin-Reaches :
      (p : Parser)
      → (peek s p == byte "D") ≡ true
      → Reaches (length s) (p.pos + 1) (parse_extended_builtin s) p
  unfolding parse_extended_builtin
  parse_extended_builtin-Reaches p e =
      behind-Reaches (byte "D") (p.pos + 1) (extended_builtin_body s) p refl e (λ q l h.
        Reaches-weaker (length s) (q.pos + 1) (p.pos + 1) (extended_builtin_body s) q (omega arith)
          (extended_builtin_body-Reaches q))
