-- ===== src/Symbol/Demangler/Totality.antt =====
-- `demangle` of src/symbol/itanium_demangler.cc ends on every name, with no exception.
use fn_finder.Base.{
  ℕ, zero, suc, ◌+◌, ◌^◌, ◌<◌, ◌≤◌, ◌≡◌, refl, ap, ◌∙◌, Bool, true, false, not, ◌||◌, List, [], ◌∷◌,
  ◌++◌, Option, some, ◌==◌, if◌then◌else◌, length, arith, Bool-cases, inl, inr,
}
use fn_finder.Base.Text.{text, byte}
use fn_finder.Symbol.Demangler.{
  Parser, Action, give, failed, peek, consume, parse_unqualified_name, parse_substitution,
}
use fn_finder.Symbol.Demangler.Grammar.{
  Call, type, parse_template_args, parse_nested_name, std_member, with_template_args, parse_name,
}
use fn_finder.Symbol.Demangler.Literals.{is_nil, set_template}
use fn_finder.Symbol.Demangler.Progress.{
  Reaches, Arrives-eq, if-Arrives, give-Reaches, failed-Reaches, Reaches-weaker, bind-Reaches,
  checked-Reaches, consume_cases,
}
use fn_finder.Symbol.Demangler.Tokens.{
  add_sub-Reaches, built-Reaches, parse_unqualified_name-Reaches, parse_substitution-Reaches,
}
use fn_finder.Symbol.Demangler.Descent.{gain, rank_le, rank_pos, Ends}
use fn_finder.Symbol.Demangler.Calls.{
  HasRoom, parse_template_args-Reaches, std_member-Reaches, parse_nested_name-Reaches,
}
use fn_finder.Symbol.Demangler.Rounds.{body-Ends}
use fn_finder.Symbol.Demangler.Encoding.{
  looks_mangled, new_parser, Outcome, returned, length_error, parse, enough, at_type,
  bare_function_type, with_params, parse_encoding, result_of, encoding_if, long_prefix, run_parser,
  demangle_itanium_fallback, or_else, demangle,
}

module _ (s : List ℕ) (short : length s < 2 ^ 63) where
  parse-Ends : (n : ℕ) → Ends s n (parse s n)
  unfolding parse
  parse-Ends zero c p h fuel = let r = rank_pos c in absurd (omega arith)
  parse-Ends (suc n) c p h fuel = body-Ends s short n (parse s n) (parse-Ends n) c p h fuel

  -- The calls from outside.
  enough-Reaches :
      (c : Call) (p : Parser)
      → p.pos ≤ length s
      → Reaches (length s) (p.pos + gain c) (parse s (enough s) c) p
  enough-Reaches c p h = let r = rank_le c in parse-Ends (enough s) c p h (omega arith)

  enough-HasRoom : HasRoom s (enough s) 0
  enough-HasRoom = omega arith

  with_template_args-Reaches :
      (name : List ℕ) (p : Parser)
      → p.pos ≤ length s
      → Reaches (length s) 0 (with_template_args s (parse s (enough s)) name) p
  unfolding with_template_args
  with_template_args-Reaches name p h =
      if-Arrives (length s) 0 (peek s p == byte "I") _ (give name p)
        (λ e.
          checked-Reaches (length s) 0 0 (parse_template_args s (parse s (enough s))) _ p
            (parse_template_args-Reaches s short (enough s) (parse s (enough s))
              (parse-Ends (enough s)) 0 p enough-HasRoom (omega arith) e)
            (λ args q l h'. add_sub-Reaches (length s) 0 (name ++ args) (set_template q) l h'))
        (λ _. give-Reaches (length s) 0 name p (omega arith) h)

  parse_name-Reaches :
      (p : Parser) → p.pos ≤ length s → Reaches (length s) 0 (parse_name s (parse s (enough s))) p
  unfolding parse_name
  parse_name-Reaches p h =
      let q : Parser = record p { last_was_template = false } in
      if-Arrives (length s) 0 (peek s p == byte "N") _ _
        (λ e.
          Reaches-weaker (length s) (q.pos + 1) 0 (parse_nested_name s (parse s (enough s)) false) q
            (omega arith)
            (parse_nested_name-Reaches s short (enough s) (parse s (enough s))
              (parse-Ends (enough s)) false q (omega arith) e))
        (λ _.
          if-Arrives (length s) 0 (peek s p == byte "Z") (failed [] q) _
            (λ _. failed-Reaches (length s) 0 [] q)
            (λ _.
              if-Arrives (length s) 0 (peek s p == byte "S") _ _
                (λ _.
                  checked-Reaches (length s) (q.pos + 1) 0 (parse_substitution s) _ q
                    (parse_substitution-Reaches s q h)
                    (λ prefix t l h'.
                      checked-Reaches (length s) 0 0 (std_member s (parse s (enough s)) prefix)
                        (with_template_args s (parse s (enough s))) t
                        (std_member-Reaches s short (enough s) (parse s (enough s))
                          (parse-Ends (enough s)) 0 prefix t (omega arith) h')
                        (λ name u l'' h''. with_template_args-Reaches name u h'')))
                (λ _.
                  checked-Reaches (length s) (q.pos + 1) 0 (parse_unqualified_name s)
                    (with_template_args s (parse s (enough s))) q
                    (parse_unqualified_name-Reaches s short q h)
                    (λ name t l h'. with_template_args-Reaches name t h'))))

  abbrev bare_next : ℕ → List (List ℕ) → List ℕ → Parser → Bool → Option (List (List ℕ) × Parser)
  bare_next fuel types t q false = some ([], q)
  bare_next fuel types t q true = bare_function_type s fuel (types ++ t ∷ []) q

  bare_round :
      (fuel : ℕ) (types : List (List ℕ)) (p : Parser) (t : List ℕ) (q : Parser)
      → at_type s p ≡ true
      → parse s (enough s) type p ≡ some (t, q)
      → bare_function_type s (suc fuel) types p ≡ bare_next fuel types t q q.ok
  unfolding bare_function_type
  bare_round fuel types p t q e g = rw (bare_function_type, e, g) refl

  bare_function_type-Reaches :
      (fuel : ℕ) (types : List (List ℕ)) (p : Parser)
      → p.pos ≤ length s
      → length s < fuel + p.pos
      → Reaches (length s) 0 (bare_function_type s fuel types) p
  unfolding bare_function_type
  bare_function_type-Reaches zero types p h f = absurd (omega arith)
  bare_function_type-Reaches (suc fuel) types p h f = elim (Bool-cases (at_type s p)) [
    | inr e ↦ (types, p, rw (bare_function_type, e) refl, λ _. (omega arith, h))
    | inl e ↦
        let (t, q, g, r) = enough-Reaches type p h in
        elim (Bool-cases q.ok) [
          | inr o ↦ (
            [],
            q,
            bare_round fuel types p t q e g ∙ ap (λ b. bare_next fuel types t q b) o,
            λ i. cc,
          )
          | inl o ↦
              let (l, h') = r o in
              Arrives-eq (length s) 0 (bare_function_type s (suc fuel) types p)
                (bare_function_type s fuel (types ++ t ∷ []) q)
                (bare_round fuel types p t q e g ∙ ap (λ b. bare_next fuel types t q b) o)
                (bare_function_type-Reaches fuel (types ++ t ∷ []) q h' (omega arith))
        ]
  ]

  with_params-Reaches :
      (name : List ℕ) (p : Parser) → p.pos ≤ length s → Reaches (length s) 0 (with_params s name) p
  unfolding with_params
  with_params-Reaches name p h =
      if-Arrives (length s) 0 (at_type s p) _ (give name p)
        (λ _.
          checked-Reaches (length s) 0 0 (bare_function_type s (length s + 1) []) _ p
            (bare_function_type-Reaches (length s + 1) [] p h (omega arith))
            (λ types q l h'. built-Reaches (length s) 0 _ q l h'))
        (λ _. give-Reaches (length s) 0 name p (omega arith) h)

  parse_encoding-Reaches :
      (p : Parser) → p.pos ≤ length s → Reaches (length s) 0 (parse_encoding s) p
  unfolding parse_encoding
  parse_encoding-Reaches p h =
      checked-Reaches (length s) 0 0 (parse_name s (parse s (enough s))) (with_params s) p
        (parse_name-Reaches p h) (λ name q l h'. with_params-Reaches name q h')

  encoding_if-Reaches :
      (b : Bool) (otherwise : Action (List ℕ)) (p : Parser)
      → p.pos ≤ length s
      → Reaches (length s) 0 otherwise p
      → Reaches (length s) 0 (encoding_if s b otherwise) p
  unfolding encoding_if
  encoding_if-Reaches true otherwise p h r = parse_encoding-Reaches p h
  encoding_if-Reaches false otherwise p h r = r

  long_prefix-Reaches : (p : Parser) → p.pos ≤ length s → Reaches (length s) 0 (long_prefix s) p
  unfolding long_prefix
  long_prefix-Reaches p h =
      let (b, q, f, l, i) = consume_cases s (text "___Z") p h in
      bind-Reaches (length s) 0 (consume s (text "___Z")) (λ found. encoding_if s found (give [])) p
        b q f (encoding_if-Reaches b (give []) q i (give-Reaches (length s) 0 [] q (omega arith) i))

  run_parser_total : (limit : ℕ) → (outcome : Outcome) × (run_parser s limit ≡ some outcome)
  unfolding run_parser
  run_parser_total limit =
      let (b, q, f, l, i) = consume_cases s (text "_Z") (new_parser limit) (omega arith) in
      let (a, t, g, r) =
        bind-Reaches (length s) 0 (consume s (text "_Z"))
          (λ found. encoding_if s found (long_prefix s)) (new_parser limit) b q f
          (encoding_if-Reaches b (long_prefix s) q i (long_prefix-Reaches q i)) in
      (if t.too_long then length_error else returned (if t.ok then a else []), ap result_of g)

fallback_total :
    (limit : ℕ) (mangled : List ℕ)
    → length mangled < 2 ^ 63
    → (outcome : Outcome) × (demangle_itanium_fallback limit mangled ≡ some outcome)
unfolding demangle_itanium_fallback
fallback_total limit mangled short = elim (Bool-cases (looks_mangled mangled)) [
  | inl e ↦
      let (outcome, f) = run_parser_total mangled short limit in
      (outcome, rw (demangle_itanium_fallback, e) f)
  | inr e ↦ (returned [], rw (demangle_itanium_fallback, e) refl)
]

-- On every name of fewer than 2^63 bytes the demangler ends within its fuel and with no access out
-- of range: it returns a text, or a string that it builds exceeds the limit of the standard library
-- and throws.
pub demangle_total :
    (limit : ℕ) (mangled : List ℕ)
    → length mangled < 2 ^ 63
    → (outcome : Outcome) × (demangle limit mangled ≡ some outcome)
unfolding demangle
demangle_total limit mangled short =
    elim (Bool-cases (is_nil mangled || not (looks_mangled mangled))) [
      | inl e ↦ (returned mangled, rw (demangle, e) refl)
      | inr e ↦
          let (outcome, f) = fallback_total limit mangled short in
          (or_else outcome mangled, rw (demangle, e, f) refl)
    ]
