-- ===== src/Symbol/Demangler/Tokens.antt =====
-- The tokens of src/symbol/itanium_demangler.cc, numbers, names and substitutions: none throws, and
-- the parser stands behind them and in the text.
use fn_finder.Base.{
  ℕ, zero, suc, ◌+◌, ◌-◌, ◌*◌, ◌%◌, ◌^◌, ◌<◌, ◌≤◌, ◌≡◌, refl, ap, sym, ◌∙◌, true, false, List, [],
  ◌∷◌, ◌++◌, none, some, ltb, leb, ◌==◌, length, get_or, take, drop, arith, Bool-cases,
  Option-cases, inl, inr, ltb→lt,
}
use fn_finder.Base.Text.{text, byte}
use fn_finder.Base.Words.{add64}
use fn_finder.Symbol.Demangler.{
  Parser, Action, peek, consume, expect, is_digit, is_base36, base36_value, add_sub, built,
  has_component, sub_at, template_arg_at, operator_at, length_loop, source_name_of,
  parse_source_name, parse_unqualified_name, index_loop, parse_index, parse_template_param,
  template_param_body, standard_substitution, substitution_body, parse_substitution,
}
use fn_finder.Symbol.Demangler.Progress.{
  Reaches, bind-Reaches, checked_after, peek_outside, peek_inside, consume_here, expect-Reaches,
}

pub add_sub-Reaches :
    (size lo : ℕ) (c : List ℕ) (p : Parser)
    → lo ≤ p.pos
    → p.pos ≤ size
    → Reaches size lo (add_sub c) p
unfolding add_sub
add_sub-Reaches size lo c p l h = elim (Bool-cases (ltb p.limit (length c))) [
  | inl b ↦ ([], record p { ok = false; too_long = true }, rw (add_sub, b) refl, λ i. cc)
  | inr b ↦ elim (Bool-cases (has_component p.subs c)) [
    | inl e ↦ (c, p, rw (add_sub, b, e) refl, λ _. (l, h))
    | inr e ↦ (c, record p { subs = p.subs ++ c ∷ [] }, rw (add_sub, b, e) refl, λ _. (l, h))
  ]
]

pub built-Reaches :
    (size lo : ℕ) (t : List ℕ) (p : Parser)
    → lo ≤ p.pos
    → p.pos ≤ size
    → Reaches size lo (built t) p
unfolding built
built-Reaches size lo t p l h = elim (Bool-cases (ltb p.limit (length t))) [
  | inl b ↦ ([], record p { ok = false; too_long = true }, rw (built, b) refl, λ i. cc)
  | inr b ↦ (t, p, rw (built, b) refl, λ _. (l, h))
]

pub sub_at-Reaches :
    (size lo index : ℕ) (p : Parser) → lo ≤ p.pos → p.pos ≤ size → Reaches size lo (sub_at index) p
unfolding sub_at
sub_at-Reaches size lo index p l h = elim (Bool-cases (leb (length p.subs) index)) [
  | inl e ↦ ([], record p { ok = false }, rw (sub_at, e) refl, λ i. cc)
  | inr e ↦ (get_or p.subs index [], p, rw (sub_at, e) refl, λ _. (l, h))
]

pub template_arg_at-Reaches :
    (size lo index : ℕ) (p : Parser)
    → lo ≤ p.pos
    → p.pos ≤ size
    → Reaches size lo (template_arg_at index) p
unfolding template_arg_at
template_arg_at-Reaches size lo index p l h =
    elim (Bool-cases (leb (length p.template_args) index)) [
      | inl e ↦ ([], record p { ok = false }, rw (template_arg_at, e) refl, λ i. cc)
      | inr e ↦
          let (a, q, f, r) = add_sub-Reaches size lo (get_or p.template_args index []) p l h in
          (a, q, rw (template_arg_at, e) f, r)
    ]

operator_inside :
    (s : List ℕ) (p : Parser) (name : List ℕ) → operator_at s p ≡ some name → p.pos + 1 < length s
unfolding operator_at
operator_inside s p name o = elim (Bool-cases (ltb (p.pos + 1) (length s))) [
  | inl e ↦ ltb→lt (p.pos + 1) (length s) e
  | inr e ↦ let x : none ≡ some name = sym (rw e refl) ∙ o in cc
]

module _ (s : List ℕ) where
  -- Behind the digits of a length, which then does not exceed the text's.
  abbrev IsLength : (lo : ℕ) → Action ℕ → Parser → Type 0
  IsLength lo m p =
      (v : ℕ) × (q : Parser) × (m p ≡ some (v, q))
      × (q.ok ≡ true → (lo ≤ q.pos) × (q.pos ≤ length s) × (v ≤ length s))

  length_loop-IsLength :
      (fuel len lo : ℕ) (p : Parser)
      → lo ≤ p.pos
      → p.pos ≤ length s
      → len ≤ length s
      → IsLength lo (length_loop s fuel len) p
  unfolding length_loop
  length_loop-IsLength zero len lo p l h v = (len, p, refl, λ _. (l, h, v))
  length_loop-IsLength (suc fuel) len lo p l h v = elim (Bool-cases (is_digit (peek s p))) [
    | inr e ↦ (len, p, rw (length_loop, e) refl, λ _. (l, h, v))
    | inl e ↦
        let next = (len * 10 + (peek s p - 0x30)) % 2 ^ 64 in
        let q : Parser = record p { pos = p.pos + 1 } in
        let i = peek_inside s p is_digit refl e in
        elim (Bool-cases (ltb (length s) next)) [
          | inl g ↦ (next, record q { ok = false }, rw (length_loop, e, g) refl, λ i. cc)
          | inr g ↦
              let (w, t, f, r) =
                length_loop-IsLength fuel next lo q (omega arith) (omega arith) (ground arith) in
              (w, t, rw (length_loop, e, g) f, r)
        ]
  ]

  -- The first digit is taken.
  length_loop_first :
      (fuel : ℕ) (p : Parser)
      → is_digit (peek s p) ≡ true
      → p.pos ≤ length s
      → IsLength (p.pos + 1) (length_loop s (suc fuel) 0) p
  unfolding length_loop
  length_loop_first fuel p e h =
      let next = (0 * 10 + (peek s p - 0x30)) % 2 ^ 64 in
      let q : Parser = record p { pos = p.pos + 1 } in
      let i = peek_inside s p is_digit refl e in
      elim (Bool-cases (ltb (length s) next)) [
        | inl g ↦ (next, record q { ok = false }, rw (length_loop, e, g) refl, λ i. cc)
        | inr g ↦
            let (w, t, f, r) =
              length_loop-IsLength fuel next (p.pos + 1) q (omega arith) (omega arith)
                (ground arith) in
            (w, t, rw (length_loop, e, g) f, r)
      ]

  -- The index loop leaves the parser in the text.
  index_loop-Reaches :
      (fuel index lo : ℕ) (p : Parser)
      → lo ≤ p.pos
      → p.pos ≤ length s
      → (v : ℕ) × (q : Parser) × (index_loop s fuel index p ≡ some (v, q))
        × (lo ≤ q.pos)
        × (q.pos ≤ length s)
  unfolding index_loop
  index_loop-Reaches zero index lo p l h = (index, p, refl, l, h)
  index_loop-Reaches (suc fuel) index lo p l h = elim (Bool-cases (is_base36 (peek s p))) [
    | inr e ↦ (index, p, rw (index_loop, e) refl, l, h)
    | inl e ↦
        let i = peek_inside s p is_base36 refl e in
        let (v, q, f, x, y) =
          index_loop-Reaches fuel ((index * 36 + base36_value (peek s p)) % 2 ^ 64) lo
            (record p { pos = p.pos + 1 }) (omega arith) (omega arith) in
        (v, q, rw (index_loop, e) f, x, y)
  ]

  pub parse_index-Reaches :
      (lookup : ℕ → Action (List ℕ)) (lo : ℕ) (p : Parser)
      → ((index : ℕ) (q : Parser)
          → lo ≤ q.pos
          → q.pos ≤ length s
          → Reaches (length s) lo (lookup index) q)
      → lo ≤ p.pos
      → p.pos ≤ length s
      → Reaches (length s) lo (parse_index s lookup) p
  unfolding parse_index
  parse_index-Reaches lookup lo p k l h =
      let (v, q, f, x, y) = index_loop-Reaches (length s - p.pos) 0 lo p l h in
      bind-Reaches (length s) lo (index_loop s (length s - p.pos) 0)
        (λ index. expect s (text "_") (lookup (add64 index 1))) p v q f
        (expect-Reaches s (text "_") lo (lookup (add64 v 1)) q y
          (λ t l' h'. k (add64 v 1) t (omega arith) h'))

  module _ (short : length s < 2 ^ 63) where
    source_name_of-Reaches :
        (len lo : ℕ) (p : Parser)
        → len ≤ length s
        → lo ≤ p.pos
        → p.pos ≤ length s
        → Reaches (length s) lo (source_name_of s len) p
    unfolding source_name_of
    source_name_of-Reaches len lo p v l h = elim (Bool-cases (ltb (length s) (add64 p.pos len))) [
      | inl e ↦ ([], record p { ok = false }, rw (source_name_of, e) refl, λ i. cc)
      | inr e ↦
          let fits : add64 p.pos len ≤ length s = ground arith in
          (
            take len (drop p.pos s),
            record p { pos = p.pos + len },
            rw (source_name_of, e) refl,
            λ _. (omega arith, omega arith),
          )
    ]

    pub parse_source_name-Reaches :
        (p : Parser) → p.pos ≤ length s → Reaches (length s) (p.pos + 1) (parse_source_name s) p
    unfolding parse_source_name
    parse_source_name-Reaches p h = elim (Bool-cases (is_digit (peek s p))) [
      | inl e ↦
          let i = peek_inside s p is_digit refl e in
          let fuel : length s - p.pos ≡ suc (length s - p.pos - 1) = omega arith in
          let (v, q, f, r) = length_loop_first (length s - p.pos - 1) p e h in
          let (b, t, g, z) =
            checked_after (length s) (p.pos + 1) (length_loop s (length s - p.pos) 0)
              (source_name_of s) p v q (ap (λ n. length_loop s n 0 p) fuel ∙ f)
              (λ o. let (x, y, w) = r o in source_name_of-Reaches v (p.pos + 1) q w x y) in
          (b, t, rw (parse_source_name, e) g, z)
      | inr e ↦ ([], record p { ok = false }, rw (parse_source_name, e) refl, λ i. cc)
    ]

    pub parse_unqualified_name-Reaches :
        (p : Parser)
        → p.pos ≤ length s
        → Reaches (length s) (p.pos + 1) (parse_unqualified_name s) p
    unfolding parse_unqualified_name
    parse_unqualified_name-Reaches p h = elim (Bool-cases (is_digit (peek s p))) [
      | inl e ↦
          let (a, q, f, r) = parse_source_name-Reaches p h in
          (a, q, rw (parse_unqualified_name, e) f, r)
      | inr e ↦ elim (Option-cases (operator_at s p)) [
        | inl o ↦ ([], record p { ok = false }, rw (parse_unqualified_name, e, o) refl, λ i. cc)
        | inr (name, o) ↦
            let i = operator_inside s p name o in
            (
              name,
              record p { pos = p.pos + 2 },
              rw (parse_unqualified_name, e, o) refl,
              λ _. (omega arith, omega arith),
            )
      ]
    ]

  standard_inside :
      (p : Parser) (name : List ℕ) → standard_substitution (peek s p) ≡ some name → p.pos < length s
  unfolding standard_substitution
  standard_inside p name e = elim (Bool-cases (ltb p.pos (length s))) [
    | inl i ↦ ltb→lt p.pos (length s) i
    | inr i ↦
        let x : none ≡ some name = sym (ap standard_substitution (peek_outside s p i)) ∙ e in cc
  ]

  substitution_body-Reaches :
      (lo : ℕ) (p : Parser)
      → lo ≤ p.pos
      → p.pos ≤ length s
      → Reaches (length s) lo (substitution_body s) p
  unfolding substitution_body
  substitution_body-Reaches lo p l h = elim (Option-cases (standard_substitution (peek s p))) [
    | inr (name, e) ↦
        let i = standard_inside p name e in
        (
          name,
          record p { pos = p.pos + 1; last_sub_std_ns = peek s p == byte "t" },
          rw (substitution_body, e) refl,
          λ _. (omega arith, omega arith),
        )
    | inl e ↦ elim (Bool-cases (peek s p == byte "_")) [
      | inl u ↦
          let i = peek_inside s p (λ c. c == byte "_") refl u in
          let (a, q, f, r) =
            sub_at-Reaches (length s) lo 0 (record p { pos = p.pos + 1 }) (omega arith)
              (omega arith) in
          (a, q, rw (substitution_body, e, u) f, r)
      | inr u ↦ elim (Bool-cases (is_base36 (peek s p))) [
        | inl b ↦
            let (a, q, f, r) =
              parse_index-Reaches sub_at lo p
                (λ index q l' h'. sub_at-Reaches (length s) lo index q l' h') l h in
            (a, q, rw (substitution_body, e, u, b) f, r)
        | inr b ↦ ([], record p { ok = false }, rw (substitution_body, e, u, b) refl, λ i. cc)
      ]
    ]
  ]

  pub parse_substitution-Reaches :
      (p : Parser) → p.pos ≤ length s → Reaches (length s) (p.pos + 1) (parse_substitution s) p
  unfolding parse_substitution
  parse_substitution-Reaches p h = elim (Bool-cases (peek s p == byte "S")) [
    | inl e ↦
        let i = peek_inside s p (λ c. c == byte "S") refl e in
        let q : Parser = record p { last_sub_std_ns = false; pos = p.pos + 1 } in
        let (a, t, f, r) = substitution_body-Reaches (p.pos + 1) q (omega arith) (omega arith) in
        (a, t, rw (parse_substitution, e) f, r)
    | inr e ↦ (
      [],
      record p { last_sub_std_ns = false; ok = false },
      rw (parse_substitution, e) refl,
      λ i. cc,
    )
  ]

  template_param_body-Reaches :
      (lo : ℕ) (p : Parser)
      → lo ≤ p.pos
      → p.pos ≤ length s
      → Reaches (length s) lo (template_param_body s) p
  unfolding template_param_body
  template_param_body-Reaches lo p l h = elim (Bool-cases (peek s p == byte "_")) [
    | inl u ↦
        let i = peek_inside s p (λ c. c == byte "_") refl u in
        let (a, q, f, r) =
          template_arg_at-Reaches (length s) lo 0 (record p { pos = p.pos + 1 }) (omega arith)
            (omega arith) in
        (a, q, rw (template_param_body, u) f, r)
    | inr u ↦ elim (Bool-cases (is_base36 (peek s p))) [
      | inl b ↦
          let (a, q, f, r) =
            parse_index-Reaches template_arg_at lo p
              (λ index q l' h'. template_arg_at-Reaches (length s) lo index q l' h') l h in
          (a, q, rw (template_param_body, u, b) f, r)
      | inr b ↦ ([], record p { ok = false }, rw (template_param_body, u, b) refl, λ i. cc)
    ]
  ]

  pub parse_template_param-Reaches :
      (p : Parser)
      → (peek s p == byte "T") ≡ true
      → Reaches (length s) (p.pos + 1) (parse_template_param s) p
  unfolding parse_template_param
  parse_template_param-Reaches p e =
      let (f, i) = consume_here s (byte "T") p refl e in
      let q : Parser = record p { pos = p.pos + 1 } in
      bind-Reaches (length s) (p.pos + 1) (consume s (text "T")) (λ _. template_param_body s) p true
        q f (template_param_body-Reaches (p.pos + 1) q (omega arith) (omega arith))
