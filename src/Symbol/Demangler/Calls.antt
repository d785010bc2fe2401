-- ===== src/Symbol/Demangler/Calls.antt =====
-- The calls of src/symbol/itanium_demangler.cc, given that the calls that they make end.
use fn_finder.Base.{
  ℕ, suc, ◌+◌, ◌-◌, ◌*◌, ◌^◌, ◌<◌, ◌≤◌, ◌≡◌, refl, ap, ◌∙◌, Bool, true, ◌&&◌, ◌||◌, List, [], ◌++◌,
  ◌==◌, length, arith, Bool-cases, inl, inr,
}
use fn_finder.Base.Text.{text, byte}
use fn_finder.Symbol.Demangler.{
  built, Parser, Action, checked, peek, is_digit, add_sub, operator_at, is_some, is_listed,
  parse_source_name, parse_unqualified_name, parse_substitution,
}
use fn_finder.Symbol.Demangler.Grammar.{
  Call, type, nested_loop, template_args_loop, params_loop, without_reference, nested_name_body,
  function_type_body, parse_template_args, parse_nested_name, parse_function_type, std_member,
  suffixed_type, suffixed_name, substituted_type, named_type, qualified_type, type_body,
}
use fn_finder.Symbol.Demangler.Literals.{
  skip_qualifiers, qualifiers_loop, qualifier, pointer_suffix,
}
use fn_finder.Symbol.Demangler.Progress.{
  Reaches, if-Arrives, Reaches-weaker, bind-Reaches, checked-Reaches, peek_inside,
}
use fn_finder.Symbol.Demangler.Tokens.{
  add_sub-Reaches, built-Reaches, parse_source_name-Reaches, parse_unqualified_name-Reaches,
  parse_substitution-Reaches, parse_template_param-Reaches,
}
use fn_finder.Symbol.Demangler.Descent.{
  gain, rank_le, Ends, skip_qualifiers_stays, qualifiers_loop-Reaches, builtin_type-Reaches,
  behind-Reaches, parse_extended_builtin-Reaches,
}

without_reference_stays :
    (s : List ℕ) (rec : Call → Action (List ℕ)) (lo : ℕ) (p : Parser)
    → lo ≤ p.pos
    → p.pos ≤ length s
    → (lo ≤ (without_reference s rec p).pos) × ((without_reference s rec p).pos ≤ length s)
unfolding is_listed without_reference
without_reference_stays s rec lo p l h = elim (Bool-cases (is_listed (text "RO") (peek s p))) [
  | inl e ↦
      let i = peek_inside s p (is_listed (text "RO")) refl e in
      rw (without_reference, e) (omega arith, omega arith)
  | inr e ↦ rw (without_reference, e) (l, h)
]

-- The fuel `n` reaches for any call from `lo` on.
abbrev pub HasRoom : List ℕ → (n lo : ℕ) → Type 0
HasRoom s n lo = 3 * length s + 3 ≤ n + 3 * lo

module _ (s : List ℕ) (short : length s < 2 ^ 63) where
  module _ (n : ℕ) (rec : Call → Action (List ℕ)) (ends : Ends s n rec) where
    pub later :
        (c : Call) (lo : ℕ) (p : Parser)
        → HasRoom s n lo
        → lo ≤ p.pos
        → p.pos ≤ length s
        → Reaches (length s) lo (rec c) p
    later c lo p room l h =
        let r = rank_le c in
        Reaches-weaker (length s) (p.pos + gain c) lo (rec c) p (omega arith)
          (ends c p h (omega arith))

    pub parse_template_args-Reaches :
        (lo : ℕ) (p : Parser)
        → HasRoom s n lo
        → lo ≤ p.pos + 1
        → (peek s p == byte "I") ≡ true
        → Reaches (length s) lo (parse_template_args s rec) p
    unfolding parse_template_args
    parse_template_args-Reaches lo p room l e =
        behind-Reaches s (byte "I") lo (rec (template_args_loop (text "<") [])) p refl e
          (λ q x h. later (template_args_loop (text "<") []) lo q room (omega arith) h)

    -- Template arguments that may follow, and the substitution of the whole.
    pub suffix-Reaches :
        (lo : ℕ) (name : List ℕ) (p : Parser)
        → HasRoom s n lo
        → lo ≤ p.pos
        → p.pos ≤ length s
        → (peek s p == byte "I") ≡ true
        → Reaches
            (length s)
            lo
            (checked (parse_template_args s rec) (λ args. add_sub (name ++ args)))
            p
    suffix-Reaches lo name p room l h e =
        checked-Reaches (length s) lo lo (parse_template_args s rec)
          (λ args. add_sub (name ++ args)) p (parse_template_args-Reaches lo p room (omega arith) e)
          (λ args q l' h'. add_sub-Reaches (length s) lo (name ++ args) q l' h')

    pub std_member-Reaches :
        (lo : ℕ) (prefix : List ℕ) (p : Parser)
        → lo ≤ p.pos
        → p.pos ≤ length s
        → Reaches (length s) lo (std_member s rec prefix) p
    unfolding std_member
    std_member-Reaches lo prefix p l h =
        elim (Bool-cases
          (p.last_sub_std_ns && (is_digit (peek s p) || is_some (operator_at s p)))) [
            | inr e ↦ (prefix, p, rw (std_member, e) refl, λ _. (l, h))
            | inl e ↦
                let (a, q, f, r) =
                  checked-Reaches (length s) lo lo (parse_unqualified_name s)
                    (λ nested. add_sub (prefix ++ text "::" ++ nested)) p
                    (Reaches-weaker (length s) (p.pos + 1) lo (parse_unqualified_name s) p
                      (omega arith) (parse_unqualified_name-Reaches s short p h))
                    (λ nested q l' h'.
                      add_sub-Reaches (length s) lo (prefix ++ text "::" ++ nested) q l' h') in
                (a, q, rw (std_member, e) f, r)
          ]

    suffixed_type-Reaches :
        (lo : ℕ) (result : List ℕ) (p : Parser)
        → HasRoom s n lo
        → lo ≤ p.pos
        → p.pos ≤ length s
        → Reaches (length s) lo (suffixed_type s rec result) p
    unfolding suffixed_type
    suffixed_type-Reaches lo result p room l h = elim (Bool-cases (peek s p == byte "I")) [
      | inl e ↦
          let (a, q, f, r) = suffix-Reaches lo result p room l h e in
          (a, q, rw (suffixed_type, e) f, r)
      | inr e ↦ (result, p, rw (suffixed_type, e) refl, λ _. (l, h))
    ]

    suffixed_name-Reaches :
        (lo : ℕ) (result : List ℕ) (p : Parser)
        → HasRoom s n lo
        → lo ≤ p.pos
        → p.pos ≤ length s
        → Reaches (length s) lo (suffixed_name s rec result) p
    unfolding suffixed_name
    suffixed_name-Reaches lo result p room l h = elim (Bool-cases (peek s p == byte "I")) [
      | inl e ↦
          let (a, q, f, r) = suffix-Reaches lo result p room l h e in
          (a, q, rw (suffixed_name, e) f, r)
      | inr e ↦
          let (a, q, f, r) = add_sub-Reaches (length s) lo result p l h in
          (a, q, rw (suffixed_name, e) f, r)
    ]

    substituted_type-Reaches :
        (p : Parser)
        → HasRoom s n (p.pos + 1)
        → p.pos ≤ length s
        → Reaches (length s) (p.pos + 1) (substituted_type s rec) p
    unfolding substituted_type
    substituted_type-Reaches p room h =
        let lo = p.pos + 1 in
        checked-Reaches (length s) lo lo (parse_substitution s) _ p
          (parse_substitution-Reaches s p h)
          (λ prefix q l' h'.
            checked-Reaches (length s) lo lo (std_member s rec prefix) (suffixed_type s rec) q
              (std_member-Reaches lo prefix q l' h')
              (λ result t l'' h''. suffixed_type-Reaches lo result t room l'' h''))

    named_type-Reaches :
        (p : Parser)
        → HasRoom s n (p.pos + 1)
        → p.pos ≤ length s
        → Reaches (length s) (p.pos + 1) (named_type s rec) p
    unfolding named_type
    named_type-Reaches p room h =
        let lo = p.pos + 1 in
        checked-Reaches (length s) lo lo (parse_source_name s) (suffixed_name s rec) p
          (parse_source_name-Reaches s short p h)
          (λ result q l' h'. suffixed_name-Reaches lo result q room l' h')

    -- A type, and the substitution of what is made of it.
    derived-Reaches :
        (lo : ℕ) (suffix : List ℕ) (p : Parser)
        → HasRoom s n lo
        → lo ≤ p.pos
        → p.pos ≤ length s
        → Reaches (length s) lo (checked (rec type) (λ base. add_sub (base ++ suffix))) p
    derived-Reaches lo suffix p room l h =
        checked-Reaches (length s) lo lo (rec type) (λ base. add_sub (base ++ suffix)) p
          (later type lo p room l h)
          (λ base q l' h'. add_sub-Reaches (length s) lo (base ++ suffix) q l' h')

    qualified_type-Reaches :
        (p : Parser)
        → HasRoom s n (p.pos + 1)
        → p.pos ≤ length s
        → is_listed (text "KVr") (peek s p) ≡ true
        → Reaches (length s) (p.pos + 1) (qualified_type s rec) p
    unfolding qualified_type qualifiers_loop is_listed
    qualified_type-Reaches p room h e =
        let i = peek_inside s p (is_listed (text "KVr")) refl e in
        let fuel : length s - p.pos ≡ suc (length s - p.pos - 1) = omega arith in
        let (v, q, f, x, y) =
          qualifiers_loop-Reaches s (length s - p.pos - 1) (p.pos + 1) (qualifier (peek s p) ++ [])
            (record p { pos = p.pos + 1 }) (omega arith) (omega arith) in
        bind-Reaches (length s) (p.pos + 1) (qualifiers_loop s (length s - p.pos) [])
          (λ qualifiers.
            checked (built qualifiers)
              (λ suffix. checked (rec type) (λ base. add_sub (base ++ suffix))))
          p v q (ap (λ k. qualifiers_loop s k [] p) fuel ∙ rw (qualifiers_loop, e) f)
          (checked-Reaches (length s) (p.pos + 1) (p.pos + 1) (built v)
            (λ suffix. checked (rec type) (λ base. add_sub (base ++ suffix))) q
            (built-Reaches (length s) (p.pos + 1) v q x y)
            (λ suffix t x' y'. derived-Reaches (p.pos + 1) suffix t room x' y'))

    nested_name_body-Reaches :
        (as_type : Bool) (lo : ℕ) (p : Parser)
        → HasRoom s n lo
        → lo ≤ p.pos
        → p.pos ≤ length s
        → Reaches (length s) lo (nested_name_body s rec as_type) p
    unfolding nested_name_body
    nested_name_body-Reaches as_type lo p room l h =
        let (x, y) = skip_qualifiers_stays s (length s - p.pos) lo p l h in
        let t = skip_qualifiers s (length s - p.pos) p in
        let (x', y') = without_reference_stays s rec lo t x y in
        later (nested_loop as_type (record { result = []; last_component = []; first = true })) lo
          (without_reference s rec t) room x' y'

    pub parse_nested_name-Reaches :
        (as_type : Bool) (p : Parser)
        → HasRoom s n (p.pos + 1)
        → (peek s p == byte "N") ≡ true
        → Reaches (length s) (p.pos + 1) (parse_nested_name s rec as_type) p
    unfolding parse_nested_name
    parse_nested_name-Reaches as_type p room e =
        behind-Reaches s (byte "N") (p.pos + 1) (nested_name_body s rec as_type) p refl e
          (λ q x h. nested_name_body-Reaches as_type (p.pos + 1) q room (omega arith) h)

    function_type_body-Reaches :
        (lo : ℕ) (p : Parser)
        → HasRoom s n lo
        → lo ≤ p.pos
        → p.pos ≤ length s
        → Reaches (length s) lo (function_type_body s rec) p
    unfolding function_type_body
    function_type_body-Reaches lo p room l h =
        let after : (q : Parser)
            → lo ≤ q.pos
            → q.pos ≤ length s
            → Reaches (length s) lo (checked (rec type) (λ ret. rec (params_loop ret []))) q =
          λ q l' h'.
            checked-Reaches (length s) lo lo (rec type) (λ ret. rec (params_loop ret [])) q
              (later type lo q room l' h')
              (λ ret t l'' h''. later (params_loop ret []) lo t room l'' h'') in
        elim (Bool-cases (peek s p == byte "Y")) [
          | inl e ↦
              let i = peek_inside s p (λ c. c == byte "Y") refl e in
              let (a, q, f, r) = after (record p { pos = p.pos + 1 }) (omega arith) (omega arith) in
              (a, q, rw (function_type_body, e) f, r)
          | inr e ↦ let (a, q, f, r) = after p l h in (a, q, rw (function_type_body, e) f, r)
        ]

    parse_function_type-Reaches :
        (p : Parser)
        → HasRoom s n (p.pos + 1)
        → (peek s p == byte "F") ≡ true
        → Reaches (length s) (p.pos + 1) (parse_function_type s rec) p
    unfolding parse_function_type
    parse_function_type-Reaches p room e =
        behind-Reaches s (byte "F") (p.pos + 1) (function_type_body s rec) p refl e
          (λ q x h. function_type_body-Reaches (p.pos + 1) q room (omega arith) h)

    pub type_body-Reaches :
        (p : Parser)
        → HasRoom s n (p.pos + 1)
        → p.pos ≤ length s
        → Reaches (length s) (p.pos + 1) (type_body s rec) p
    unfolding type_body is_listed
    type_body-Reaches p room h =
        let lo = p.pos + 1 in
        if-Arrives (length s) lo _ _ _ (qualified_type-Reaches p room h) (λ _.
          if-Arrives (length s) lo _ _ _
            (λ e.
              let i = peek_inside s p (is_listed (text "PRO")) refl e in
              derived-Reaches lo (pointer_suffix (peek s p)) (record p { pos = p.pos + 1 }) room
                (omega arith) (omega arith))
            (λ _. if-Arrives (length s) lo _ _ _ (parse_nested_name-Reaches true p room) (λ _.
              if-Arrives (length s) lo (peek s p == byte "S") (substituted_type s rec p) _
                (λ _. substituted_type-Reaches p room h)
                (λ _. if-Arrives (length s) lo _ _ _ (parse_template_param-Reaches s p) (λ _.
                  if-Arrives (length s) lo (is_digit (peek s p)) (named_type s rec p) _
                    (λ _. named_type-Reaches p room h)
                    (λ _. if-Arrives (length s) lo _ _ _ (parse_function_type-Reaches p room) (λ _.
                      if-Arrives (length s) lo _ _ _ (parse_extended_builtin-Reaches s p)
                        (λ _. builtin_type-Reaches s p))))))))
