-- ===== src/Symbol/Demangler/Rounds.antt =====
-- The loops of src/symbol/itanium_demangler.cc whose bodies recur: one round of each.
use fn_finder.Base.{
  ℕ, suc, ◌+◌, ◌*◌, ◌^◌, ◌<◌, ◌≤◌, ◌≡◌, refl, ap, sym, ◌∙◌, Bool, true, false, not, ◌&&◌, ◌||◌,
  List, [], ◌∷◌, ◌++◌, some, ◌==◌, length, text_eq, arith, Bool-cases, inl, inr,
}
use fn_finder.Base.Text.{text, byte}
use fn_finder.Symbol.Demangler.{
  built, checked, Parser, Action, give, ◌>>=◌, failed, guarded, peek, peek_at, at_end, expect,
  add_sub, is_listed, can_start_type, parse_unqualified_name, parse_substitution,
}
use fn_finder.Symbol.Demangler.Grammar.{
  Call, NestedName, type, template_arg, nested_loop, template_args_loop, pack_loop, params_loop,
  expr_primary_body, close_template_args, template_args_body, pack_body, parse_expr_primary,
  template_arg_body, close_nested_name, nested_template_args, nested_arguments_taken,
  component_taken, with_component, is_constructor, is_destructor, nested_component, extended,
  nested_step, nested_body, close_function_type, params_body, type_body, body,
}
use fn_finder.Symbol.Demangler.Literals.{joined, is_nil, set_template, literal_value}
use fn_finder.Symbol.Demangler.Progress.{
  Reaches, Arrives, Arrives-eq, if-Arrives, give-Reaches, failed-Reaches, Reaches-weaker,
  bind-Reaches, checked-Reaches, guarded-Reaches, peek_inside, peek_at_inside, expect-Reaches,
}
use fn_finder.Symbol.Demangler.Tokens.{
  add_sub-Reaches, built-Reaches, parse_unqualified_name-Reaches, parse_substitution-Reaches,
}
use fn_finder.Symbol.Demangler.Descent.{Ends, not_at_end, literal_value-Reaches, behind-Reaches}
use fn_finder.Symbol.Demangler.Calls.{
  HasRoom, later, parse_template_args-Reaches, type_body-Reaches,
}

true_of_not : (b : Bool) → not b ≡ false → b ≡ true
true_of_not true h = refl
true_of_not false h = cc

and_right : (a b : Bool) → (a && b) ≡ true → b ≡ true
and_right true b h = h
and_right false b h = cc

module _ (s : List ℕ) (short : length s < 2 ^ 63) where
  module _ (n : ℕ) (rec : Call → Action (List ℕ)) (ends : Ends s n rec) where
    -- The next round, behind at least one byte.
    again :
        (c : Call) (lo : ℕ) (p : Parser)
        → 3 * length s ≤ n + 3 * lo
        → lo + 1 ≤ p.pos
        → p.pos ≤ length s
        → Reaches (length s) lo (rec c) p
    again c lo p fuel l h =
        Reaches-weaker (length s) (lo + 1) lo (rec c) p (omega arith)
          (later s short n rec ends c (lo + 1) p (omega arith) l h)

    -- A template argument in the scope of a guard.
    guarded_arg-Reaches :
        (p : Parser)
        → p.pos ≤ length s
        → 3 * length s + 2 ≤ n + 3 * p.pos
        → Reaches (length s) (p.pos + 1) (guarded [] (rec template_arg)) p
    guarded_arg-Reaches p h fuel =
        guarded-Reaches (length s) (p.pos + 1) [] (rec template_arg) p (λ inner e.
          Reaches-weaker (length s) (inner.pos + 1) (p.pos + 1) (rec template_arg) inner
            (omega arith) (ends template_arg inner (omega arith) (omega arith)))

    close_template_args-Reaches :
        (out : List ℕ) (args : List (List ℕ)) (p : Parser)
        → p.pos ≤ length s
        → Reaches (length s) p.pos (close_template_args s rec out args) p
    unfolding close_template_args
    close_template_args-Reaches out args p h =
        expect-Reaches s (text "E") p.pos _ p h
          (λ q l h'. built-Reaches (length s) p.pos _ (record q { template_args = args }) l h')

    -- A string that grows, and the next round.
    grow :
        (c : List ℕ → Call) (t : List ℕ) (lo : ℕ) (p : Parser)
        → 3 * length s ≤ n + 3 * lo
        → lo + 1 ≤ p.pos
        → p.pos ≤ length s
        → Reaches (length s) lo (checked (built t) (λ longer. rec (c longer))) p
    grow c t lo p fuel l h =
        checked-Reaches (length s) (lo + 1) lo (built t) (λ longer. rec (c longer)) p
          (built-Reaches (length s) (lo + 1) t p l h)
          (λ longer q l' h'. again (c longer) lo q fuel l' h')

    template_args_body-Reaches :
        (out : List ℕ) (args : List (List ℕ)) (p : Parser)
        → p.pos ≤ length s
        → 3 * length s + 2 ≤ n + 3 * p.pos
        → Reaches (length s) p.pos (template_args_body s rec out args) p
    unfolding template_args_body
    template_args_body-Reaches out args p h fuel =
        if-Arrives (length s) p.pos (at_end s p) (close_template_args s rec out args p) _
          (λ _. close_template_args-Reaches out args p h)
          (λ e.
            let i = not_at_end s p e in
            checked-Reaches (length s) (p.pos + 1) p.pos (guarded [] (rec template_arg))
              (λ arg.
                checked (built (joined (is_nil args) out arg))
                  (λ longer. rec (template_args_loop longer (args ++ arg ∷ []))))
              p (guarded_arg-Reaches p h fuel)
              (λ arg q l h'.
                grow (λ longer. template_args_loop longer (args ++ arg ∷ []))
                  (joined (is_nil args) out arg) p.pos q (omega arith) l h'))

    pack_body-Reaches :
        (out : List ℕ) (first : Bool) (p : Parser)
        → p.pos ≤ length s
        → 3 * length s + 2 ≤ n + 3 * p.pos
        → Reaches (length s) p.pos (pack_body s rec out first) p
    unfolding pack_body
    pack_body-Reaches out first p h fuel =
        if-Arrives (length s) p.pos (at_end s p) (expect s (text "E") (give out) p) _
          (λ _.
            expect-Reaches s (text "E") p.pos (give out) p h
              (λ q l h'. give-Reaches (length s) p.pos out q l h'))
          (λ e.
            let i = not_at_end s p e in
            checked-Reaches (length s) (p.pos + 1) p.pos (rec template_arg)
              (λ t. checked (built (joined first out t)) (λ longer. rec (pack_loop longer false))) p
              (ends template_arg p h fuel)
              (λ t q l h'.
                grow (λ longer. pack_loop longer false) (joined first out t) p.pos q (omega arith) l
                  h'))

    close_function_type-Reaches :
        (ret params : List ℕ) (lo : ℕ) (p : Parser)
        → lo ≤ p.pos
        → p.pos ≤ length s
        → Reaches (length s) lo (close_function_type s rec ret params) p
    unfolding close_function_type
    close_function_type-Reaches ret params lo p l h =
        expect-Reaches s (text "E") lo (add_sub (ret ++ text " (" ++ params ++ text ")")) p h
          (λ q l' h'.
            add_sub-Reaches (length s) lo (ret ++ text " (" ++ params ++ text ")") q (omega arith)
              h')

    params_body-Reaches :
        (ret params : List ℕ) (p : Parser)
        → p.pos ≤ length s
        → 3 * length s + 1 ≤ n + 3 * p.pos
        → Reaches (length s) p.pos (params_body s rec ret params) p
    unfolding params_body
    params_body-Reaches ret params p h fuel =
        if-Arrives (length s) p.pos (at_end s p) (close_function_type s rec ret params p) _
          (λ _. close_function_type-Reaches ret params p.pos p (omega arith) h)
          (λ e.
            let i = not_at_end s p e in
            checked-Reaches (length s) (p.pos + 1) p.pos (rec type) _ p (ends type p h fuel)
              (λ t q l h'.
                if-Arrives (length s) p.pos
                  (text_eq t (text "void") && (is_nil params && (peek s q == byte "E")))
                  (close_function_type s rec ret params q) _
                  (λ _. close_function_type-Reaches ret params p.pos q (omega arith) h')
                  (λ _.
                    grow (λ longer. params_loop ret longer) (joined (is_nil params) params t) p.pos
                      q (omega arith) l h')))

    expr_primary_body-Reaches :
        (lo : ℕ) (p : Parser)
        → HasRoom s n lo
        → lo ≤ p.pos
        → p.pos ≤ length s
        → Reaches (length s) lo (expr_primary_body s rec) p
    unfolding expr_primary_body
    expr_primary_body-Reaches lo p room l h =
        if-Arrives (length s) lo (not (peek s p == byte "_") && can_start_type (peek s p)) _ _
          (λ _.
            checked-Reaches (length s) lo lo (rec type) (literal_value s) p
              (later s short n rec ends type lo p room l h)
              (λ kind q l' h'. literal_value-Reaches s lo kind q l' h'))
          (λ _. literal_value-Reaches s lo [] p l h)

    template_arg_body-Reaches :
        (p : Parser)
        → p.pos ≤ length s
        → 3 * length s + 1 ≤ n + 3 * p.pos
        → Reaches (length s) (p.pos + 1) (template_arg_body s rec) p
    unfolding template_arg_body parse_expr_primary
    template_arg_body-Reaches p h fuel =
        let lo = p.pos + 1 in
        if-Arrives (length s) lo (peek s p == byte "L") (parse_expr_primary s rec p) _
          (λ e.
            behind-Reaches s (byte "L") lo (expr_primary_body s rec) p refl e
              (λ q x h'. expr_primary_body-Reaches lo q (omega arith) (omega arith) h'))
          (λ _.
            if-Arrives (length s) lo (peek s p == byte "X") (failed [] p) _
              (λ _. failed-Reaches (length s) lo [] p)
              (λ _.
                if-Arrives (length s) lo (peek s p == byte "J") _ (rec type p)
                  (λ e.
                    let i = peek_inside s p (λ c. c == byte "J") refl e in
                    later s short n rec ends (pack_loop [] true) lo (record p { pos = p.pos + 1 })
                      (omega arith) (omega arith) (omega arith))
                  (λ _. ends type p h fuel)))

    -- A value behind a substitution that is added.
    added-Arrives :
        {A : Type 0} (lo : ℕ) (component : List ℕ) (a : A) (q : Parser)
        → lo ≤ q.pos
        → q.pos ≤ length s
        → Arrives (length s) lo ((add_sub component >>= (λ _. give a)) q)
    added-Arrives lo component a q l h =
        let (b, t, f, r) = add_sub-Reaches (length s) lo component q l h in
        bind-Reaches (length s) lo (add_sub component) (λ _. give a) q b t f (a, t, refl, r)

    built-Arrives :
        {A : Type 0} (lo : ℕ) (t : List ℕ) (a : A) (q : Parser)
        → lo ≤ q.pos
        → q.pos ≤ length s
        → Arrives (length s) lo ((built t >>= (λ _. give a)) q)
    built-Arrives lo t a q l h =
        let (b, u, f, r) = built-Reaches (length s) lo t q l h in
        bind-Reaches (length s) lo (built t) (λ _. give a) q b u f (a, u, refl, r)

    nested_template_args-Reaches :
        (m : NestedName) (p : Parser)
        → HasRoom s n (p.pos + 1)
        → (peek s p == byte "I") ≡ true
        → Reaches (length s) (p.pos + 1) (nested_template_args s rec m) p
    unfolding nested_template_args nested_arguments_taken
    nested_template_args-Reaches m p room e =
        let lo = p.pos + 1 in
        let (args, q, f, r) =
          parse_template_args-Reaches s short n rec ends lo p room (omega arith) e in
        Arrives-eq (length s) lo (nested_template_args s rec m p)
          (nested_arguments_taken s rec m args q) (rw (nested_template_args, f) refl)
          (if-Arrives (length s) lo (not q.ok) (some (m, q)) _
            (λ e. (m, q, refl, λ i. let x : false ≡ true = sym (ap not i) ∙ e in cc))
            (λ o.
              let (l, h) = r (true_of_not q.ok o) in
              if-Arrives (length s) lo (peek s q == byte "E") _ _
                (λ _.
                  built-Arrives lo (m.result ++ args) (record m { result = m.result ++ args })
                    (set_template q) l h)
                (λ _.
                  added-Arrives lo (m.result ++ args) (record m { result = m.result ++ args })
                    (set_template q) l h)))

    two_taken :
        (p : Parser) (digits : List ℕ) (b : Bool)
        → is_listed digits 0 ≡ false
        → (b && is_listed digits (peek_at s 1 p)) ≡ true
        → (p.pos + 1 ≤ p.pos + 2) × (p.pos + 2 ≤ length s)
    two_taken p digits b z e =
        let i = peek_at_inside s p (is_listed digits) z (and_right b _ e) in
        (omega arith, omega arith)

    nested_component-Reaches :
        (m : NestedName) (p : Parser)
        → p.pos ≤ length s
        → Reaches (length s) (p.pos + 1) (nested_component s rec m) p
    unfolding nested_component is_constructor is_destructor is_listed
    nested_component-Reaches m p h =
        let lo = p.pos + 1 in
        if-Arrives (length s) lo (peek s p == byte "S") (parse_substitution s p) _
          (λ _. parse_substitution-Reaches s p h)
          (λ _.
            if-Arrives (length s) lo (is_constructor s rec p) _ _
              (λ e. (
                m.last_component,
                record p { pos = p.pos + 2 },
                refl,
                λ _. two_taken p (text "12345") (peek s p == byte "C") refl e,
              ))
              (λ _.
                if-Arrives (length s) lo (is_destructor s rec p) _ (parse_unqualified_name s p)
                  (λ e.
                    let (l, h') = two_taken p (text "01245") (peek s p == byte "D") refl e in
                    built-Reaches (length s) lo (text "~" ++ m.last_component)
                      (record p { pos = p.pos + 2 }) l h')
                  (λ _. parse_unqualified_name-Reaches s short p h)))

    nested_step-Reaches :
        (m : NestedName) (p : Parser)
        → HasRoom s n (p.pos + 1)
        → p.pos ≤ length s
        → Reaches (length s) (p.pos + 1) (nested_step s rec m) p
    unfolding nested_step component_taken
    nested_step-Reaches m p room h = elim (Bool-cases (peek s p == byte "I")) [
      | inl e ↦
          Arrives-eq (length s) (p.pos + 1) (nested_step s rec m p) (nested_template_args s rec m p)
            (rw (nested_step, e) refl) (nested_template_args-Reaches m p room e)
      | inr e ↦
          let lo = p.pos + 1 in
          let (c, q, f, r) = nested_component-Reaches m p h in
          Arrives-eq (length s) lo (nested_step s rec m p) (component_taken s rec p m c q)
            (rw (nested_step, e, f) refl)
            (if-Arrives (length s) lo (not q.ok) (some (m, q)) _
              (λ e. (m, q, refl, λ i. let x : false ≡ true = sym (ap not i) ∙ e in cc))
              (λ o.
                let (l, h) = r (true_of_not q.ok o) in
                if-Arrives (length s) lo (peek s q == byte "E" || peek s p == byte "S") _ _
                  (λ _.
                    built-Arrives lo (extended m c) (with_component s rec p m c)
                      (record q { last_was_template = false }) l h)
                  (λ _.
                    added-Arrives lo (extended m c) (with_component s rec p m c)
                      (record q { last_was_template = false }) l h)))
    ]

    close_nested_name-Reaches :
        (as_type : Bool) (result : List ℕ) (p : Parser)
        → p.pos ≤ length s
        → Reaches (length s) p.pos (close_nested_name s rec as_type result) p
    unfolding close_nested_name
    close_nested_name-Reaches true result p h =
        expect-Reaches s (text "E") p.pos (add_sub result) p h
          (λ q l h'. add_sub-Reaches (length s) p.pos result q l h')
    close_nested_name-Reaches false result p h =
        expect-Reaches s (text "E") p.pos (give result) p h
          (λ q l h'. give-Reaches (length s) p.pos result q l h')

    nested_body-Reaches :
        (as_type : Bool) (m : NestedName) (p : Parser)
        → p.pos ≤ length s
        → 3 * length s ≤ n + 3 * p.pos
        → Reaches (length s) p.pos (nested_body s rec as_type m) p
    unfolding nested_body
    nested_body-Reaches as_type m p h fuel =
        if-Arrives (length s) p.pos (at_end s p) (close_nested_name s rec as_type m.result p) _
          (λ _. close_nested_name-Reaches as_type m.result p h)
          (λ e.
            let i = not_at_end s p e in
            checked-Reaches (length s) (p.pos + 1) p.pos (guarded m (nested_step s rec m))
              (λ k. rec (nested_loop as_type k)) p
              (guarded-Reaches (length s) (p.pos + 1) m (nested_step s rec m) p (λ inner z.
                Reaches-weaker (length s) (inner.pos + 1) (p.pos + 1) (nested_step s rec m) inner
                  (omega arith) (nested_step-Reaches m inner (omega arith) (omega arith))))
              (λ k q l h'. again (nested_loop as_type k) p.pos q fuel l h'))

    -- One call, with one unit of fuel more.
    pub body-Ends : Ends s (suc n) (body s rec)
    unfolding body
    body-Ends type p h fuel =
        guarded-Reaches (length s) (p.pos + 1) [] (type_body s rec) p (λ inner z.
          Reaches-weaker (length s) (inner.pos + 1) (p.pos + 1) (type_body s rec) inner
            (omega arith) (type_body-Reaches s short n rec ends inner (omega arith) (omega arith)))
    body-Ends template_arg p h fuel =
        guarded-Reaches (length s) (p.pos + 1) [] (template_arg_body s rec) p (λ inner z.
          Reaches-weaker (length s) (inner.pos + 1) (p.pos + 1) (template_arg_body s rec) inner
            (omega arith) (template_arg_body-Reaches inner (omega arith) (omega arith)))
    body-Ends (nested_loop as_type m) p h fuel =
        Reaches-weaker (length s) p.pos (p.pos + 0) (nested_body s rec as_type m) p (omega arith)
          (nested_body-Reaches as_type m p h (omega arith))
    body-Ends (template_args_loop out args) p h fuel =
        Reaches-weaker (length s) p.pos (p.pos + 0) (template_args_body s rec out args) p
          (omega arith) (template_args_body-Reaches out args p h (omega arith))
    body-Ends (pack_loop out first) p h fuel =
        Reaches-weaker (length s) p.pos (p.pos + 0) (pack_body s rec out first) p (omega arith)
          (pack_body-Reaches out first p h (omega arith))
    body-Ends (params_loop ret params) p h fuel =
        Reaches-weaker (length s) p.pos (p.pos + 0) (params_body s rec ret params) p (omega arith)
          (params_body-Reaches ret params p h (omega arith))
