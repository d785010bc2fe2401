-- ===== src/Symbol/Demangler/Grammar.antt =====
-- The recursive descent of src/symbol/itanium_demangler.cc. A call that recurs is a `Call`, and a
-- loop whose body recurs is the call of what follows from its head, with the loop's variables; each
-- call takes one unit of fuel, and none that is left is `none`.
use fn_finder.Base.{
  ℕ, ◌+◌, ◌-◌, Bool, true, false, not, ◌&&◌, ◌||◌, List, [], ◌∷◌, ◌++◌, Option, none, some, ◌==◌,
  if◌then◌else◌, length, text_eq,
}
use fn_finder.Base.Text.{text, byte}
use fn_finder.Symbol.Demangler.{
  Parser, Action, give, ◌>>=◌, checked, failed, guarded, advance, is_digit, can_start_type, add_sub,
  built, peek_at, peek, at_end, consume, expect, operator_at, is_some, parse_source_name,
  parse_unqualified_name, parse_template_param, parse_substitution, is_listed,
}
use fn_finder.Symbol.Demangler.Literals.{
  joined, is_nil, ends_with_angle, set_template, pointer_suffix, skip_qualifiers, qualifiers_loop,
  literal_value, parse_extended_builtin, builtin_type,
}

pub record NestedName : Type 0 where
  pub result : List ℕ
  pub last_component : List ℕ
  pub first : Bool

pub data Call : Type 0 where
  type : Call
  template_arg : Call
  nested_loop : (as_type : Bool) → NestedName → Call
  template_args_loop : (out : List ℕ) → (args : List (List ℕ)) → Call
  pack_loop : (out : List ℕ) → (first : Bool) → Call
  params_loop : (ret params : List ℕ) → Call

abbrev pub extended : NestedName → (component : List ℕ) → List ℕ
extended n component = if n.first then component else n.result ++ text "::" ++ component

module _ (s : List ℕ) where
  module _ (rec : Call → Action (List ℕ)) where
    unfoldable pub parse_template_args : Action (List ℕ)
    unfolding consume
    parse_template_args = consume s (text "I") >>= (λ _. rec (template_args_loop (text "<") []))

    -- Behind the loop of `parseTemplateArgs`.
    unfoldable pub close_template_args : List ℕ → List (List ℕ) → Action (List ℕ)
    unfolding built expect ends_with_angle
    close_template_args out args = expect s (text "E") (λ p.
        built ((if ends_with_angle out then out ++ text " " else out) ++ text ">")
          (record p { template_args = args }))

    unfoldable pub template_args_body : List ℕ → List (List ℕ) → Action (List ℕ)
    unfolding built at_end guarded close_template_args
    template_args_body out args p =
        if at_end s p
        then close_template_args out args p
        else checked (guarded [] (rec template_arg))
            (λ arg.
              checked (built (joined (is_nil args) out arg))
                (λ longer. rec (template_args_loop longer (args ++ arg ∷ []))))
            p

    unfoldable pub pack_body : (out : List ℕ) → (first : Bool) → Action (List ℕ)
    unfolding built at_end expect
    pack_body out first p =
        if at_end s p
        then expect s (text "E") (give out) p
        else checked (rec template_arg)
            (λ t. checked (built (joined first out t)) (λ longer. rec (pack_loop longer false))) p

    -- What stands behind the `L`.
    unfoldable pub expr_primary_body : Action (List ℕ)
    unfolding can_start_type literal_value
    expr_primary_body p =
        if not (peek s p == byte "_") && can_start_type (peek s p)
        then checked (rec type) (literal_value s) p
        else literal_value s [] p

    unfoldable pub parse_expr_primary : Action (List ℕ)
    unfolding consume expr_primary_body
    parse_expr_primary = consume s (text "L") >>= (λ _. expr_primary_body)

    unfoldable pub template_arg_body : Action (List ℕ)
    unfolding parse_expr_primary
    template_arg_body p =
        let c = peek s p in
        if c == byte "L"
        then parse_expr_primary p
        else if c == byte "X"
        then failed [] p
        else if c == byte "J"
        then (advance 1 >>= (λ _. rec (pack_loop [] true))) p
        else rec type p

    unfoldable pub close_nested_name : (as_type : Bool) → List ℕ → Action (List ℕ)
    unfolding expect add_sub
    close_nested_name as_type result =
        expect s (text "E") (if as_type then add_sub result else give result)

    -- The parts of the loop of `parseNestedName`: the template arguments, a component, and what
    -- follows a component.
    unfoldable pub nested_arguments_taken :
        NestedName → (args : List ℕ) → Parser → Option (NestedName × Parser)
    unfolding built add_sub
    nested_arguments_taken n args q =
        let m : NestedName = record n { result = n.result ++ args } in
        if not q.ok
        then some (n, q)
        else if peek s q == byte "E"
        then (built (n.result ++ args) >>= (λ _. give m)) (set_template q)
        else (add_sub (n.result ++ args) >>= (λ _. give m)) (set_template q)

    unfoldable pub nested_template_args : NestedName → Action NestedName
    unfolding parse_template_args nested_arguments_taken
    nested_template_args n p = elim (parse_template_args p) [
      | none ↦ none
      | some (args, q) ↦ nested_arguments_taken n args q
    ]

    unfoldable pub is_constructor : Parser → Bool
    unfolding peek peek_at is_listed
    is_constructor p = peek s p == byte "C" && is_listed (text "12345") (peek_at s 1 p)

    unfoldable pub is_destructor : Parser → Bool
    unfolding peek peek_at is_listed
    is_destructor p = peek s p == byte "D" && is_listed (text "01245") (peek_at s 1 p)

    unfoldable pub nested_component : NestedName → Action (List ℕ)
    unfolding built parse_substitution parse_unqualified_name is_constructor is_destructor
    nested_component n p =
        if peek s p == byte "S"
        then parse_substitution s p
        else if is_constructor p
        then (advance 2 >>= (λ _. give n.last_component)) p
        else if is_destructor p
        then (advance 2 >>= (λ _. built (text "~" ++ n.last_component))) p
        else parse_unqualified_name s p

    -- A constructor and a destructor leave `lastComponent` as it was.
    unfoldable pub last_component_of : Parser → NestedName → (component : List ℕ) → List ℕ
    unfolding is_constructor is_destructor
    last_component_of p n component =
        if is_constructor p || is_destructor p then n.last_component else component

    -- Behind a component that began at `p`.
    abbrev pub with_component : Parser → NestedName → (component : List ℕ) → NestedName
    unfolding last_component_of
    with_component p n component = record {
      result = extended n component;
      last_component = last_component_of p n component;
      first = false;
    }

    unfoldable pub component_taken :
        Parser → NestedName → (component : List ℕ) → Parser → Option (NestedName × Parser)
    unfolding built add_sub with_component
    component_taken p n component q =
        let r : Parser = record q { last_was_template = false } in
        if not q.ok
        then some (n, q)
        else if peek s q == byte "E" || peek s p == byte "S"
        then (built (extended n component) >>= (λ _. give (with_component p n component))) r
        else (add_sub (extended n component) >>= (λ _. give (with_component p n component))) r

    unfoldable pub nested_step : NestedName → Action NestedName
    unfolding nested_template_args nested_component component_taken
    nested_step n p = elim (peek s p == byte "I") [
      | true ↦ nested_template_args n p
      | false ↦ elim (nested_component n p) [
        | none ↦ none
        | some (component, q) ↦ component_taken p n component q
      ]
    ]

    unfoldable pub nested_body : (as_type : Bool) → NestedName → Action (List ℕ)
    unfolding at_end close_nested_name nested_step guarded
    nested_body as_type n p =
        if at_end s p
        then close_nested_name as_type n.result p
        else checked (guarded n (nested_step n)) (λ m. rec (nested_loop as_type m)) p

    -- What stands behind the `N`.
    unfoldable pub without_reference : Parser → Parser
    unfolding peek is_listed
    without_reference p =
        if is_listed (text "RO") (peek s p) then record p { pos = p.pos + 1 } else p

    unfoldable pub nested_name_body : (as_type : Bool) → Action (List ℕ)
    unfolding skip_qualifiers without_reference
    nested_name_body as_type p =
        rec (nested_loop as_type (record { result = []; last_component = []; first = true }))
          (without_reference (skip_qualifiers s (length s - p.pos) p))

    unfoldable pub parse_nested_name : (as_type : Bool) → Action (List ℕ)
    unfolding consume nested_name_body
    parse_nested_name as_type = consume s (text "N") >>= (λ _. nested_name_body as_type)

    unfoldable pub close_function_type : (ret params : List ℕ) → Action (List ℕ)
    unfolding expect add_sub
    close_function_type ret params =
        expect s (text "E") (add_sub (ret ++ text " (" ++ params ++ text ")"))

    unfoldable pub params_body : (ret params : List ℕ) → Action (List ℕ)
    unfolding built at_end close_function_type text_eq
    params_body ret params p =
        if at_end s p
        then close_function_type ret params p
        else checked (rec type)
            (λ t q.
              if text_eq t (text "void") && (is_nil params && (peek s q == byte "E"))
              then close_function_type ret params q
              else checked (built (joined (is_nil params) params t))
                  (λ longer. rec (params_loop ret longer)) q)
            p

    -- What stands behind the `F`.
    unfoldable pub function_type_body : Action (List ℕ)
    unfolding peek
    function_type_body p =
        checked (rec type) (λ ret. rec (params_loop ret []))
          (if peek s p == byte "Y" then record p { pos = p.pos + 1 } else p)

    unfoldable pub parse_function_type : Action (List ℕ)
    unfolding consume function_type_body
    parse_function_type = consume s (text "F") >>= (λ _. function_type_body)

    -- `std::` and a member of it.
    unfoldable pub std_member : List ℕ → Action (List ℕ)
    unfolding parse_unqualified_name add_sub operator_at
    std_member prefix p =
        if p.last_sub_std_ns && (is_digit (peek s p) || is_some (operator_at s p))
        then checked (parse_unqualified_name s) (λ nested. add_sub (prefix ++ text "::" ++ nested))
            p
        else give prefix p

    -- Template arguments behind a substitution and behind a name.
    unfoldable pub suffixed_type : List ℕ → Action (List ℕ)
    unfolding parse_template_args add_sub
    suffixed_type result p =
        if peek s p == byte "I"
        then checked parse_template_args (λ args. add_sub (result ++ args)) p
        else give result p

    unfoldable pub suffixed_name : List ℕ → Action (List ℕ)
    unfolding parse_template_args add_sub
    suffixed_name result p =
        if peek s p == byte "I"
        then checked parse_template_args (λ args. add_sub (result ++ args)) p
        else add_sub result p

    unfoldable pub substituted_type : Action (List ℕ)
    unfolding parse_substitution std_member suffixed_type
    substituted_type =
        checked (parse_substitution s) (λ prefix. checked (std_member prefix) suffixed_type)

    unfoldable pub named_type : Action (List ℕ)
    unfolding parse_source_name suffixed_name
    named_type = checked (parse_source_name s) suffixed_name

    unfoldable pub qualified_type : Action (List ℕ)
    unfolding built qualifiers_loop add_sub
    qualified_type p =
        (qualifiers_loop s (length s - p.pos) [] >>= (λ qualifiers.
            checked (built qualifiers)
              (λ suffix. checked (rec type) (λ base. add_sub (base ++ suffix)))))
          p

    unfoldable pub type_body : Action (List ℕ)
    unfolding qualified_type parse_nested_name substituted_type parse_template_param named_type
        parse_function_type parse_extended_builtin builtin_type is_listed
    type_body p =
        let c = peek s p in
        if is_listed (text "KVr") c
        then qualified_type p
        else if is_listed (text "PRO") c
        then (advance 1 >>= (λ _. checked (rec type) (λ base. add_sub (base ++ pointer_suffix c))))
            p
        else if c == byte "N"
        then parse_nested_name true p
        else if c == byte "S"
        then substituted_type p
        else if c == byte "T"
        then parse_template_param s p
        else if is_digit c
        then named_type p
        else if c == byte "F"
        then parse_function_type p
        else if c == byte "D"
        then parse_extended_builtin s p
        else builtin_type s p

    unfoldable pub body : Call → Action (List ℕ)
    unfolding type_body template_arg_body nested_body template_args_body pack_body params_body
        guarded
    body type = guarded [] type_body
    body template_arg = guarded [] template_arg_body
    body (nested_loop as_type n) = nested_body as_type n
    body (template_args_loop out args) = template_args_body out args
    body (pack_loop out first) = pack_body out first
    body (params_loop ret params) = params_body ret params

    -- `parseName`, with the parts that it shares.
    unfoldable pub with_template_args : List ℕ → Action (List ℕ)
    unfolding parse_template_args add_sub
    with_template_args name p =
        if peek s p == byte "I"
        then checked parse_template_args (λ args q. add_sub (name ++ args) (set_template q)) p
        else give name p

    unfoldable pub parse_name : Action (List ℕ)
    unfolding parse_nested_name parse_substitution std_member with_template_args
        parse_unqualified_name
    parse_name p =
        let q : Parser = record p { last_was_template = false } in
        let c = peek s p in
        if c == byte "N"
        then parse_nested_name false q
        else if c == byte "Z"
        then failed [] q
        else if c == byte "S"
        then checked (parse_substitution s)
            (λ prefix. checked (std_member prefix) with_template_args) q
        else checked (parse_unqualified_name s) with_template_args q
