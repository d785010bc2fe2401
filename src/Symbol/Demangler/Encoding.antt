-- ===== src/Symbol/Demangler/Encoding.antt =====
-- From a mangled name to the printed one: the outer half of src/symbol/itanium_demangler.cc.
use fn_finder.Base.{
  ℕ, zero, suc, ◌+◌, ◌*◌, Bool, true, false, not, ◌&&◌, ◌||◌, List, [], ◌∷◌, ◌++◌, Option, none,
  some, ◌==◌, if◌then◌else◌, length, text_eq,
}
use fn_finder.Base.Text.{text}
use fn_finder.Common.StringUtil.{starts_with}
use fn_finder.Symbol.Demangler.{
  built, Parser, Action, give, ◌>>=◌, checked, can_start_type, peek, at_end, consume,
}
use fn_finder.Symbol.Demangler.Grammar.{Call, type, body, parse_name}
use fn_finder.Symbol.Demangler.Literals.{is_nil}

unfoldable pub looks_mangled : List ℕ → Bool
unfolding starts_with
looks_mangled name = starts_with name (text "_Z") || starts_with name (text "___Z")

-- The longest string that the standard library can give is `limit` bytes long.
abbrev pub new_parser : (limit : ℕ) → Parser
new_parser limit = record {
  pos = 0;
  ok = true;
  depth = 0;
  last_was_template = false;
  last_sub_std_ns = false;
  subs = [];
  template_args = [];
  limit = limit;
  too_long = false;
}

-- The end of a call from outside: a text, or the exception for a string that is too long.
pub data Outcome : Type 0 where
  returned : List ℕ → Outcome
  length_error : Outcome

-- The parameters from `begin` on; `alone` is whether there is one.
unfoldable pub join_params : (alone : Bool) → (params : List ℕ) → List (List ℕ) → List ℕ
unfolding text_eq
join_params alone params [] = params
join_params alone params (t ∷ types) =
    let rest = join_params alone (if is_nil params then t else params ++ text ", " ++ t) types in
    if text_eq t (text "void") && alone then params else rest

abbrev pub without_first : List (List ℕ) → List (List ℕ)
without_first [] = []
without_first (_ ∷ types) = types

unfoldable pub params_text : (templated : Bool) → List (List ℕ) → List ℕ
unfolding join_params
params_text templated types =
    let shown = if templated then without_first types else types in
    join_params (length shown == 1) [] shown

-- What `run` makes of the end of the parse.
abbrev pub result_of : Option (List ℕ × Parser) → Option Outcome
result_of none = none
result_of (some (name, p)) =
    some (if p.too_long then length_error else returned (if p.ok then name else []))

module _ (s : List ℕ) where
  unfoldable pub parse : (fuel : ℕ) → Call → Action (List ℕ)
  unfolding body
  parse zero c p = none
  parse (suc fuel) c p = body s (parse fuel) c p

  -- A unit for each call at one position, for each position.
  abbrev pub enough : ℕ
  enough = 4 * length s + 4

  -- Whether another type follows.
  unfoldable pub at_type : Parser → Bool
  unfolding at_end peek can_start_type
  at_type p = not (at_end s p) && can_start_type (peek s p)

  -- `parseBareFunctionType`.
  unfoldable pub bare_function_type : (fuel : ℕ) → List (List ℕ) → Action (List (List ℕ))
  unfolding at_type parse
  bare_function_type zero types p = none
  bare_function_type (suc fuel) types p = elim (at_type p) [
    | false ↦ some (types, p)
    | true ↦ elim (parse enough type p) [
      | none ↦ none
      | some (t, q) ↦ elim (q.ok) [
        | false ↦ some ([], q)
        | true ↦ bare_function_type fuel (types ++ t ∷ []) q
      ]
    ]
  ]

  unfoldable pub with_params : List ℕ → Action (List ℕ)
  unfolding bare_function_type params_text at_type built
  with_params name p =
      if at_type p
      then checked (bare_function_type (length s + 1) [])
          (λ types. built (name ++ text "(" ++ params_text p.last_was_template types ++ text ")")) p
      else give name p

  unfoldable pub parse_encoding : Action (List ℕ)
  unfolding parse_name parse with_params
  parse_encoding = checked (parse_name s (parse enough)) with_params

  -- Behind the test of a prefix.
  unfoldable pub encoding_if : Bool → Action (List ℕ) → Action (List ℕ)
  unfolding parse_encoding
  encoding_if true otherwise = parse_encoding
  encoding_if false otherwise = otherwise

  unfoldable pub long_prefix : Action (List ℕ)
  unfolding consume encoding_if
  long_prefix = consume s (text "___Z") >>= (λ found. encoding_if found (give []))

  unfoldable pub run_parser : (limit : ℕ) → Option Outcome
  unfolding consume encoding_if long_prefix
  run_parser limit =
      result_of
        ((consume s (text "_Z") >>= (λ found. encoding_if found long_prefix)) (new_parser limit))

unfoldable pub demangle_itanium_fallback : (limit : ℕ) → List ℕ → Option Outcome
unfolding looks_mangled run_parser
demangle_itanium_fallback limit mangled =
    if looks_mangled mangled then run_parser mangled limit else some (returned [])

abbrev pub or_else : Outcome → (name : List ℕ) → Outcome
or_else length_error name = length_error
or_else (returned []) name = returned name
or_else (returned (c ∷ cs)) name = returned (c ∷ cs)

-- `ItaniumDemangler::demangle`.
unfoldable pub demangle : (limit : ℕ) → List ℕ → Option Outcome
unfolding demangle_itanium_fallback looks_mangled
demangle limit mangled =
    if is_nil mangled || not (looks_mangled mangled)
    then some (returned mangled)
    else elim (demangle_itanium_fallback limit mangled) [
      | none ↦ none
      | some outcome ↦ some (or_else outcome mangled)
    ]
