-- ===== src/Symbol/Demangler.antt =====
-- The demangler: src/symbol/itanium_demangler.cc. This file has the parser's state and the parts that
-- do not recur; `none` is an access out of range. The text is the parameter `s`.
pub mod Tables
pub mod Progress
pub mod Tokens
pub mod Literals
pub mod Grammar
pub mod Descent
pub mod Calls
pub mod Rounds
pub mod Totality
pub mod Encoding
use fn_finder.Base.{
  ℕ, zero, suc, ◌+◌, ◌-◌, ◌*◌, ◌%◌, ◌^◌, Bool, true, false, not, ◌&&◌, ◌||◌, List, [], ◌∷◌, ◌++◌,
  Option, none, some, ltb, leb, ◌==◌, if◌then◌else◌, length, get_or, take, drop, text_eq,
}
use fn_finder.Base.Text.{text, byte}
use fn_finder.Base.Words.{add64}
use fn_finder.Symbol.Demangler.Tables.{builtin_types, operator_names}

pub record Parser : Type 0 where
  pub pos : ℕ
  pub ok : Bool
  pub depth : ℕ
  pub last_was_template : Bool
  pub last_sub_std_ns : Bool
  pub subs : List (List ℕ)
  pub template_args : List (List ℕ)
  pub limit : ℕ
  pub too_long : Bool

-- A member function: a value and the parser behind it, or an exception.
abbrev pub Action : Type 0 → Type 0
Action A = Parser → Option (A × Parser)

abbrev pub give : {A : Type 0} → A → Action A
give a p = some (a, p)

infixl 5 ◌>>=◌
abbrev pub ◌>>=◌ : {A B : Type 0} → Action A → (A → Action B) → Action B
(m >>= k) p = elim (m p) [ none ↦ none | some (a, q) ↦ k a q ]

-- `if (!ok_) return {};` behind a call.
abbrev pub checked : {A : Type 0} → Action A → (A → Action (List ℕ)) → Action (List ℕ)
checked m k p = elim (m p) [ none ↦ none | some (a, q) ↦ if q.ok then k a q else some ([], q) ]

-- `fail(); return {};`
abbrev pub failed : {A : Type 0} → A → Action A
failed a p = some (a, record p { ok = false })

abbrev pub max_depth : ℕ
max_depth = 256

-- The start and the end of the scope of a `DepthGuard`.
abbrev pub entered : Parser → Parser
entered p = record p {
  depth = p.depth + 1;
  ok = if ltb max_depth (p.depth + 1) then false else p.ok;
}

abbrev pub leave : {A : Type 0} → Option (A × Parser) → Option (A × Parser)
leave none = none
leave (some (a, q)) = some (a, record q { depth = q.depth - 1 })

-- The scope is left at its start if the depth is exceeded.
unfoldable pub guarded : {A : Type 0} → A → Action A → Action A
guarded a m p =
    if (entered p).ok
    then leave (m (entered p))
    else some (a, record (entered p) { depth = p.depth })

abbrev pub advance : ℕ → Action (List ℕ)
advance n p = some ([], record p { pos = p.pos + n })

abbrev pub is_digit : ℕ → Bool
is_digit c = leb 0x30 c && leb c 0x39

abbrev pub is_base36 : ℕ → Bool
is_base36 c = is_digit c || (leb 0x41 c && leb c 0x5a)

abbrev pub base36_value : ℕ → ℕ
base36_value c = if is_digit c then c - 0x30 else c - 0x37

-- Lookups in the tables.
unfoldable pub find_builtin : List (ℕ × List ℕ) → ℕ → Option (List ℕ)
find_builtin [] c = none
find_builtin ((k, v) ∷ rest) c = let later = find_builtin rest c in if k == c then some v else later

unfoldable pub find_operator : List (List ℕ × List ℕ) → List ℕ → Option (List ℕ)
unfolding text_eq
find_operator [] code = none
find_operator ((k, v) ∷ rest) code =
    let later = find_operator rest code in if text_eq k code then some v else later

abbrev pub is_some : {A : Type 0} → Option A → Bool
is_some none = false
is_some (some a) = true

unfoldable pub is_listed : List ℕ → ℕ → Bool
is_listed [] c = false
is_listed (k ∷ ks) c = let later = is_listed ks c in (k == c) || later

unfoldable pub can_start_type : ℕ → Bool
unfolding find_builtin builtin_types is_listed
can_start_type c =
    is_digit c || (is_some (find_builtin builtin_types c) || is_listed (text "NSPROKVrFDT") c)

unfoldable pub has_component : List (List ℕ) → List ℕ → Bool
unfolding text_eq
has_component [] component = false
has_component (existing ∷ rest) component =
    let later = has_component rest component in text_eq existing component || later

-- The construction of a string: one that is longer than `limit` throws, which is recorded in
-- `too_long`, and leaves every call as a failure does.
unfoldable pub built : List ℕ → Action (List ℕ)
built t p =
    if ltb p.limit (length t)
    then some ([], record p { ok = false; too_long = true })
    else some (t, p)

-- A string that is built, and `addSub` of it in front of its return.
unfoldable pub add_sub : List ℕ → Action (List ℕ)
unfolding has_component
add_sub component p =
    if ltb p.limit (length component)
    then some ([], record p { ok = false; too_long = true })
    else some (
      component,
      if has_component p.subs component then p else record p { subs = p.subs ++ component ∷ [] },
    )

unfoldable pub sub_at : ℕ → Action (List ℕ)
sub_at index p = if leb (length p.subs) index then failed [] p else some (get_or p.subs index [], p)

-- The lookup at the end of `parseTemplateParam`.
unfoldable pub template_arg_at : ℕ → Action (List ℕ)
unfolding add_sub
template_arg_at index p =
    if leb (length p.template_args) index
    then failed [] p
    else add_sub (get_or p.template_args index []) p

unfoldable pub standard_substitution : ℕ → Option (List ℕ)
standard_substitution c =
    if c == byte "t"
    then some (text "std")
    else if c == byte "a"
    then some (text "std::allocator")
    else if c == byte "b"
    then some (text "std::basic_string")
    else if c == byte "s"
    then some (text "std::string")
    else if c == byte "i"
    then some (text "std::istream")
    else if c == byte "o"
    then some (text "std::ostream")
    else if c == byte "d"
    then some (text "std::iostream")
    else none

module _ (s : List ℕ) where
  unfoldable pub peek_at : ℕ → Parser → ℕ
  peek_at d p = if ltb (p.pos + d) (length s) then get_or s (p.pos + d) 0 else 0

  unfoldable pub peek : Parser → ℕ
  peek p = if ltb p.pos (length s) then get_or s p.pos 0 else 0

  unfoldable pub eof : Parser → Bool
  eof p = leb (length s) p.pos

  -- The two tests of the loops: `eof() || peek() == 'E'`.
  unfoldable pub at_end : Parser → Bool
  unfolding eof peek
  at_end p = eof p || (peek p == byte "E")

  -- `s_.compare` throws behind the end of the text.
  unfoldable pub consume : List ℕ → Action Bool
  unfolding text_eq
  consume literal p =
      if leb p.pos (length s)
      then (if text_eq (take (length literal) (drop p.pos s)) literal
          then some (true, record p { pos = p.pos + length literal })
          else some (false, p))
      else none

  -- `if (!consume("E")) { fail(); return {}; }`.
  unfoldable pub expect : List ℕ → Action (List ℕ) → Action (List ℕ)
  unfolding consume
  expect literal m = consume literal >>= (λ found. if found then m else failed [])

  unfoldable pub operator_at : Parser → Option (List ℕ)
  unfolding find_operator operator_names
  operator_at p =
      if ltb (p.pos + 1) (length s)
      then find_operator operator_names (take 2 (drop p.pos s))
      else none

  -- The loop of `parseSourceName`.
  unfoldable pub length_loop : (fuel : ℕ) → (len : ℕ) → Action ℕ
  unfolding peek
  length_loop zero len p = some (len, p)
  length_loop (suc fuel) len p = elim (is_digit (peek p)) [
    | false ↦ some (len, p)
    | true ↦
        let next = (len * 10 + (peek p - 0x30)) % 2 ^ 64 in
        let q : Parser = record p { pos = p.pos + 1 } in
        elim (ltb (length s) next) [ true ↦ failed next q | false ↦ length_loop fuel next q ]
  ]

  unfoldable pub source_name_of : ℕ → Action (List ℕ)
  source_name_of len p =
      if ltb (length s) (add64 p.pos len)
      then failed [] p
      else some (take len (drop p.pos s), record p { pos = p.pos + len })

  unfoldable pub parse_source_name : Action (List ℕ)
  unfolding length_loop source_name_of
  parse_source_name p =
      if is_digit (peek p)
      then checked (length_loop (length s - p.pos) 0) source_name_of p
      else failed [] p

  unfoldable pub parse_unqualified_name : Action (List ℕ)
  unfolding parse_source_name operator_at
  parse_unqualified_name p = elim (is_digit (peek p)) [
    | true ↦ parse_source_name p
    | false ↦ elim (operator_at p) [
      | some name ↦ some (name, record p { pos = p.pos + 2 })
      | none ↦ failed [] p
    ]
  ]

  -- The loop over the digits of an index.
  unfoldable pub index_loop : (fuel : ℕ) → (index : ℕ) → Action ℕ
  unfolding peek
  index_loop zero index p = some (index, p)
  index_loop (suc fuel) index p = elim (is_base36 (peek p)) [
    | false ↦ some (index, p)
    | true ↦
        index_loop fuel ((index * 36 + base36_value (peek p)) % 2 ^ 64)
          (record p { pos = p.pos + 1 })
  ]

  -- An index behind `S` or `T`, closed by `_`.
  unfoldable pub parse_index : (ℕ → Action (List ℕ)) → Action (List ℕ)
  unfolding index_loop expect
  parse_index lookup p =
      (index_loop (length s - p.pos) 0 >>= (λ index. expect (text "_") (lookup (add64 index 1)))) p

  -- What stands behind the `T`.
  unfoldable pub template_param_body : Action (List ℕ)
  unfolding parse_index template_arg_at
  template_param_body p =
      if peek p == byte "_"
      then (advance 1 >>= (λ _. template_arg_at 0)) p
      else if is_base36 (peek p)
      then parse_index template_arg_at p
      else failed [] p

  unfoldable pub parse_template_param : Action (List ℕ)
  unfolding consume template_param_body
  parse_template_param = consume (text "T") >>= (λ _. template_param_body)

  -- What stands behind the `S`.
  unfoldable pub substitution_body : Action (List ℕ)
  unfolding standard_substitution parse_index sub_at
  substitution_body p = elim (standard_substitution (peek p)) [
    | some name ↦ some (name, record p { pos = p.pos + 1; last_sub_std_ns = peek p == byte "t" })
    | none ↦
        if peek p == byte "_"
        then (advance 1 >>= (λ _. sub_at 0)) p
        else if is_base36 (peek p)
        then parse_index sub_at p
        else failed [] p
  ]

  unfoldable pub parse_substitution : Action (List ℕ)
  unfolding substitution_body
  parse_substitution p =
      let q : Parser = record p { last_sub_std_ns = false } in
      if peek p == byte "S" then (advance 1 >>= (λ _. substitution_body)) q else failed [] q
