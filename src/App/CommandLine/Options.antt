-- ===== src/App/CommandLine/Options.antt =====
-- What `parseCommandLine` of src/main.cc makes of the arguments, whatever their order.
use fn_finder.Base.{
  ℕ, ◌≡◌, refl, Bool, true, false, not, ◌||◌, List, [], ◌∷◌, if◌then◌else◌, ap, ◌∙◌, Bool-cases,
  inl, inr,
}
use fn_finder.Base.Text.{text, is_one_of}
use fn_finder.Common.Logger.{LogLevel}
use fn_finder.App.ResultPrinter.{Format}
use fn_finder.App.CommandLine.Texts.{
  some_argument, mentions, some_argument-mentions, only, help_texts, verbose_texts, quiet_texts,
  is_help, is_no_symbols, is_no_eh_frame, is_no_entry, is_no_recursive, is_no_demangle,
  is_format_text, is_format_json, is_verbose, is_quiet, is_help-Means, is_no_symbols-Means,
  is_no_eh_frame-Means, is_no_entry-Means, is_no_recursive-Means, is_no_demangle-Means,
  is_format_text-Means, is_format_json-Means, is_verbose-Means, is_quiet-Means,
}
use fn_finder.App.CommandLine.{
  Session, Argument, argument_of, apply_argument, parse_arguments, parse_command_line, is_empty,
  new_session,
}

-- From `s` to `t` each switch is thrown exactly where its test has been passed: no switch is ever
-- reset.
abbrev Throws : Session → Session → ((Argument → Bool) → Bool) → Type 0
Throws s t passed =
    (t.cli.show_help ≡ (s.cli.show_help || passed is_help))
    × (not t.cli.options.use_symbols ≡ (not s.cli.options.use_symbols || passed is_no_symbols))
    × (not t.cli.options.use_eh_frame ≡ (not s.cli.options.use_eh_frame || passed is_no_eh_frame))
    × (not t.cli.options.use_entry_point
        ≡ (not s.cli.options.use_entry_point || passed is_no_entry))
    × (not t.cli.options.use_recursive
        ≡ (not s.cli.options.use_recursive || passed is_no_recursive))
    × (not t.cli.options.demangle ≡ (not s.cli.options.demangle || passed is_no_demangle))

or_false : (a : Bool) → a ≡ (a || false)
or_false true = refl
or_false false = refl

or_true : (a : Bool) → true ≡ (a || true)
or_true true = refl
or_true false = refl

-- One step's switch and then the others'.
then_thrown : (x y z a b : Bool) → y ≡ (x || a) → z ≡ (y || b) → z ≡ (x || (a || b))
then_thrown true y z a b h k = k ∙ ap (λ v. v || b) h
then_thrown false y z a b h k = k ∙ ap (λ v. v || b) h

unchanged : (s : Session) → Throws s s (λ _. false)
unchanged s = (
  or_false s.cli.show_help,
  or_false (not s.cli.options.use_symbols),
  or_false (not s.cli.options.use_eh_frame),
  or_false (not s.cli.options.use_entry_point),
  or_false (not s.cli.options.use_recursive),
  or_false (not s.cli.options.demangle),
)

not_swap : (a b : Bool) → not a ≡ b → a ≡ not b
not_swap true b h = ap not h
not_swap false b h = ap not h

apply_argument-Throws :
    (s : Session) (arg : List ℕ) (a : Argument) → Throws s (apply_argument s arg a) (λ test. test a)
unfolding apply_argument
apply_argument-Throws s arg Argument.operand = elim (Bool-cases (is_empty s.cli.path)) [
  | inl e ↦ rw e (unchanged s)
  | inr e ↦ rw e (unchanged s)
]
apply_argument-Throws s arg Argument.help = (
  or_true s.cli.show_help,
  or_false (not s.cli.options.use_symbols),
  or_false (not s.cli.options.use_eh_frame),
  or_false (not s.cli.options.use_entry_point),
  or_false (not s.cli.options.use_recursive),
  or_false (not s.cli.options.demangle),
)
apply_argument-Throws s arg Argument.format_text = unchanged s
apply_argument-Throws s arg Argument.format_json = unchanged s
apply_argument-Throws s arg Argument.no_symbols = (
  or_false s.cli.show_help,
  or_true (not s.cli.options.use_symbols),
  or_false (not s.cli.options.use_eh_frame),
  or_false (not s.cli.options.use_entry_point),
  or_false (not s.cli.options.use_recursive),
  or_false (not s.cli.options.demangle),
)
apply_argument-Throws s arg Argument.no_eh_frame = (
  or_false s.cli.show_help,
  or_false (not s.cli.options.use_symbols),
  or_true (not s.cli.options.use_eh_frame),
  or_false (not s.cli.options.use_entry_point),
  or_false (not s.cli.options.use_recursive),
  or_false (not s.cli.options.demangle),
)
apply_argument-Throws s arg Argument.no_entry = (
  or_false s.cli.show_help,
  or_false (not s.cli.options.use_symbols),
  or_false (not s.cli.options.use_eh_frame),
  or_true (not s.cli.options.use_entry_point),
  or_false (not s.cli.options.use_recursive),
  or_false (not s.cli.options.demangle),
)
apply_argument-Throws s arg Argument.no_recursive = (
  or_false s.cli.show_help,
  or_false (not s.cli.options.use_symbols),
  or_false (not s.cli.options.use_eh_frame),
  or_false (not s.cli.options.use_entry_point),
  or_true (not s.cli.options.use_recursive),
  or_false (not s.cli.options.demangle),
)
apply_argument-Throws s arg Argument.no_demangle = (
  or_false s.cli.show_help,
  or_false (not s.cli.options.use_symbols),
  or_false (not s.cli.options.use_eh_frame),
  or_false (not s.cli.options.use_entry_point),
  or_false (not s.cli.options.use_recursive),
  or_true (not s.cli.options.demangle),
)
apply_argument-Throws s arg Argument.verbose = unchanged s
apply_argument-Throws s arg Argument.quiet = unchanged s
apply_argument-Throws s arg Argument.unknown = unchanged s

parse_arguments-Throws :
    (s : Session) (args : List (List ℕ))
    → Throws s (parse_arguments s args) (λ test. some_argument test args)
unfolding parse_arguments
parse_arguments-Throws s [] = unchanged s
parse_arguments-Throws s (arg ∷ args) =
    let (h, y, e, n, r, d) = apply_argument-Throws s arg (argument_of arg) in
    let t = apply_argument s arg (argument_of arg) in
    let (h', y', e', n', r', d') = parse_arguments-Throws t args in
    let some : (Argument → Bool) → Bool = λ test. some_argument test args in
    (
      then_thrown _ _ _ _ (some is_help) h h',
      then_thrown _ _ _ _ (some is_no_symbols) y y',
      then_thrown _ _ _ _ (some is_no_eh_frame) e e',
      then_thrown _ _ _ _ (some is_no_entry) n n',
      then_thrown _ _ _ _ (some is_no_recursive) r r',
      then_thrown _ _ _ _ (some is_no_demangle) d d',
    )

parse_command_line_switches :
    (args : List (List ℕ))
    → let cli = (parse_command_line args).cli in
      (cli.show_help ≡ some_argument is_help args)
      × (cli.options.use_symbols ≡ not (some_argument is_no_symbols args))
      × (cli.options.use_eh_frame ≡ not (some_argument is_no_eh_frame args))
      × (cli.options.use_entry_point ≡ not (some_argument is_no_entry args))
      × (cli.options.use_recursive ≡ not (some_argument is_no_recursive args))
      × (cli.options.demangle ≡ not (some_argument is_no_demangle args))
unfolding parse_command_line
parse_command_line_switches args =
    let (h, y, e, n, r, d) = parse_arguments-Throws new_session args in
    (h, not_swap _ _ y, not_swap _ _ e, not_swap _ _ n, not_swap _ _ r, not_swap _ _ d)

-- The format and the level that a text asks for; another text leaves them as they are.
abbrev pub format_from : Format → List ℕ → Format
format_from format arg =
    if is_one_of (only (text "--format=text")) arg
    then Format.plain_text
    else if is_one_of (only (text "--format=json")) arg
    then Format.json
    else format

abbrev pub level_from : LogLevel → List ℕ → LogLevel
level_from level arg =
    if is_one_of verbose_texts arg
    then LogLevel.debug
    else if is_one_of quiet_texts arg
    then LogLevel.error
    else level

-- The choice of the last text that makes one.
abbrev pub last_choice : {A : Type 0} → (A → List ℕ → A) → A → List (List ℕ) → A
last_choice choose start [] = start
last_choice choose start (arg ∷ args) = last_choice choose (choose start arg) args

abbrev format_after : Format → Argument → Format
format_after format a =
    if is_format_text a then Format.plain_text else if is_format_json a then Format.json else format

abbrev level_after : LogLevel → Argument → LogLevel
level_after level a =
    if is_verbose a then LogLevel.debug else if is_quiet a then LogLevel.error else level

apply_argument_choices :
    (s : Session) (arg : List ℕ) (a : Argument)
    → ((apply_argument s arg a).cli.format ≡ format_after s.cli.format a)
      × ((apply_argument s arg a).level ≡ level_after s.level a)
unfolding apply_argument
apply_argument_choices s arg Argument.operand = elim (Bool-cases (is_empty s.cli.path)) [
  | inl e ↦ rw e (refl, refl)
  | inr e ↦ rw e (refl, refl)
]
apply_argument_choices s arg Argument.help = (refl, refl)
apply_argument_choices s arg Argument.format_text = (refl, refl)
apply_argument_choices s arg Argument.format_json = (refl, refl)
apply_argument_choices s arg Argument.no_symbols = (refl, refl)
apply_argument_choices s arg Argument.no_eh_frame = (refl, refl)
apply_argument_choices s arg Argument.no_entry = (refl, refl)
apply_argument_choices s arg Argument.no_recursive = (refl, refl)
apply_argument_choices s arg Argument.no_demangle = (refl, refl)
apply_argument_choices s arg Argument.verbose = (refl, refl)
apply_argument_choices s arg Argument.quiet = (refl, refl)
apply_argument_choices s arg Argument.unknown = (refl, refl)

format_from-Means :
    (format : Format) (arg : List ℕ)
    → format_after format (argument_of arg) ≡ format_from format arg
format_from-Means format arg = rw (is_format_text-Means arg, is_format_json-Means arg) refl

level_from-Means :
    (level : LogLevel) (arg : List ℕ) → level_after level (argument_of arg) ≡ level_from level arg
level_from-Means level arg = rw (is_verbose-Means arg, is_quiet-Means arg) refl

parse_arguments_choices :
    (s : Session) (args : List (List ℕ))
    → ((parse_arguments s args).cli.format ≡ last_choice format_from s.cli.format args)
      × ((parse_arguments s args).level ≡ last_choice level_from s.level args)
unfolding parse_arguments
parse_arguments_choices s [] = (refl, refl)
parse_arguments_choices s (arg ∷ args) =
    let t = apply_argument s arg (argument_of arg) in
    let (f, l) = apply_argument_choices s arg (argument_of arg) in
    let (f', l') = parse_arguments_choices t args in
    (
      f' ∙ ap (λ x. last_choice format_from x args) (f ∙ format_from-Means s.cli.format arg),
      l' ∙ ap (λ x. last_choice level_from x args) (l ∙ level_from-Means s.level arg),
    )

-- Help is asked for exactly if `-h` or `--help` is among the arguments; each of the five sources of
-- functions and names is used exactly if the option that switches it off is not; the output format
-- is the one that the last `--format` option names, and plain text if there is none; the level of
-- the log is the one that the last of `-v`, `--verbose`, `-q` and `--quiet` asks for, and the level
-- for information if there is none.
pub parse_command_line-options :
    (args : List (List ℕ))
    → let session = parse_command_line args in
      (session.cli.show_help ≡ mentions help_texts args)
      × (session.cli.options.use_symbols ≡ not (mentions (only (text "--no-symbols")) args))
      × (session.cli.options.use_eh_frame ≡ not (mentions (only (text "--no-eh-frame")) args))
      × (session.cli.options.use_entry_point ≡ not (mentions (only (text "--no-entry")) args))
      × (session.cli.options.use_recursive ≡ not (mentions (only (text "--no-recursive")) args))
      × (session.cli.options.demangle ≡ not (mentions (only (text "--no-demangle")) args))
      × (session.cli.format ≡ last_choice format_from Format.plain_text args)
      × (session.level ≡ last_choice level_from LogLevel.info args)
unfolding parse_command_line
parse_command_line-options args =
    let (h, y, e, n, r, d) = parse_command_line_switches args in
    let (f, l) = parse_arguments_choices new_session args in
    (
      h ∙ some_argument-mentions is_help help_texts args is_help-Means,
      y
          ∙ ap not (
              some_argument-mentions is_no_symbols (only (text "--no-symbols")) args
                is_no_symbols-Means),
      e
          ∙ ap not (
              some_argument-mentions is_no_eh_frame (only (text "--no-eh-frame")) args
                is_no_eh_frame-Means),
      n
          ∙ ap not (
              some_argument-mentions is_no_entry (only (text "--no-entry")) args is_no_entry-Means),
      r
          ∙ ap not (
              some_argument-mentions is_no_recursive (only (text "--no-recursive")) args
                is_no_recursive-Means),
      d
          ∙ ap not (
              some_argument-mentions is_no_demangle (only (text "--no-demangle")) args
                is_no_demangle-Means),
      f,
      l,
    )
