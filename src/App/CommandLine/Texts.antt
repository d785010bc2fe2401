-- ===== src/App/CommandLine/Texts.antt =====
-- Which texts of an argument mean what, stated without the chain of comparisons in
-- `parseCommandLine` of src/main.cc.
use fn_finder.Base.{
  ℕ, ◌≡◌, refl, sym, Bool, true, false, not, ◌&&◌, ◌||◌, List, [], ◌∷◌, none, some, text_eq, ap,
  ◌∙◌, Bool-cases, Option-cases, inl, inr, In, arith,
}
use fn_finder.Base.Text.{text, is_one_of, In-is_one_of, text_eq→eq}
use fn_finder.App.CommandLine.{Argument, argument_of, find_argument, known_arguments, is_dashed}

-- Some argument passes a test.
abbrev pub some_argument : (Argument → Bool) → List (List ℕ) → Bool
some_argument test [] = false
some_argument test (arg ∷ args) = test (argument_of arg) || some_argument test args

abbrev pub is_help : Argument → Bool
is_help Argument.help = true
is_help _ = false

abbrev pub is_no_symbols : Argument → Bool
is_no_symbols Argument.no_symbols = true
is_no_symbols _ = false

abbrev pub is_no_eh_frame : Argument → Bool
is_no_eh_frame Argument.no_eh_frame = true
is_no_eh_frame _ = false

abbrev pub is_no_entry : Argument → Bool
is_no_entry Argument.no_entry = true
is_no_entry _ = false

abbrev pub is_no_recursive : Argument → Bool
is_no_recursive Argument.no_recursive = true
is_no_recursive _ = false

abbrev pub is_no_demangle : Argument → Bool
is_no_demangle Argument.no_demangle = true
is_no_demangle _ = false

abbrev pub is_unknown : Argument → Bool
is_unknown Argument.unknown = true
is_unknown _ = false

abbrev pub is_operand : Argument → Bool
is_operand Argument.operand = true
is_operand _ = false

abbrev pub is_format_text : Argument → Bool
is_format_text Argument.format_text = true
is_format_text _ = false

abbrev pub is_format_json : Argument → Bool
is_format_json Argument.format_json = true
is_format_json _ = false

abbrev pub is_verbose : Argument → Bool
is_verbose Argument.verbose = true
is_verbose _ = false

abbrev pub is_quiet : Argument → Bool
is_quiet Argument.quiet = true
is_quiet _ = false

-- Some argument is one of the texts.
abbrev pub mentions : List (List ℕ) → List (List ℕ) → Bool
mentions texts [] = false
mentions texts (arg ∷ args) = is_one_of texts arg || mentions texts args

abbrev same : Bool → Bool → Bool
same true b = b
same false b = not b

same→eq : (a b : Bool) → same a b ≡ true → a ≡ b
same→eq true true h = refl
same→eq true false h = cc
same→eq false true h = cc
same→eq false false h = refl

-- In the table a test holds of an argument exactly if its text is one of the texts.
unfoldable all_agree : (Argument → Bool) → List (List ℕ) → List (List ℕ × Argument) → Bool
unfolding is_one_of
all_agree test texts [] = true
all_agree test texts ((known, a) ∷ rest) =
    same (test a) (is_one_of texts known) && all_agree test texts rest

find_argument_agrees :
    (test : Argument → Bool) (texts : List (List ℕ)) (table : List (List ℕ × Argument))
    (arg : List ℕ) (a : Argument)
    → all_agree test texts table ≡ true
    → find_argument table arg ≡ some a
    → test a ≡ is_one_of texts arg
unfolding all_agree find_argument
find_argument_agrees test texts [] arg a h e = cc
find_argument_agrees test texts ((known, b) ∷ rest) arg a h e =
    elim (Bool-cases (text_eq arg known)) [
      | inl q ↦
          let f : find_argument ((known, b) ∷ rest) arg ≡ some b = rw (find_argument, q) refl in
          let p = text_eq→eq arg known q in
          let one : b ≡ a = cc in
          let g : test b ≡ is_one_of texts known =
            same→eq (test b) (is_one_of texts known) (ground arith) in
          ap test (sym one) ∙ g ∙ ap (is_one_of texts) (sym p)
      | inr q ↦
          let f : find_argument ((known, b) ∷ rest) arg ≡ find_argument rest arg =
            rw (find_argument, q) refl in
          find_argument_agrees test texts rest arg a (ground arith) (sym f ∙ e)
    ]

-- Each of the texts is in the table.
unfoldable all_known : List (List ℕ) → Bool
unfolding find_argument
all_known [] = true
all_known (t ∷ ts) = elim (find_argument known_arguments t) [ some a ↦ all_known ts | none ↦ false ]

all_known_lem :
    (texts : List (List ℕ)) (arg : List ℕ)
    → all_known texts ≡ true
    → In arg texts
    → find_argument known_arguments arg ≡ none
    → false ≡ true
unfolding all_known
all_known_lem [] arg h i e = elim i [ ]
all_known_lem (t ∷ ts) arg h i e = elim (Option-cases (find_argument known_arguments t)) [
  | inl q ↦ let f : all_known (t ∷ ts) ≡ false = rw (all_known, q) refl in sym f ∙ h
  | inr (a, q) ↦ elim i [
    | inl p ↦ let r : none ≡ some a = sym e ∙ ap (find_argument known_arguments) p ∙ q in cc
    | inr j ↦
        let f : all_known (t ∷ ts) ≡ all_known ts = rw (all_known, q) refl in
        all_known_lem ts arg (sym f ∙ h) j e
  ]
]

-- A test that holds of some texts of the table and of nothing else.
argument_of_test :
    (test : Argument → Bool) (texts : List (List ℕ)) (arg : List ℕ)
    → all_agree test texts known_arguments ≡ true
    → all_known texts ≡ true
    → test Argument.unknown ≡ false
    → test Argument.operand ≡ false
    → test (argument_of arg) ≡ is_one_of texts arg
unfolding argument_of
argument_of_test test texts arg agree known u o =
    elim (Option-cases (find_argument known_arguments arg)) [
      | inr (a, e) ↦
          let k : argument_of arg ≡ a = rw (argument_of, e) refl in
          ap test k ∙ find_argument_agrees test texts known_arguments arg a agree e
      | inl e ↦ elim (Bool-cases (is_one_of texts arg)) [
        | inl y ↦ let x = all_known_lem texts arg known (In-is_one_of texts arg y) e in cc
        | inr n ↦ elim (Bool-cases (is_dashed arg)) [
          | inl d ↦
              let k : argument_of arg ≡ Argument.unknown = rw (argument_of, e, d) refl in
              ap test k ∙ u ∙ sym n
          | inr d ↦
              let k : argument_of arg ≡ Argument.operand = rw (argument_of, e, d) refl in
              ap test k ∙ o ∙ sym n
        ]
      ]
    ]

abbrev pub help_texts : List (List ℕ)
help_texts = text "-h" ∷ text "--help" ∷ []

abbrev pub verbose_texts : List (List ℕ)
verbose_texts = text "-v" ∷ text "--verbose" ∷ []

abbrev pub quiet_texts : List (List ℕ)
quiet_texts = text "-q" ∷ text "--quiet" ∷ []

abbrev pub only : List ℕ → List (List ℕ)
only t = t ∷ []

abbrev pub option_texts : List (List ℕ)
option_texts =
    text "-h"
    ∷ text "--help"
    ∷ text "--format=text"
    ∷ text "--format=json"
    ∷ text "--no-symbols"
    ∷ text "--no-eh-frame"
    ∷ text "--no-entry"
    ∷ text "--no-recursive"
    ∷ text "--no-demangle"
    ∷ text "-v"
    ∷ text "--verbose"
    ∷ text "-q"
    ∷ text "--quiet"
    ∷ []

-- A test on each argument, as the mention of some texts.
abbrev pub Means : (Argument → Bool) → List (List ℕ) → Type 0
Means test texts = (arg : List ℕ) → test (argument_of arg) ≡ is_one_of texts arg

pub is_help-Means : Means is_help help_texts
unfolding all_agree all_known
is_help-Means arg = argument_of_test is_help help_texts arg refl refl refl refl

pub is_verbose-Means : Means is_verbose verbose_texts
unfolding all_agree all_known
is_verbose-Means arg = argument_of_test is_verbose verbose_texts arg refl refl refl refl

pub is_quiet-Means : Means is_quiet quiet_texts
unfolding all_agree all_known
is_quiet-Means arg = argument_of_test is_quiet quiet_texts arg refl refl refl refl

pub is_format_text-Means : Means is_format_text (only (text "--format=text"))
unfolding all_agree all_known
is_format_text-Means arg =
    argument_of_test is_format_text (only (text "--format=text")) arg refl refl refl refl

pub is_format_json-Means : Means is_format_json (only (text "--format=json"))
unfolding all_agree all_known
is_format_json-Means arg =
    argument_of_test is_format_json (only (text "--format=json")) arg refl refl refl refl

pub is_no_symbols-Means : Means is_no_symbols (only (text "--no-symbols"))
unfolding all_agree all_known
is_no_symbols-Means arg =
    argument_of_test is_no_symbols (only (text "--no-symbols")) arg refl refl refl refl

pub is_no_eh_frame-Means : Means is_no_eh_frame (only (text "--no-eh-frame"))
unfolding all_agree all_known
is_no_eh_frame-Means arg =
    argument_of_test is_no_eh_frame (only (text "--no-eh-frame")) arg refl refl refl refl

pub is_no_entry-Means : Means is_no_entry (only (text "--no-entry"))
unfolding all_agree all_known
is_no_entry-Means arg =
    argument_of_test is_no_entry (only (text "--no-entry")) arg refl refl refl refl

pub is_no_recursive-Means : Means is_no_recursive (only (text "--no-recursive"))
unfolding all_agree all_known
is_no_recursive-Means arg =
    argument_of_test is_no_recursive (only (text "--no-recursive")) arg refl refl refl refl

pub is_no_demangle-Means : Means is_no_demangle (only (text "--no-demangle"))
unfolding all_agree all_known
is_no_demangle-Means arg =
    argument_of_test is_no_demangle (only (text "--no-demangle")) arg refl refl refl refl

-- The other arguments: operands do not begin with a dash, and unknown options do.
all_dashed : List (List ℕ × Argument) → Bool
unfolding is_dashed
all_dashed [] = true
all_dashed ((known, a) ∷ rest) = is_dashed known && all_dashed rest

find_argument_dashed :
    (table : List (List ℕ × Argument)) (arg : List ℕ) (a : Argument)
    → all_dashed table ≡ true
    → find_argument table arg ≡ some a
    → is_dashed arg ≡ true
unfolding find_argument all_dashed
find_argument_dashed [] arg a h e = cc
find_argument_dashed ((known, b) ∷ rest) arg a h e = elim (Bool-cases (text_eq arg known)) [
  | inl q ↦ ap is_dashed (text_eq→eq arg known q) ∙ ground arith
  | inr q ↦
      let f : find_argument ((known, b) ∷ rest) arg ≡ find_argument rest arg =
        rw (find_argument, q) refl in
      find_argument_dashed rest arg a (ground arith) (sym f ∙ e)
]

abbrev always : Argument → Bool
always Argument.unknown = false
always Argument.operand = false
always _ = true

-- An operand is an argument that does not begin with a dash.
pub is_operand-argument_of : (arg : List ℕ) → is_operand (argument_of arg) ≡ not (is_dashed arg)
unfolding argument_of all_agree all_dashed
is_operand-argument_of arg = elim (Option-cases (find_argument known_arguments arg)) [
  | inr (a, e) ↦
      let k : argument_of arg ≡ a = rw (argument_of, e) refl in
      let d = find_argument_dashed known_arguments arg a refl e in
      ap is_operand k
      ∙ find_argument_agrees is_operand [] known_arguments arg a refl e
      ∙ ap not (sym d)
  | inl e ↦ elim (Bool-cases (is_dashed arg)) [
    | inl d ↦
        let k : argument_of arg ≡ Argument.unknown = rw (argument_of, e, d) refl in
        ap is_operand k ∙ ap not (sym d)
    | inr d ↦
        let k : argument_of arg ≡ Argument.operand = rw (argument_of, e, d) refl in
        ap is_operand k ∙ ap not (sym d)
  ]
]

abbrev pub is_unknown_text : List ℕ → Bool
unfolding is_dashed is_one_of
is_unknown_text arg = is_dashed arg && not (is_one_of option_texts arg)

split_dashed :
    (a : Argument) (d n : Bool) → is_operand a ≡ not d → always a ≡ n → is_unknown a ≡ (d && not n)
split_dashed Argument.help d n o k = ground arith
split_dashed Argument.format_text d n o k = ground arith
split_dashed Argument.format_json d n o k = ground arith
split_dashed Argument.no_symbols d n o k = ground arith
split_dashed Argument.no_eh_frame d n o k = ground arith
split_dashed Argument.no_entry d n o k = ground arith
split_dashed Argument.no_recursive d n o k = ground arith
split_dashed Argument.no_demangle d n o k = ground arith
split_dashed Argument.verbose d n o k = ground arith
split_dashed Argument.quiet d n o k = ground arith
split_dashed Argument.unknown d n o k = ground arith
split_dashed Argument.operand d n o k = ground arith

-- An unknown option is an argument that begins with a dash and is none of the option texts.
pub is_unknown-argument_of : (arg : List ℕ) → is_unknown (argument_of arg) ≡ is_unknown_text arg
unfolding all_agree all_known is_unknown_text
is_unknown-argument_of arg =
    split_dashed (argument_of arg) (is_dashed arg) (is_one_of option_texts arg)
      (is_operand-argument_of arg) (argument_of_test always option_texts arg refl refl refl refl)

pub some_argument-mentions :
    (test : Argument → Bool) (texts args : List (List ℕ))
    → Means test texts
    → some_argument test args ≡ mentions texts args
some_argument-mentions test texts [] h = refl
some_argument-mentions test texts (arg ∷ args) h =
    ap (λ b. b || some_argument test args) (h arg)
    ∙ ap (λ b. is_one_of texts arg || b) (some_argument-mentions test texts args h)
