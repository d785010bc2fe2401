-- ===== src/App/CommandLine.antt =====
-- The command line: the first half of src/main.cc. An argument is the list of its bytes; the level of
-- the log and the messages on the standard error stream are kept beside the result.
pub mod Texts
pub mod Options
pub mod Operands
use fn_finder.Base.{
  ℕ, Bool, true, false, not, ◌||◌, List, [], ◌∷◌, Option, none, some, ◌++◌, text_eq, if◌then◌else◌,
}
use fn_finder.Base.Text.{text}
use fn_finder.Common.Logger.{LogLevel}
use fn_finder.Analysis.FunctionAnalyzer.{AnalysisOptions, default_analysis_options}
use fn_finder.App.ResultPrinter.{Format}

pub record CommandLine : Type 0 where
  pub path : List ℕ
  pub options : AnalysisOptions
  pub format : Format
  pub show_help : Bool
  pub valid : Bool

-- The command line so far, the level of the log, and what was written to `std::cerr`.
pub record Session : Type 0 where
  pub cli : CommandLine
  pub level : LogLevel
  pub messages : List (List ℕ)

-- What the chain of comparisons finds an argument to be.
pub data Argument : Type 0 where
  help : Argument
  format_text : Argument
  format_json : Argument
  no_symbols : Argument
  no_eh_frame : Argument
  no_entry : Argument
  no_recursive : Argument
  no_demangle : Argument
  verbose : Argument
  quiet : Argument
  unknown : Argument
  operand : Argument

-- `!arg.empty() && arg[0] == '-'`.
abbrev pub is_dashed : List ℕ → Bool
unfolding text_eq
is_dashed [] = false
is_dashed (c ∷ cs) = text_eq (c ∷ []) (text "-")

-- The texts that the chain compares with, in its order.
abbrev pub known_arguments : List (List ℕ × Argument)
known_arguments =
    (text "-h", help)
    ∷ (text "--help", help)
    ∷ (text "--format=text", format_text)
    ∷ (text "--format=json", format_json)
    ∷ (text "--no-symbols", no_symbols)
    ∷ (text "--no-eh-frame", no_eh_frame)
    ∷ (text "--no-entry", no_entry)
    ∷ (text "--no-recursive", no_recursive)
    ∷ (text "--no-demangle", no_demangle)
    ∷ (text "-v", verbose)
    ∷ (text "--verbose", verbose)
    ∷ (text "-q", quiet)
    ∷ (text "--quiet", quiet)
    ∷ []

unfoldable pub find_argument : List (List ℕ × Argument) → List ℕ → Option Argument
unfolding text_eq
find_argument [] arg = none
find_argument ((known, a) ∷ rest) arg =
    let later = find_argument rest arg in if text_eq arg known then some a else later

unfoldable pub argument_of : List ℕ → Argument
unfolding find_argument is_dashed
argument_of arg = elim (find_argument known_arguments arg) [
  | some a ↦ a
  | none ↦ if is_dashed arg then unknown else operand
]

abbrev pub is_empty : List ℕ → Bool
is_empty [] = true
is_empty (_ ∷ _) = false

-- `cli.options.… = false`.
abbrev with_options : Session → AnalysisOptions → Session
with_options s o = record s { cli = record (s.cli) { options = o } }

abbrev refuse : Session → (message : List ℕ) → Session
refuse s message = record s {
  cli = record (s.cli) { valid = false };
  messages = s.messages ++ message ∷ [];
}

unfoldable pub apply_argument : Session → (arg : List ℕ) → Argument → Session
apply_argument s arg help = record s { cli = record (s.cli) { show_help = true } }
apply_argument s arg format_text = record s { cli = record (s.cli) { format = Format.plain_text } }
apply_argument s arg format_json = record s { cli = record (s.cli) { format = Format.json } }
apply_argument s arg no_symbols = with_options s (record (s.cli.options) { use_symbols = false })
apply_argument s arg no_eh_frame = with_options s (record (s.cli.options) { use_eh_frame = false })
apply_argument s arg no_entry = with_options s (record (s.cli.options) { use_entry_point = false })
apply_argument s arg no_recursive =
    with_options s (record (s.cli.options) { use_recursive = false })
apply_argument s arg no_demangle = with_options s (record (s.cli.options) { demangle = false })
apply_argument s arg verbose = record s { level = LogLevel.debug }
apply_argument s arg quiet = record s { level = LogLevel.error }
apply_argument s arg unknown = refuse s (text "Unknown option: " ++ arg ++ text "\n")
apply_argument s arg operand =
    if is_empty s.cli.path
    then record s { cli = record (s.cli) { path = arg } }
    else refuse s (text "Unexpected argument: " ++ arg ++ text "\n")

-- The loop, on the arguments behind the program's name.
unfoldable pub parse_arguments : Session → List (List ℕ) → Session
unfolding argument_of apply_argument
parse_arguments s [] = s
parse_arguments s (arg ∷ args) = parse_arguments (apply_argument s arg (argument_of arg)) args

abbrev pub new_session : Session
new_session = record {
  cli = record {
    path = [];
    options = default_analysis_options;
    format = Format.plain_text;
    show_help = false;
    valid = true;
  };
  level = LogLevel.info;
  messages = [];
}

unfoldable pub parse_command_line : List (List ℕ) → Session
unfolding parse_arguments
parse_command_line args = parse_arguments new_session args
