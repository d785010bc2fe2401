-- ===== src/App/Main.antt =====
-- `main` of src/main.cc, up to the analysis and behind it. Reading a file is a parameter, and the
-- text of the error messages and of the log is left out. Whether the analysis comes back, and whether
-- it runs out of memory, is not part of this model: `Ending.analyses` is where it starts.
use fn_finder.Base.{
  inl, inr, Bool-cases, ℕ, ◌≡◌, refl, Bool, true, false, not, ◌&&◌, ◌||◌, ap, ◌∙◌, List, [], ◌∷◌,
  ◌++◌, if◌then◌else◌, filter,
}
use fn_finder.Base.Text.{text}
use fn_finder.Common.Result.{Result, failure, done, ◌>>=◌, ◌>>◌, Result-cases}
use fn_finder.Disasm.Capstone.{open_disassembler}
use fn_finder.Elf.Types.{ElfImage}
use fn_finder.Elf.Parser.{parse_bytes}
use fn_finder.Analysis.FunctionAnalyzer.{AnalysisOptions, AnalysisResult}
use fn_finder.App.ResultPrinter.{Format, print}
use fn_finder.App.CommandLine.{CommandLine, is_empty, is_dashed, parse_command_line}
use fn_finder.App.CommandLine.Texts.{
  some_argument, mentions, help_texts, is_unknown, is_unknown_text, is_unknown-argument_of,
  is_operand-argument_of,
}
use fn_finder.App.CommandLine.Options.{parse_command_line-options}
use fn_finder.App.CommandLine.Operands.{
  operands_of, without_empty, first_or_empty, has_second, no_more, parse_command_line-path,
}

-- The program exits with a code and an output, or the analysis of an image starts.
pub data Ending : Type 0 where
  exits : (code : ℕ) → (out : List ℕ) → Ending
  analyses : ElfImage → AnalysisOptions → Format → Ending

unfoldable pub usage : (program : List ℕ) → List ℕ
usage program =
    text "FnFinder - AArch64 ELF function analyser\n\n"
    ++ text "Usage: "
    ++ program
    ++ text " <elf-file> [options]\n\n"
    ++ text "Options:\n"
    ++ text "  --format=text|json   Output format (default: text).\n"
    ++ text "  --no-symbols         Do not seed from function symbols.\n"
    ++ text "  --no-eh-frame        Do not use .eh_frame / PT_GNU_EH_FRAME.\n"
    ++ text "  --no-entry           Do not seed from the ELF entry point.\n"
    ++ text "  --no-recursive       Disable recursive-descent traversal.\n"
    ++ text "  --no-demangle        Keep raw (mangled) C++ symbol names.\n"
    ++ text "  -v, --verbose        Verbose (debug) logging to stderr.\n"
    ++ text "  -q, --quiet          Errors only.\n"
    ++ text "  -h, --help           Show this help.\n"

-- Behind an analysis that returns: `print` and the exit.
unfoldable pub finish : AnalysisResult → Format → Ending
unfolding print
finish result format = exits 0 (print result format)

-- What the handlers make of an exception.
abbrev pub started : Result ElfImage → AnalysisOptions → Format → Ending
started (failure status) options format = exits 1 []
started (done image) options format = analyses image options format

module _ (read_file : List ℕ → Result (List ℕ)) (opened allocated : Bool) where
  -- `ElfParser::parseFile`, and the constructor of the disassembler.
  unfoldable pub prepare : (path : List ℕ) → Result ElfImage
  unfolding parse_bytes open_disassembler
  prepare path = do
    image ← read_file path >>= parse_bytes
    open_disassembler opened allocated
    done image

  -- What follows the parsing of the command line.
  unfoldable pub act : (program : List ℕ) → CommandLine → Ending
  unfolding prepare usage
  act program cli =
      if cli.show_help
      then exits 0 (usage program)
      else if not cli.valid
      then exits 2 []
      else if is_empty cli.path
      then exits 2 (usage program)
      else started (prepare cli.path) cli.options cli.format

  unfoldable pub main : (program : List ℕ) → (args : List (List ℕ)) → Ending
  unfolding parse_command_line act
  main program args = act program (parse_command_line args).cli

-- Some argument is an unknown option.
abbrev pub has_unknown : List (List ℕ) → Bool
has_unknown [] = false
has_unknown (arg ∷ args) = is_unknown_text arg || has_unknown args

-- The arguments that do not begin with a dash, from the first one on that is not empty.
abbrev pub paths_of : List (List ℕ) → List (List ℕ)
paths_of args = without_empty (filter (λ arg. not (is_dashed arg)) args)

has_unknown_lem : (args : List (List ℕ)) → some_argument is_unknown args ≡ has_unknown args
has_unknown_lem [] = refl
has_unknown_lem (arg ∷ args) =
    ap (λ b. b || some_argument is_unknown args) (is_unknown-argument_of arg)
    ∙ ap (λ b. is_unknown_text arg || b) (has_unknown_lem args)

operands_of-filter :
    (args : List (List ℕ)) → operands_of args ≡ filter (λ arg. not (is_dashed arg)) args
unfolding operands_of filter
operands_of-filter [] = refl
operands_of-filter (arg ∷ args) =
    ap (λ b. if b then arg ∷ operands_of args else operands_of args) (is_operand-argument_of arg)
    ∙ ap (λ rest. if not (is_dashed arg) then arg ∷ rest else rest) (operands_of-filter args)

is_empty-first_or_empty :
    (operands : List (List ℕ))
    → is_empty (first_or_empty (without_empty operands)) ≡ no_more (without_empty operands)
unfolding without_empty
is_empty-first_or_empty [] = refl
is_empty-first_or_empty ([] ∷ operands) = is_empty-first_or_empty operands
is_empty-first_or_empty ((c ∷ cs) ∷ operands) = refl

module _ (read_file : List ℕ → Result (List ℕ)) (opened allocated : Bool) where
  -- The file is read and parsed, the disassembler opened, and the analysis starts; where one of these
  -- fails, the program exits with 1.
  abbrev pub begun : (path : List ℕ) → AnalysisOptions → Format → Ending
  begun path options format = elim (read_file path) [
    | failure status ↦ exits 1 []
    | done bytes ↦ elim (parse_bytes bytes) [
      | failure status ↦ exits 1 []
      | done image ↦ if opened && allocated then analyses image options format else exits 1 []
    ]
  ]

  started-prepare :
      (path : List ℕ) (options : AnalysisOptions) (format : Format)
      → started (prepare read_file opened allocated path) options format ≡ begun path options format
  unfolding prepare open_disassembler
  started-prepare path options format = elim (Result-cases (read_file path)) [
    | inl (status, r) ↦ rw (prepare, begun, r) refl
    | inr (bytes, r) ↦ elim (Result-cases (parse_bytes bytes)) [
      | inl (status, b) ↦ rw (prepare, begun, r, b) refl
      | inr (image, b) ↦ elim (Bool-cases opened) [
        | inr o ↦ rw (prepare, begun, open_disassembler, r, b, o) refl
        | inl o ↦ elim (Bool-cases allocated) [
          | inl a ↦ rw (prepare, begun, open_disassembler, r, b, o, a) refl
          | inr a ↦ rw (prepare, begun, open_disassembler, r, b, o, a) refl
        ]
      ]
    ]
  ]

  -- What `main` does, from the texts of its arguments.
  abbrev pub expected : (program : List ℕ) → (args : List (List ℕ)) → CommandLine → Ending
  expected program args cli =
      if mentions help_texts args
      then exits 0 (usage program)
      else if has_unknown args || has_second (paths_of args)
      then exits 2 []
      else if no_more (paths_of args)
      then exits 2 (usage program)
      else begun (first_or_empty (paths_of args)) cli.options cli.format

  act_branches :
      (program : List ℕ) (cli : CommandLine) (asks unknown second : Bool) (path : List ℕ)
      → cli.show_help ≡ asks
      → cli.valid ≡ (not unknown && not second)
      → cli.path ≡ path
      → act read_file opened allocated program cli ≡ (
          if asks
          then exits 0 (usage program)
          else if unknown || second
          then exits 2 []
          else if is_empty path
          then exits 2 (usage program)
          else begun path cli.options cli.format)
  unfolding act
  act_branches program cli true unknown second path h v p = rw (act, h) refl
  act_branches program cli false true second path h v p = rw (act, h, v) refl
  act_branches program cli false false true path h v p = rw (act, h, v) refl
  act_branches program cli false false false path h v p = elim (Bool-cases (is_empty path)) [
    | inl e ↦ rw (act, h, v, p, e) refl
    | inr e ↦ rw (act, h, v, p, e) (started-prepare path cli.options cli.format)
  ]

  -- The program prints the usage and exits with 0 if `-h` or `--help` is among its arguments.
  -- Otherwise it exits with 2 if an argument begins with a dash and is no option, or if a second
  -- argument without a dash follows the first one that is not empty; and it prints the usage and exits
  -- with 2 if there is no such first one. Otherwise it exits with 1 if the file of that name is not
  -- read or not parsed or the disassembler is not opened, and else the analysis of the parsed image
  -- starts.
  pub main_lem :
      (program : List ℕ) (args : List (List ℕ))
      → main read_file opened allocated program args
        ≡ expected program args (parse_command_line args).cli
  unfolding main
  main_lem program args =
      let (h, _, _, _, _, _, _, _) = parse_command_line-options args in
      let (p, v) = parse_command_line-path args in
      let cli = (parse_command_line args).cli in
      let operands = ap without_empty (operands_of-filter args) in
      let valid : cli.valid ≡ (not (has_unknown args) && not (has_second (paths_of args))) =
        v
        ∙ ap (λ u. not u && not (has_second (without_empty (operands_of args))))
            (has_unknown_lem args)
        ∙ ap (λ ps. not (has_unknown args) && not (has_second ps)) operands in
      act_branches program cli (mentions help_texts args) (has_unknown args)
        (has_second (paths_of args)) (first_or_empty (paths_of args)) h valid
        (p ∙ ap first_or_empty operands)
      ∙ ap
          (λ e.
            if mentions help_texts args
            then exits 0 (usage program)
            else if has_unknown args || has_second (paths_of args)
            then exits 2 []
            else if e
            then exits 2 (usage program)
            else begun (first_or_empty (paths_of args)) cli.options cli.format)
          (is_empty-first_or_empty (filter (λ arg. not (is_dashed arg)) args))
