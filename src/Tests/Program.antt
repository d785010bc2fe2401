-- ===== src/Tests/Program.antt =====
-- The disassembler, the printer and the command line on concrete inputs.
use fn_finder.Base.{ℕ, ◌≡◌, refl, true, false, not, List, [], ◌∷◌, ◌++◌, some}
use fn_finder.Base.Text.{text}
use fn_finder.Common.Result.{Result, StatusCode, failure}
use fn_finder.Common.StringUtil.{trim}
use fn_finder.Disasm.Instruction.{FlowType, Instruction}
use fn_finder.Disasm.Capstone.{
  immediate, other, CsDetail, CsInstruction, CsDisasmIter, decode_with, wants_target,
  HasLastImmediate, decode_with-target,
}
use fn_finder.App.ResultPrinter.{json_escape, Format}
use fn_finder.App.ResultPrinter.Json.{Mode, read_string, read_string-json_escape}
use fn_finder.App.CommandLine.{parse_command_line}
use fn_finder.App.CommandLine.Options.{
  parse_command_line-options, format_from, level_from, last_choice,
}
use fn_finder.Common.Logger.{LogLevel}
use fn_finder.App.CommandLine.Texts.{mentions, help_texts, only}
use fn_finder.App.Main.{main, main_lem, expected, exits, usage}
use fn_finder.Tests.Samples.{sample_bytes}

-- A library that finds `b.eq #0x1008` everywhere.
abbrev branch : CsDisasmIter
branch code size addr = some record {
  address = addr;
  size = 4;
  mnemonic = text "b.eq";
  op_str = text "#0x1008";
  detail = some record {
    jump = true;
    call = false;
    ret = false;
    branch_relative = true;
    operands = other ∷ immediate 0x1008 ∷ [];
  };
}

abbrev branch_instruction : Instruction
branch_instruction = record {
  address = 0x1000;
  size = 4;
  mnemonic = text "b.eq";
  operands = text "#0x1008";
  flow = FlowType.conditional_branch;
  has_target = true;
  target = 0x1008;
}

decode_with_runs : decode_with branch sample_bytes 16 0x1000 ≡ some branch_instruction
unfolding decode_with
decode_with_runs = refl

decode_with-target_example :
    (wants_target FlowType.conditional_branch ≡ true)
    × ((c : CsInstruction) × (d : CsDetail) × (branch sample_bytes 16 0x1000 ≡ some c)
        × (c.detail ≡ some d)
        × (d.branch_relative ≡ true)
        × HasLastImmediate d.operands 0x1008)
decode_with-target_example =
    decode_with-target branch sample_bytes 16 0x1000 branch_instruction decode_with_runs refl

read_string-json_escape_example :
    read_string Mode.between (json_escape (text "a\"\n\\b") ++ 0x22 ∷ text ",")
    ≡ some (text "a\"\n\\b", text ",")
read_string-json_escape_example = read_string-json_escape (text "a\"\n\\b") (text ",")

json_escape_runs : json_escape (text "a\"\n\\b") ≡ text "a\\\"\\n\\\\b"
unfolding json_escape
json_escape_runs = refl

trim_runs : trim (text " \t a b \n") ≡ text "a b"
unfolding trim
trim_runs = refl

abbrev arguments : List (List ℕ)
arguments = text "--no-entry" ∷ text "" ∷ text "lib.so" ∷ text "-v" ∷ []

parse_command_line-options_example :
    ((parse_command_line arguments).cli.show_help ≡ mentions help_texts arguments)
    × ((parse_command_line arguments).cli.options.use_symbols
        ≡ not (mentions (only (text "--no-symbols")) arguments))
    × ((parse_command_line arguments).cli.options.use_eh_frame
        ≡ not (mentions (only (text "--no-eh-frame")) arguments))
    × ((parse_command_line arguments).cli.options.use_entry_point
        ≡ not (mentions (only (text "--no-entry")) arguments))
    × ((parse_command_line arguments).cli.options.use_recursive
        ≡ not (mentions (only (text "--no-recursive")) arguments))
    × ((parse_command_line arguments).cli.options.demangle
        ≡ not (mentions (only (text "--no-demangle")) arguments))
    × ((parse_command_line arguments).cli.format
        ≡ last_choice format_from Format.plain_text arguments)
    × ((parse_command_line arguments).level ≡ last_choice level_from LogLevel.info arguments)
parse_command_line-options_example = parse_command_line-options arguments

parse_command_line_runs : (parse_command_line arguments).cli.options.use_entry_point ≡ false
unfolding parse_command_line
parse_command_line_runs = refl

abbrev read_nothing : List ℕ → Result (List ℕ)
read_nothing path = failure StatusCode.io_error

main_lem_example :
    main read_nothing true true (text "fn") arguments
    ≡ expected read_nothing true true (text "fn") arguments (parse_command_line arguments).cli
main_lem_example = main_lem read_nothing true true (text "fn") arguments

main_fails : main read_nothing true true (text "fn") arguments ≡ exits 1 []
unfolding main
main_fails = refl

main_helps :
    main read_nothing true true (text "fn") (text "--no-such" ∷ text "-h" ∷ [])
    ≡ exits 0 (usage (text "fn"))
unfolding main
main_helps = refl

main_refuses :
    main read_nothing true true (text "fn") (text "a" ∷ text "--no-such" ∷ []) ≡ exits 2 []
unfolding main
main_refuses = refl
