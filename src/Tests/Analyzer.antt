-- ===== src/Tests/Analyzer.antt =====
-- The traversal and the analyzer on the sample image.
use fn_finder.Base.{
  ℕ, ◌≡◌, ◌≤◌, ◌<◌, ◌↔◌, refl, List, [], ◌∷◌, some, true, false, arith, In, inl, inr,
}
use fn_finder.Base.Sets
use fn_finder.Base.Maps.{find}
use fn_finder.Disasm.Instruction.{Instruction}
use fn_finder.Elf.Types.{ElfImage, ElfSymbol, SymbolOrigin}
use fn_finder.Elf.Image.{data_at, find_section}
use fn_finder.Analysis.CodeMap
use fn_finder.Analysis.CodeMap.{make_code_map}
use fn_finder.Analysis.RecursiveDisassembler.{discover, discovered, decoded}
use fn_finder.Analysis.RecursiveDisassembler.Termination.{IsFinished, discovered-IsFinished}
use fn_finder.Analysis.RecursiveDisassembler.Invariant.{Reach, IsStart}
use fn_finder.Analysis.RecursiveDisassembler.Closure.{discover_sizes, discover_starts}
use fn_finder.Analysis.ControlFlow.Extent
use fn_finder.Analysis.ControlFlow.Extent.{Input, default_options, is_usable}
use fn_finder.Analysis.ControlFlow.Extent.Coverage.{Covers}
use fn_finder.Analysis.ControlFlow.Extent.Kept.{analyze-Covers}
use fn_finder.Analysis.FunctionAnalyzer.{default_analysis_options, Function, analyze_functions}
use fn_finder.Analysis.FunctionAnalyzer.Entries.{IsKnownEntry}
use fn_finder.Analysis.FunctionAnalyzer.Results.{
  AreOrdered, IsExact, analyze_functions-AreOrdered, analyze_functions-IsExact,
  analyze_functions-Covers,
}
use fn_finder.Tests.Samples.{sample_map, sample_image, sample_decode}

-- From the first function the traversal decodes its two instructions.
discover_runs :
    (discover sample_map sample_decode 100 (0x1000 ∷ [])).instruction_sizes
    ≡ (0x1000, 4) ∷ (0x1004, 4) ∷ []
unfolding discover
discover_runs = refl

discovered-IsFinished_example :
    IsFinished sample_map sample_decode 100 (discovered sample_map sample_decode 100 (0x1000 ∷ []))
discovered-IsFinished_example = discovered-IsFinished sample_map sample_decode 100 (0x1000 ∷ [])

discover_sizes_example :
    (find 0x1004 (discover sample_map sample_decode 100 (0x1000 ∷ [])).instruction_sizes ≡ some 4)
    ↔ (Reach sample_map sample_decode (0x1000 ∷ []) 0x1004
        × ((i : Instruction) × (decoded sample_map sample_decode 0x1004 ≡ some i) × (i.size ≡ 4)))
unfolding discover
discover_sizes_example =
    discover_sizes sample_map sample_decode (0x1000 ∷ []) 100 0x1004 4 (omega arith)

discover_starts_example :
    (Sets.contains 0x1000 (discover sample_map sample_decode 100 (0x1000 ∷ [])).function_starts
      ≡ true)
    ↔ IsStart sample_map sample_decode (0x1000 ∷ []) 0x1000
unfolding discover
discover_starts_example =
    discover_starts sample_map sample_decode (0x1000 ∷ []) 100 0x1000 (omega arith)

abbrev sample_input : Input
sample_input = record {
  strong_entries = 0x1000 ∷ [];
  soft_entries = 0x1008 ∷ [];
  authoritative_sizes = [];
}

analyze-Covers_example :
    Covers (Extent.analyze sample_map sample_decode sample_input default_options) 0x1008
unfolding is_usable CodeMap.contains
analyze-Covers_example =
    analyze-Covers sample_map sample_decode sample_input default_options (omega arith, tt) 0x1008
      (inr (inl refl)) refl

abbrev main_symbol : ElfSymbol
main_symbol = record {
  name = 0x6d ∷ [];
  value = 0x1008;
  size = 8;
  info = 0x12;
  other = 0;
  section_index = 1;
  origin = SymbolOrigin.symtab;
}

abbrev program : ElfImage
program = record sample_image { symbols = main_symbol ∷ [] }

-- No demangling.
abbrev plain : List ℕ → List ℕ
plain name = name

abbrev entry_function : Function
entry_function = record {
  start = 0x1000;
  end = 0x1008;
  last_instruction = 0x1004;
  size = 8;
  name = 0x73 ∷ 0x75 ∷ 0x62 ∷ 0x5f ∷ 0x31 ∷ 0x30 ∷ 0x30 ∷ 0x30 ∷ [];
  has_symbol = false;
}

abbrev main_function : Function
main_function = record {
  start = 0x1008;
  end = 0x1010;
  last_instruction = 0x100c;
  size = 8;
  name = 0x6d ∷ [];
  has_symbol = true;
}

analyze_functions_runs :
    (analyze_functions plain program sample_decode default_analysis_options).functions
    ≡ entry_function ∷ main_function ∷ []
unfolding analyze_functions data_at find_section
analyze_functions_runs = refl

analyze_functions-AreOrdered_example :
    AreOrdered (analyze_functions plain program sample_decode default_analysis_options).functions
analyze_functions-AreOrdered_example =
    analyze_functions-AreOrdered plain program sample_decode default_analysis_options

analyze_functions-IsExact_example : IsExact (make_code_map program) main_function
unfolding analyze_functions data_at find_section
analyze_functions-IsExact_example =
    analyze_functions-IsExact plain program sample_decode default_analysis_options main_function
      (omega arith, tt) (inr (inl refl))

analyze_functions-Covers_example :
    (f : Function) × In f
      (analyze_functions plain program sample_decode default_analysis_options).functions
    × (f.start ≤ 0x1008)
    × (0x1008 < f.end)
unfolding is_usable make_code_map data_at CodeMap.contains
analyze_functions-Covers_example =
    analyze_functions-Covers plain program sample_decode default_analysis_options 0x1008
      (omega arith, tt) (IsKnownEntry.symbol refl main_symbol (inl refl) refl refl) refl
