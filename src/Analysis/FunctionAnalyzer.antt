-- ===== src/Analysis/FunctionAnalyzer.antt =====
-- From an image to its functions: src/analysis/function_analyzer.h and function_analyzer.cc, with
-- analysis_options.h, analysis_result.h and function.h. The demangler and the decoder are
-- parameters.
pub mod Entries
pub mod Results
use fn_finder.Base.{
  ℕ, ◌+◌, Bool, true, false, not, ◌&&◌, ◌||◌, List, [], ◌∷◌, Option, none, some, ltb, leb, ◌==◌,
  if◌then◌else◌, length, filter, map,
}
use fn_finder.Base.Words.{Address, add64, sub64, instruction_size}
use fn_finder.Base.Sets
use fn_finder.Base.Maps.{emplace}
use fn_finder.Base.Sort.{sort}
use fn_finder.Disasm.Instruction.{Decoder}
use fn_finder.Elf.Types.{ElfImage, ElfSymbol, is_function, is_defined}
use fn_finder.Symbol.NameResolver.{NameResolver, make_name_resolver, name_for, has_symbol}
use fn_finder.Analysis.CodeMap
use fn_finder.Analysis.CodeMap.{CodeMap, CodeRegion, make_code_map}
use fn_finder.Analysis.EhFrame.{EhFrameFunction, parse}
use fn_finder.Analysis.RecursiveDisassembler.{RecursiveResult, discover}
use fn_finder.Analysis.ControlFlow.Extent
use fn_finder.Analysis.ControlFlow.Extent.{FunctionBounds, Options, Input, default_options}

pub record AnalysisOptions : Type 0 where
  pub use_symbols : Bool
  pub use_eh_frame : Bool
  pub use_entry_point : Bool
  pub use_recursive : Bool
  pub demangle : Bool
  pub max_instructions : ℕ

abbrev pub default_analysis_options : AnalysisOptions
default_analysis_options = record {
  use_symbols = true;
  use_eh_frame = true;
  use_entry_point = true;
  use_recursive = true;
  demangle = true;
  max_instructions = 8_000_000;
}

pub record Function : Type 0 where
  pub start : Address
  pub end : Address
  pub last_instruction : Address
  pub size : ℕ
  pub name : List ℕ
  pub has_symbol : Bool

pub record AnalysisResult : Type 0 where
  pub functions : List Function

abbrev pub count : AnalysisResult → ℕ
count r = length r.functions

unfoldable pub named_count_of : List Function → ℕ
named_count_of [] = 0
named_count_of (f ∷ fs) = let n = named_count_of fs in if f.has_symbol then n + 1 else n

abbrev pub named_count : AnalysisResult → ℕ
named_count r = named_count_of r.functions

-- `starts` and `authoritativeSizes`.
pub record KnownEntries : Type 0 where
  pub starts : List ℕ
  pub authoritative_sizes : List (ℕ × ℕ)

abbrev pub is_function_symbol : ElfSymbol → Bool
is_function_symbol s = is_function s && is_defined s

module _ (m : CodeMap) where
  unfoldable pub add_start : KnownEntries → Address → KnownEntries
  unfolding CodeMap.contains Sets.insert
  add_start e addr =
      if CodeMap.contains m addr then record e { starts = Sets.insert addr e.starts } else e

  unfoldable pub set_authoritative_size : KnownEntries → Address → ℕ → KnownEntries
  unfolding emplace
  set_authoritative_size e addr size =
      if size == 0
      then e
      else record e { authoritative_sizes = emplace addr size e.authoritative_sizes }

  unfoldable pub add_symbol_entry : KnownEntries → ElfSymbol → KnownEntries
  unfolding add_start set_authoritative_size
  add_symbol_entry e s =
      if is_function_symbol s
      then set_authoritative_size (add_start e s.value) s.value s.size
      else e

  unfoldable pub add_symbol_entries : KnownEntries → List ElfSymbol → KnownEntries
  unfolding add_symbol_entry
  add_symbol_entries e [] = e
  add_symbol_entries e (s ∷ rest) = add_symbol_entries (add_symbol_entry e s) rest

  unfoldable pub add_unwind_entries : KnownEntries → List EhFrameFunction → KnownEntries
  unfolding add_start set_authoritative_size
  add_unwind_entries e [] = e
  add_unwind_entries e (f ∷ rest) =
      add_unwind_entries (set_authoritative_size (add_start e f.start) f.start f.size) rest

  unfoldable pub add_all_starts : KnownEntries → List Address → KnownEntries
  unfolding add_start
  add_all_starts e [] = e
  add_all_starts e (a ∷ rest) = add_all_starts (add_start e a) rest

-- The entries from symbols, from the entry point, and from unwind tables.
unfoldable pub entries_of_symbols : CodeMap → ElfImage → AnalysisOptions → KnownEntries
unfolding add_symbol_entries
entries_of_symbols m image options =
    let e : KnownEntries = record { starts = []; authoritative_sizes = [] } in
    if options.use_symbols then add_symbol_entries m e image.symbols else e

unfoldable pub entries_with_entry_point :
    CodeMap → ElfImage → AnalysisOptions → KnownEntries → KnownEntries
unfolding add_start
entries_with_entry_point m image options e =
    if options.use_entry_point && not (image.entry_point == 0)
    then add_start m e image.entry_point
    else e

unfoldable pub strong_entries_of : CodeMap → ElfImage → AnalysisOptions → KnownEntries
unfolding entries_of_symbols entries_with_entry_point add_unwind_entries parse
strong_entries_of m image options =
    let e = entries_with_entry_point m image options (entries_of_symbols m image options) in
    if options.use_eh_frame then add_unwind_entries m e (parse image) else e

-- The seeds of the traversal: the starts, or else the starts of the regions.
abbrev pub region_starts : List CodeRegion → List Address
region_starts regions = map (λ r. r.start) regions

unfoldable pub seeds_of : CodeMap → List Address → List Address
seeds_of m [] = region_starts m.regions
seeds_of m (a ∷ rest) = a ∷ rest

unfoldable pub recursive_result :
    CodeMap → Decoder → AnalysisOptions → List Address → RecursiveResult
unfolding seeds_of discover
recursive_result m decode options starts =
    if options.use_recursive
    then discover m decode options.max_instructions (seeds_of m starts)
    else record { function_starts = []; instruction_sizes = [] }

-- `cfInput`: the strong starts, and those that only the traversal found.
unfoldable pub extent_input : CodeMap → KnownEntries → RecursiveResult → Input
unfolding add_all_starts filter Sets.contains
extent_input m e found =
    let all = (add_all_starts m e found.function_starts).starts in
    record {
      strong_entries = e.starts;
      soft_entries = filter (λ a. not (Sets.contains a e.starts)) all;
      authoritative_sizes = e.authoritative_sizes;
    }

-- The binding in front of `lower_bound(end)`.
unfoldable pub last_below : Address → List (ℕ × ℕ) → Option (ℕ × ℕ)
last_below end [] = none
last_below end ((k, v) ∷ rest) =
    let later = last_below end rest in
    if not (ltb k end) then none else elim later [ none ↦ some (k, v) | some b ↦ some b ]

-- The last instruction if none is recorded.
abbrev pub default_last : (start end : Address) → Address
default_last start end =
    if leb instruction_size (sub64 end start) then sub64 end instruction_size else start

unfoldable pub last_instruction_of : List (ℕ × ℕ) → (start end : Address) → Address
unfolding last_below
last_instruction_of sizes start end = elim (last_below end sizes) [
  | none ↦ default_last start end
  | some (k, v) ↦ if leb start k && add64 k v == end then k else default_last start end
]

-- The early return on an empty code map.
abbrev pub unless_empty : List CodeRegion → List Function → List Function
unless_empty [] functions = []
unless_empty (_ ∷ _) functions = functions

-- `cfOptions`.
abbrev pub extent_options : AnalysisOptions → Options
extent_options options = record default_options { max_instructions = options.max_instructions }

-- The boundaries, behind the test of an empty code map.
unfoldable pub bounds_of :
    Decoder → AnalysisOptions → CodeMap → KnownEntries → RecursiveResult → List FunctionBounds
unfolding extent_input Extent.analyze
bounds_of decode options m e found =
    Extent.analyze m decode (extent_input m e found) (extent_options options)

abbrev pub function_before : Function → Function → Bool
function_before a b = ltb a.start b.start

module _ (demangle : List ℕ → List ℕ) where
  unfoldable pub make_function :
      NameResolver → AnalysisOptions → List (ℕ × ℕ) → FunctionBounds → Function
  unfolding last_instruction_of name_for has_symbol
  make_function names options sizes b = record {
    start = b.start;
    end = b.end;
    last_instruction = last_instruction_of sizes b.start b.end;
    size = sub64 b.end b.start;
    name = name_for demangle options.demangle names b.start;
    has_symbol = has_symbol names b.start;
  }

  module _ (image : ElfImage) (decode : Decoder) (options : AnalysisOptions) where
    unfoldable pub functions_of : CodeMap → List Function
    unfolding strong_entries_of recursive_result bounds_of make_function sort make_name_resolver
    functions_of m =
        let e = strong_entries_of m image options in
        let found = recursive_result m decode options e.starts in
        sort function_before (
          map (make_function (make_name_resolver image) options found.instruction_sizes)
            (bounds_of decode options m e found))

    -- `FunctionAnalyzer::analyze`.
    unfoldable pub analyze_functions : AnalysisResult
    unfolding functions_of make_code_map
    analyze_functions =
        let m = make_code_map image in
        record { functions = unless_empty m.regions (functions_of m) }
