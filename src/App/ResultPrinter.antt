-- ===== src/App/ResultPrinter.antt =====
-- Printing a result: src/app/result_printer.h and result_printer.cc. The stream is the text written
-- so far; `std::setw` is the padding to a width.
pub mod Json
use fn_finder.Base.{
  ℕ, zero, suc, ◌+◌, ◌-◌, ◌/◌, ◌%◌, Bool, true, false, List, [], ◌∷◌, ◌++◌, ltb, ◌==◌,
  if◌then◌else◌, length, replicate,
}
use fn_finder.Base.Words.{Address}
use fn_finder.Base.Text.{text}
use fn_finder.Common.StringUtil.{to_hex}
use fn_finder.Analysis.FunctionAnalyzer.{Function, AnalysisResult, count, named_count}

pub data Format : Type 0 where
  plain_text : Format
  json : Format

-- `out << n`: the decimal digits, the last one first. A 64-bit value has twenty at most.
unfoldable pub decimal_loop : (fuel : ℕ) → (value : ℕ) → (out : List ℕ) → List ℕ
decimal_loop zero value out = out
decimal_loop (suc fuel) value out =
    let digits = (0x30 + value % 10) ∷ out in
    elim (value / 10 == 0) [ true ↦ digits | false ↦ decimal_loop fuel (value / 10) digits ]

unfoldable pub decimal : ℕ → List ℕ
unfolding decimal_loop
decimal value = decimal_loop 20 value []

-- `std::left` and `std::right` with `std::setw`.
unfoldable pub pad_left_aligned : (width : ℕ) → List ℕ → List ℕ
pad_left_aligned width s = s ++ replicate (width - length s) 0x20

unfoldable pub pad_right_aligned : (width : ℕ) → List ℕ → List ℕ
pad_right_aligned width s = replicate (width - length s) 0x20 ++ s

unfoldable pub hex_address : Address → List ℕ
unfolding to_hex
hex_address addr = to_hex addr true 16 false

unfoldable pub escape_byte : ℕ → List ℕ
unfolding to_hex
escape_byte c =
    if c == 0x22
    then 0x5c ∷ 0x22 ∷ []
    else if c == 0x5c
    then 0x5c ∷ 0x5c ∷ []
    else if c == 0x08
    then 0x5c ∷ 0x62 ∷ []
    else if c == 0x0c
    then 0x5c ∷ 0x66 ∷ []
    else if c == 0x0a
    then 0x5c ∷ 0x6e ∷ []
    else if c == 0x0d
    then 0x5c ∷ 0x72 ∷ []
    else if c == 0x09
    then 0x5c ∷ 0x74 ∷ []
    else if ltb c 0x20
    then 0x5c ∷ 0x75 ∷ to_hex c false 4 false
    else c ∷ []

unfoldable pub json_escape : List ℕ → List ℕ
unfolding escape_byte
json_escape [] = []
json_escape (c ∷ cs) = escape_byte c ++ json_escape cs

unfoldable pub text_row : Function → List ℕ
unfolding pad_left_aligned pad_right_aligned hex_address decimal
text_row f =
    pad_left_aligned 20 (hex_address f.start)
    ++ pad_left_aligned 20 (hex_address f.end)
    ++ pad_left_aligned 20 (hex_address f.last_instruction)
    ++ pad_right_aligned 10 (decimal f.size)
    ++ text "  "
    ++ f.name
    ++ text "\n"

unfoldable pub text_rows : List Function → List ℕ
unfolding text_row
text_rows [] = []
text_rows (f ∷ fs) = text_row f ++ text_rows fs

unfoldable pub text_header : List ℕ
unfolding pad_left_aligned pad_right_aligned
text_header =
    pad_left_aligned 20 (text "START")
    ++ pad_left_aligned 20 (text "END")
    ++ pad_left_aligned 20 (text "LAST")
    ++ pad_right_aligned 10 (text "SIZE")
    ++ text "  NAME\n"

unfoldable pub print_text : AnalysisResult → List ℕ
unfolding text_rows text_header decimal
print_text result =
    text "# FnFinder: "
    ++ decimal (count result)
    ++ text " function(s), "
    ++ decimal (named_count result)
    ++ text " named by symbols\n\n"
    ++ text_header
    ++ text_rows result.functions

unfoldable pub json_entry : Function → List ℕ
unfolding json_escape hex_address decimal
json_entry f =
    text "    {\"name\": \""
    ++ json_escape f.name
    ++ text "\", \"start\": \""
    ++ hex_address f.start
    ++ text "\", \"end\": \""
    ++ hex_address f.end
    ++ text "\", \"last\": \""
    ++ hex_address f.last_instruction
    ++ text "\", \"size\": "
    ++ decimal f.size
    ++ text ", \"has_symbol\": "
    ++ (if f.has_symbol then text "true" else text "false")
    ++ text "}"

-- A comma stands behind each entry but the last.
unfoldable pub json_entries : List Function → List ℕ
unfolding json_entry
json_entries [] = []
json_entries (f ∷ []) = json_entry f ++ text "\n"
json_entries (f ∷ g ∷ fs) = json_entry f ++ text ",\n" ++ json_entries (g ∷ fs)

unfoldable pub print_json : AnalysisResult → List ℕ
unfolding json_entries decimal
print_json result =
    text "{\n  \"count\": "
    ++ decimal (count result)
    ++ text ",\n  \"functions\": [\n"
    ++ json_entries result.functions
    ++ text "  ]\n}\n"

unfoldable pub print : AnalysisResult → Format → List ℕ
unfolding print_text print_json
print result plain_text = print_text result
print result json = print_json result
