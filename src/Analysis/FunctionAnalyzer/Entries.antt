-- ===== src/Analysis/FunctionAnalyzer/Entries.antt =====
-- Which entries the analyzer of src/analysis/function_analyzer.cc collects.
use fn_finder.Base.{
  ℕ, ◌≡◌, true, false, List, [], ◌∷◌, arith, ◌==◌, ◌&&◌, not, In, Bool-cases, inl, inr, ◌⊎◌, ◌↔◌,
  subst,
}
use fn_finder.Base.Words.{Address}
use fn_finder.Base.Sets
use fn_finder.Elf.Types.{ElfImage, ElfSymbol}
use fn_finder.Analysis.CodeMap
use fn_finder.Analysis.CodeMap.{CodeMap}
use fn_finder.Analysis.EhFrame.{EhFrameFunction, parse}
use fn_finder.Analysis.FunctionAnalyzer.{
  AnalysisOptions, KnownEntries, add_start, set_authoritative_size, is_function_symbol,
  add_symbol_entry, add_symbol_entries, add_unwind_entries, entries_of_symbols,
  entries_with_entry_point, strong_entries_of,
}

abbrev pub Holds : KnownEntries → ℕ → Type 0
Holds e a = Sets.contains a e.starts ≡ true

-- An address that the options name as an entry: the value of a function symbol, the entry point, or
-- the start of a range of the unwind tables.
pub data IsKnownEntry (image : ElfImage) (options : AnalysisOptions) (a : Address) : Type 0 where
  symbol :
      options.use_symbols ≡ true
      → (s : ElfSymbol) → In s image.symbols
      → is_function_symbol s ≡ true
      → a ≡ s.value
      → IsKnownEntry image options a
  entry_point :
      options.use_entry_point ≡ true
      → (image.entry_point == 0) ≡ false
      → a ≡ image.entry_point
      → IsKnownEntry image options a
  unwind :
      options.use_eh_frame ≡ true
      → (f : EhFrameFunction) → In f (parse image)
      → a ≡ f.start
      → IsKnownEntry image options a

module _ (m : CodeMap) (a : Address) where
  pub add_start-Holds :
      (e : KnownEntries) (b : Address)
      → Holds (add_start m e b) a ↔ (Holds e a ⊎ (a ≡ b) × (CodeMap.contains m b ≡ true))
  unfolding add_start
  add_start-Holds e b = ground (arith, Sets.contains-insert a b e.starts)

  sized-Holds :
      (e : KnownEntries) (b : Address) (size : ℕ)
      → Holds (set_authoritative_size m e b size) a ↔ Holds e a
  unfolding set_authoritative_size
  sized-Holds e b size = ground arith

  symbol-Holds : (e : KnownEntries) (s : ElfSymbol) → Holds e a → Holds (add_symbol_entry m e s) a
  unfolding add_symbol_entry
  symbol-Holds e s h =
      ground (arith, add_start-Holds e s.value, sized-Holds (add_start m e s.value) s.value s.size)

  symbols_keep :
      (e : KnownEntries) (rest : List ElfSymbol) → Holds e a → Holds (add_symbol_entries m e rest) a
  unfolding add_symbol_entries
  symbols_keep e [] h = h
  symbols_keep e (s ∷ rest) h = symbols_keep (add_symbol_entry m e s) rest (symbol-Holds e s h)

  unwind_keep :
      (e : KnownEntries) (rest : List EhFrameFunction)
      → Holds e a
      → Holds (add_unwind_entries m e rest) a
  unfolding add_unwind_entries
  unwind_keep e [] h = h
  unwind_keep e (f ∷ rest) h =
      unwind_keep (set_authoritative_size m (add_start m e f.start) f.start f.size) rest (
        ground
          (arith, add_start-Holds e f.start, sized-Holds (add_start m e f.start) f.start f.size))

  module _ (code : CodeMap.contains m a ≡ true) where
    symbols-Holds :
        (e : KnownEntries) (rest : List ElfSymbol) (s : ElfSymbol)
        → In s rest
        → is_function_symbol s ≡ true
        → a ≡ s.value
        → Holds (add_symbol_entries m e rest) a
    unfolding add_symbol_entries add_symbol_entry
    symbols-Holds e [] s i f v = elim i [ ]
    symbols-Holds e (t ∷ rest) s (inl here) f v = symbols_keep (add_symbol_entry m e t) rest (
        subst (λ x. Holds (add_symbol_entry m e x) a) here
          (ground
            (arith, add_start-Holds e s.value, sized-Holds (add_start m e s.value) s.value s.size)))
    symbols-Holds e (t ∷ rest) s (inr i) f v = symbols-Holds (add_symbol_entry m e t) rest s i f v

    unwind-Holds :
        (e : KnownEntries) (rest : List EhFrameFunction) (f : EhFrameFunction)
        → In f rest
        → a ≡ f.start
        → Holds (add_unwind_entries m e rest) a
    unfolding add_unwind_entries
    unwind-Holds e [] f i v = elim i [ ]
    unwind-Holds e (g ∷ rest) f (inl here) v =
        unwind_keep (set_authoritative_size m (add_start m e g.start) g.start g.size) rest (
          ground
            (arith, add_start-Holds e g.start, sized-Holds (add_start m e g.start) g.start g.size))
    unwind-Holds e (g ∷ rest) f (inr i) v =
        unwind-Holds (set_authoritative_size m (add_start m e g.start) g.start g.size) rest f i v

    module _ (image : ElfImage) (options : AnalysisOptions) where
      abbrev from_symbols : KnownEntries
      from_symbols = entries_of_symbols m image options

      abbrev from_both : KnownEntries
      from_both = entries_with_entry_point m image options from_symbols

      after_entry_point : Holds from_symbols a → Holds from_both a
      unfolding entries_with_entry_point
      after_entry_point h =
          elim (Bool-cases (options.use_entry_point && not (image.entry_point == 0))) [
            | inl e ↦ rw e ((add_start-Holds from_symbols image.entry_point).1 (inl h))
            | inr e ↦ rw e h
          ]

      after_unwind : Holds from_both a → Holds (strong_entries_of m image options) a
      unfolding strong_entries_of
      after_unwind h = elim (Bool-cases options.use_eh_frame) [
        | inl e ↦ rw e (unwind_keep from_both (parse image) h)
        | inr e ↦ rw e h
      ]

      -- Every known entry in the code is a strong entry.
      pub strong_entries_of-Holds :
          IsKnownEntry image options a → Holds (strong_entries_of m image options) a
      unfolding strong_entries_of entries_with_entry_point entries_of_symbols
      strong_entries_of-Holds (IsKnownEntry.symbol u s i f v) = after_unwind (
          after_entry_point (
            unfold entries_of_symbols in
            rw u (
              symbols-Holds (record { starts = []; authoritative_sizes = [] }) image.symbols s i f
                v)))
      strong_entries_of-Holds (IsKnownEntry.entry_point u n v) =
          let here =
            (add_start-Holds from_symbols image.entry_point).1
              (inr (v, subst (λ x. CodeMap.contains m x ≡ true) v code)) in
          after_unwind (unfold entries_with_entry_point in rw (u, n) here)
      strong_entries_of-Holds (IsKnownEntry.unwind u f i v) =
          rw u (unwind-Holds from_both (parse image) f i v)
