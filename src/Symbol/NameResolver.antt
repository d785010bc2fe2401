-- ===== src/Symbol/NameResolver.antt =====
-- Names of functions: src/symbol/name_resolver.h and name_resolver.cc. The demangler is a parameter.
pub mod Best
use fn_finder.Base.{
  ℕ, Bool, true, false, not, ◌||◌, List, [], ◌∷◌, ◌++◌, Option, none, some, ltb, ◌==◌,
  if◌then◌else◌,
}
use fn_finder.Base.Words.{Address}
use fn_finder.Base.Maps.{find, assign}
use fn_finder.Common.StringUtil.{to_hex}
use fn_finder.Elf.Types.{
  ElfImage, ElfSymbol, is_function, is_defined, has_name, binding, stb_global, stb_weak, stb_local,
}

-- "sub_".
abbrev synthetic_prefix : List ℕ
synthetic_prefix = 0x73 ∷ 0x75 ∷ 0x62 ∷ 0x5f ∷ []

pub record NameResolver : Type 0 where
  pub name_by_address : List (ℕ × List ℕ)
  pub rank_by_address : List (ℕ × ℕ)

unfoldable pub binding_rank : ℕ → ℕ
binding_rank b =
    if b == stb_global then 3 else if b == stb_weak then 2 else if b == stb_local then 1 else 0

abbrev pub is_skipped : ElfSymbol → Bool
is_skipped s = not (is_function s) || not (is_defined s) || not (has_name s)

-- `it == end() || rank > it->second`.
abbrev pub is_better : (rank : ℕ) → Option ℕ → Bool
is_better rank none = true
is_better rank (some best) = ltb best rank

-- The body of the constructor's loop.
unfoldable pub add_symbol : NameResolver → ElfSymbol → NameResolver
unfolding find assign binding_rank
add_symbol n s =
    let rank = binding_rank (binding s) in
    if is_skipped s
    then n
    else if is_better rank (find s.value n.rank_by_address)
    then record {
      name_by_address = assign s.value s.name n.name_by_address;
      rank_by_address = assign s.value rank n.rank_by_address;
    }
    else n

unfoldable pub add_symbols : NameResolver → List ElfSymbol → NameResolver
unfolding add_symbol
add_symbols n [] = n
add_symbols n (s ∷ rest) = add_symbols (add_symbol n s) rest

-- The constructor.
unfoldable pub make_name_resolver : ElfImage → NameResolver
unfolding add_symbols
make_name_resolver image =
    add_symbols (record { name_by_address = []; rank_by_address = [] }) image.symbols

unfoldable pub raw_symbol_name : NameResolver → Address → Option (List ℕ)
unfolding find
raw_symbol_name n address = find address n.name_by_address

unfoldable pub has_symbol : NameResolver → Address → Bool
unfolding find
has_symbol n address = elim (find address n.name_by_address) [ none ↦ false | some _ ↦ true ]

unfoldable pub make_synthetic_name : Address → List ℕ
unfolding to_hex
make_synthetic_name address = synthetic_prefix ++ to_hex address false 0 true

-- `nameFor`, with `demanglingEnabled_` and the demangler.
unfoldable pub name_for :
    (demangle : List ℕ → List ℕ) → (enabled : Bool) → NameResolver → Address → List ℕ
unfolding raw_symbol_name make_synthetic_name
name_for demangle enabled n address = elim (raw_symbol_name n address) [
  | none ↦ make_synthetic_name address
  | some raw ↦ if enabled then demangle raw else raw
]
