-- ===== src/Analysis/ControlFlow/Instructions/Memo.antt =====
-- The instruction cache is transparent: it answers what a fresh decoding answers.
use fn_finder.Base.{
  ℕ, ◌%◌, ◌≡◌, refl, not, ap, ◌∙◌, List, [], ◌∷◌, map, Option, none, some, ◌==◌, if◌then◌else◌,
  arith, Option-cases, Bool-cases, inl, inr,
}
use fn_finder.Base.Words.{Address, instruction_size}
use fn_finder.Base.Maps.{find, find-assign}
use fn_finder.Disasm.Instruction.{Decoder}
use fn_finder.Analysis.CodeMap.{CodeMap}
use fn_finder.Analysis.ControlFlow.Instructions.{
  DecodedInstruction, InstructionCache, empty_cache, decode_at, store_entry, cache_at,
}

module _ (m : CodeMap) (decode : Decoder) where
  -- The answer with no memo: null at an odd address, else what decoding there gives.
  unfoldable pub fetch : Address → Option DecodedInstruction
  fetch addr = if not (addr % instruction_size == 0) then none else decode_at m decode addr

  -- Every entry is what decoding at its address gives.
  abbrev pub IsConsistent : InstructionCache → Type 0
  IsConsistent c =
      (addr : ℕ) (entry : Option DecodedInstruction)
      → find addr c.cache ≡ some entry
      → entry ≡ decode_at m decode addr

  pub empty_cache-IsConsistent : IsConsistent empty_cache
  unfolding find
  empty_cache-IsConsistent addr entry h = cc

  store_entry-IsConsistent :
      (c : InstructionCache) (addr : ℕ)
      → IsConsistent c
      → IsConsistent (store_entry m decode c addr (decode_at m decode addr)).0
  unfolding store_entry
  store_entry-IsConsistent c addr h b entry e = elim (Option-cases (decode_at m decode addr)) [
    | inl miss ↦ ground (arith, find-assign b addr none c.cache, h b entry)
    | inr (i, hit) ↦ ground (arith, find-assign b addr (some i) c.cache, h b entry)
  ]

  store_entry-answer :
      (c : InstructionCache) (addr : ℕ) (o : Option DecodedInstruction)
      → (store_entry m decode c addr o).1 ≡ o
  unfolding store_entry
  store_entry-answer c addr none = refl
  store_entry-answer c addr (some i) = refl

  -- On a consistent cache a lookup answers what `fetch` answers.
  pub cache_at-fetch :
      (c : InstructionCache) (addr : ℕ) → IsConsistent c → (cache_at m decode c addr).1 ≡ fetch addr
  unfolding cache_at fetch
  cache_at-fetch c addr h = elim (Bool-cases (addr % instruction_size == 0)) [
    | inr odd ↦ rw odd refl
    | inl even ↦ elim (Option-cases (find addr c.cache)) [
      | inl miss ↦ rw (even, miss) (store_entry-answer c addr (decode_at m decode addr))
      | inr (entry, hit) ↦ rw (even, hit) (h addr entry hit)
    ]
  ]

  -- A lookup keeps the cache consistent.
  pub cache_at-IsConsistent :
      (c : InstructionCache) (addr : ℕ) → IsConsistent c → IsConsistent (cache_at m decode c addr).0
  unfolding cache_at
  cache_at-IsConsistent c addr h = elim (Bool-cases (addr % instruction_size == 0)) [
    | inr odd ↦ rw odd h
    | inl even ↦ elim (Option-cases (find addr c.cache)) [
      | inl miss ↦ rw (even, miss) (store_entry-IsConsistent c addr h)
      | inr (entry, hit) ↦ rw (even, hit) h
    ]
  ]

  -- The answers to a sequence of lookups, each on the cache that the one before left.
  unfoldable pub lookups : InstructionCache → List Address → List (Option DecodedInstruction)
  unfolding cache_at
  lookups c [] = []
  lookups c (addr ∷ addrs) =
      (cache_at m decode c addr).1 ∷ lookups (cache_at m decode c addr).0 addrs

  lookups-IsConsistent :
      (c : InstructionCache) (addrs : List Address)
      → IsConsistent c
      → lookups c addrs ≡ map fetch addrs
  unfolding lookups
  lookups-IsConsistent c [] h = refl
  lookups-IsConsistent c (addr ∷ addrs) h =
      ap (λ answer. answer ∷ lookups (cache_at m decode c addr).0 addrs) (cache_at-fetch c addr h)
      ∙ ap (λ answers. fetch addr ∷ answers)
          (lookups-IsConsistent (cache_at m decode c addr).0 addrs (cache_at-IsConsistent c addr h))

  -- Whatever addresses are looked up one after another on a fresh cache, in any order and any number
  -- of times, each answer is the one that decoding afresh gives: null at an odd address, else the
  -- instruction there if there is one.
  pub lookups-map : (addrs : List Address) → lookups empty_cache addrs ≡ map fetch addrs
  lookups-map addrs = lookups-IsConsistent empty_cache addrs empty_cache-IsConsistent
