-- ===== src/Analysis/RecursiveDisassembler/Closure.antt =====
-- What `discover` of src/analysis/recursive_disassembler.cc finds, against reachability.
use fn_finder.Base.{
  ℕ, ◌<◌, ◌≡◌, refl, true, false, List, [], ◌∷◌, arith, In, ap, inl, inr, ◌⊎◌, ◌↔◌, sym, subst,
  some, ◌∙◌, length,
}
use fn_finder.Base.Sets
use fn_finder.Base.Maps.{find}
use fn_finder.Disasm.Instruction.{Decoder, Instruction}
use fn_finder.Analysis.CodeMap
use fn_finder.Analysis.CodeMap.{CodeMap}
use fn_finder.Analysis.RecursiveDisassembler.{
  Discovery, add_seeds, start_discovery, discovered, discover, decoded, code_limit,
}
use fn_finder.Analysis.RecursiveDisassembler.Frontier.{
  Schedules, Starts, add_starts, IsCode, enqueue_all-Schedules, enqueue_all-worklist,
  enqueue_all-result, add_starts-Starts, add_starts-SameFrontier,
}
use fn_finder.Analysis.RecursiveDisassembler.Termination.{
  seeded, add_seeds-seeded, traverse_rule, discovered-IsFinished,
}
use fn_finder.Analysis.RecursiveDisassembler.Invariant.{size_at, Reach, IsStart, Inv, round-Inv}

module _ (m : CodeMap) where
  -- What the seeds change.
  record Seeds (d d' : Discovery) (seeds : List ℕ) : Type 0 where
    schedules : (b : ℕ) → Schedules d' b ↔ (Schedules d b ⊎ In b seeds × IsCode m b)
    worklist :
        (b : ℕ)
        → In b d'.worklist
          ↔ (In b d.worklist ⊎ Schedules d' b × (Sets.contains b d.scheduled ≡ false))
    starts : (b : ℕ) → Starts d' b ↔ (Starts d b ⊎ In b seeds × (CodeMap.contains m b ≡ true))
    sizes : d'.result.instruction_sizes ≡ d.result.instruction_sizes

  seeded-Seeds : (d : Discovery) (a : ℕ) → Seeds d (seeded m d a) (a ∷ [])
  seeded-Seeds d a =
      let d1 = add_starts m d (a ∷ []) in
      let (q, w, z) = add_starts-SameFrontier m d (a ∷ []) in
      let same = enqueue_all-result m d1 (a ∷ []) in
      record {
        schedules = λ b.
            subst
              (λ x.
                Schedules (seeded m d a) b
                ↔ ((Sets.contains b x ≡ true) ⊎ In b (a ∷ []) × IsCode m b))
              q (enqueue_all-Schedules m d1 (a ∷ []) b);
        worklist = λ b.
            subst
              (λ (x : List ℕ × List ℕ).
                In b (seeded m d a).worklist
                ↔ (In b x.1 ⊎ Schedules (seeded m d a) b × (Sets.contains b x.0 ≡ false)))
              (λ k. (q k, w k)) (enqueue_all-worklist m d1 (a ∷ []) b);
        starts = λ b.
            subst
              (λ x.
                (Sets.contains b x ≡ true)
                ↔ (Starts d b ⊎ In b (a ∷ []) × (CodeMap.contains m b ≡ true)))
              (sym (ap (λ r. r.function_starts) same)) (add_starts-Starts m d (a ∷ []) b);
        sizes = ap (λ r. r.instruction_sizes) same ∙ z;
      }

  Seeds-add_seeds : (d : Discovery) (seeds : List ℕ) → Seeds d (add_seeds m d seeds) seeds
  Seeds-add_seeds d [] =
      unfold add_seeds in
      record {
        schedules = λ b. (inl, λ s. elim s [ inl k ↦ k | inr (n, _) ↦ elim n [ ] ]);
        worklist = λ b. (inl, λ s. elim s [ inl k ↦ k | inr (p, q) ↦ cc ]);
        starts = λ b. (inl, λ s. elim s [ inl k ↦ k | inr (n, _) ↦ elim n [ ] ]);
        sizes = refl;
      }
  Seeds-add_seeds d (a ∷ rest) =
      let one = seeded-Seeds d a in
      let more = Seeds-add_seeds (seeded m d a) rest in
      subst (λ x. Seeds d x (a ∷ rest)) (sym (add_seeds-seeded m d a rest))
        (record {
          schedules = λ b. ground (arith, one.schedules b, more.schedules b);
          worklist = λ b.
              ground (arith, one.schedules b, more.schedules b, one.worklist b, more.worklist b);
          starts = λ b. ground (arith, one.starts b, more.starts b);
          sizes = more.sizes ∙ one.sizes;
        })

module _ (m : CodeMap) (decode : Decoder) (seeds : List ℕ) where
  start_discovery-Inv : Inv m decode seeds (start_discovery m decode seeds)
  unfolding start_discovery Sets.contains find
  start_discovery-Inv =
      let f = Seeds-add_seeds m _ seeds in
      record {
        sound = λ a s. elim ((f.schedules a).0 s) [ inl k ↦ cc | inr (i, c) ↦ Reach.seed i c ];
        listed = λ a w. elim ((f.worklist a).0 w) [ inl k ↦ elim k [ ] | inr (s, _) ↦ s ];
        sized = λ a n s. absurd (ground (arith, sym s ∙ ap (find a) f.sizes));
        started = λ a s. elim ((f.starts a).0 s) [ inl k ↦ cc | inr (i, c) ↦ IsStart.seeded i c ];
        parse_arguments-IsSettled = λ a s. inl ((f.worklist a).1 (inr (s, refl)));
        seeds_scheduled = λ a i c. (f.schedules a).1 (inr (i, c));
        seeds_started = λ a i c. (f.starts a).1 (inr (i, c));
      }

  module _ (max_instructions : ℕ) where
    discovered-Inv : Inv m decode seeds (discovered m decode max_instructions seeds)
    unfolding discovered
    discovered-Inv =
        traverse_rule m decode max_instructions (Inv m decode seeds)
          (λ d a rest e h. round-Inv m decode seeds d a rest e h) (code_limit m.regions)
          (start_discovery m decode seeds) start_discovery-Inv

    abbrev found : Discovery
    found = discovered m decode max_instructions seeds

    -- Below the cap the worklist is empty at the end, so that all that is scheduled is parse_arguments-IsSettled.
    module _ (below : length found.result.instruction_sizes < max_instructions) where
      found_empty : found.worklist ≡ []
      found_empty = elim (discovered-IsFinished m decode max_instructions seeds) [
        | inl e ↦ e
        | inr full ↦ absurd (omega arith)
      ]

      found-Schedules : (a : ℕ) → Reach m decode seeds a → Schedules found a
      found-Schedules a (Reach.seed i c) = discovered-Inv.seeds_scheduled a i c
      found-Schedules a (Reach.flow {a = b} i r q t c) =
          elim (discovered-Inv.parse_arguments-IsSettled b (found-Schedules b r)) [
            | inl w ↦ elim (subst (In b) found_empty w) [ ]
            | inr k ↦ (k i q).targets a t c
          ]

      found-Starts : (a : ℕ) → IsStart m decode seeds a → Starts found a
      found-Starts a (IsStart.seeded i c) = discovered-Inv.seeds_started a i c
      found-Starts a (IsStart.called_from b i r q k c) =
          elim (discovered-Inv.parse_arguments-IsSettled b (found-Schedules b r)) [
            | inl w ↦ elim (subst (In b) found_empty w) [ ]
            | inr l ↦ (l i q).calls a k c
          ]

      found-sizes :
          (a : ℕ) (i : Instruction)
          → Reach m decode seeds a
          → decoded m decode a ≡ some i
          → size_at found a ≡ some i.size
      found-sizes a i r q =
          elim (discovered-Inv.parse_arguments-IsSettled a (found-Schedules a r)) [
            | inl w ↦ elim (subst (In a) found_empty w) [ ]
            | inr l ↦ (l i q).sized
          ]

-- Below the cap on instructions, `discover` records a size for an address exactly if the address is
-- reachable from the seeds inside the code and an instruction of that size decodes there.
pub discover_sizes :
    (m : CodeMap) (decode : Decoder) (seeds : List ℕ) (max_instructions a n : ℕ)
    → length (discover m decode max_instructions seeds).instruction_sizes < max_instructions
    → (find a (discover m decode max_instructions seeds).instruction_sizes ≡ some n) ↔ (
        Reach m decode seeds a × ((i : Instruction) × (decoded m decode a ≡ some i) × (i.size ≡ n)))
unfolding discover
discover_sizes m decode seeds max_instructions a n below = (
  (discovered-Inv m decode seeds max_instructions).sized a n,
  λ (r, (i, q, s)). found-sizes m decode seeds max_instructions below a i r q ∙ ap some s,
)

-- Below the cap on instructions, the function starts of `discover` are exactly the seeds in the code
-- and the targets in the code of the direct calls that are reached.
pub discover_starts :
    (m : CodeMap) (decode : Decoder) (seeds : List ℕ) (max_instructions a : ℕ)
    → length (discover m decode max_instructions seeds).instruction_sizes < max_instructions
    → (Sets.contains a (discover m decode max_instructions seeds).function_starts ≡ true)
      ↔ IsStart m decode seeds a
unfolding discover
discover_starts m decode seeds max_instructions a below = (
  (discovered-Inv m decode seeds max_instructions).started a,
  found-Starts m decode seeds max_instructions below a,
)

-- At the cap or below it, every function start of `discover` is a seed in the code or the target in
-- the code of a direct call that is reached.
pub discover_starts_sound :
    (m : CodeMap) (decode : Decoder) (seeds : List ℕ) (max_instructions a : ℕ)
    → Sets.contains a (discover m decode max_instructions seeds).function_starts ≡ true
    → IsStart m decode seeds a
unfolding discover
discover_starts_sound m decode seeds max_instructions a h =
    (discovered-Inv m decode seeds max_instructions).started a h
