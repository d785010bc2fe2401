-- ===== src/Analysis/RecursiveDisassembler/Invariant.antt =====
-- What the loop of `discover` keeps: it has scheduled reachable addresses only, and what it has
-- taken from the worklist is recorded with all that it leads to.
-- Code: src/analysis/recursive_disassembler.cc.
use fn_finder.Base.{
  ℕ, ◌≡◌, refl, true, false, List, ◌∷◌, arith, if◌then◌else◌, ◌==◌, In, ap, Bool-cases, Option,
  Option-cases, inl, inr, ◌⊎◌, ◌↔◌, sym, subst, none, some, ◌∙◌, ==→eq,
}
use fn_finder.Base.Words.{add64}
use fn_finder.Base.Sets
use fn_finder.Base.Maps.{find, find-assign}
use fn_finder.Disasm.Instruction.{Decoder, Instruction}
use fn_finder.Analysis.CodeMap
use fn_finder.Analysis.CodeMap.{CodeMap}
use fn_finder.Analysis.RecursiveDisassembler.{
  Discovery, record_size, without_back, decoded, take_address,
}
use fn_finder.Analysis.RecursiveDisassembler.Frontier.{
  flow_targets, called, Schedules, Starts, enqueue_all, add_starts, IsCode, enqueue_all-Schedules,
  enqueue_all-worklist, enqueue_all-result, add_starts-Starts, add_starts-SameFrontier,
}
use fn_finder.Analysis.RecursiveDisassembler.Termination.{
  after, take_address-none, take_address-after,
}

abbrev pub size_at : Discovery → ℕ → Option ℕ
size_at d a = find a d.result.instruction_sizes

abbrev pub targets_at : ℕ → Instruction → List ℕ
targets_at a i = flow_targets i i.flow (add64 a i.size)

module _ (m : CodeMap) (decode : Decoder) where
  -- All that a decoded instruction changes.
  record Effect (d d' : Discovery) (rest : List ℕ) (a : ℕ) (i : Instruction) : Type 0 where
    schedules : (b : ℕ) → Schedules d' b ↔ (Schedules d b ⊎ In b (targets_at a i) × IsCode m b)
    worklist :
        (b : ℕ)
        → In b d'.worklist ↔ (In b rest ⊎ Schedules d' b × (Sets.contains b d.scheduled ≡ false))
    starts :
        (b : ℕ)
        → Starts d' b ↔ (Starts d b ⊎ In b (called i i.flow) × (CodeMap.contains m b ≡ true))
    sizes : (b : ℕ) → size_at d' b ≡ (if b == a then some i.size else size_at d b)

  after-Effect :
      (d : Discovery) (rest : List ℕ) (a : ℕ) (i : Instruction)
      → Effect d (after m (without_back d rest) a i) rest a i
  unfolding record_size without_back
  after-Effect d rest a i =
      let d0 = record_size (without_back d rest) a i.size in
      let d1 = add_starts m d0 (called i i.flow) in
      let ts = targets_at a i in
      let (q, w, z) = add_starts-SameFrontier m d0 (called i i.flow) in
      let same = enqueue_all-result m d1 ts in
      record {
        schedules = λ b.
            subst
              (λ x.
                Schedules (enqueue_all m d1 ts) b
                ↔ ((Sets.contains b x ≡ true) ⊎ In b ts × IsCode m b))
              q (enqueue_all-Schedules m d1 ts b);
        worklist = λ b.
            subst
              (λ (x : List ℕ × List ℕ).
                In b (enqueue_all m d1 ts).worklist
                ↔ (In b x.1 ⊎ Schedules (enqueue_all m d1 ts) b × (Sets.contains b x.0 ≡ false)))
              (λ k. (q k, w k)) (enqueue_all-worklist m d1 ts b);
        starts = λ b.
            subst
              (λ x.
                (Sets.contains b x ≡ true)
                ↔ (Starts d b ⊎ In b (called i i.flow) × (CodeMap.contains m b ≡ true)))
              (sym (ap (λ r. r.function_starts) same)) (add_starts-Starts m d0 (called i i.flow) b);
        sizes = λ b.
            ap (λ r. find b r.instruction_sizes) same
            ∙ ap (λ x. find b x) z
            ∙ find-assign b a i.size d.result.instruction_sizes;
      }

  module _ (seeds : List ℕ) where
    -- The addresses that control flow and calls reach from the seeds, inside the code.
    pub data Reach : ℕ → Type 0 where
      seed : {a : ℕ} → In a seeds → IsCode m a → Reach a
      flow :
          {a t : ℕ} (i : Instruction)
          → Reach a
          → decoded m decode a ≡ some i
          → In t (targets_at a i)
          → IsCode m t
          → Reach t

    -- A seed in the code, or a target in the code of a direct call that is reached.
    pub data IsStart (a : ℕ) : Type 0 where
      seeded : In a seeds → CodeMap.contains m a ≡ true → IsStart a
      called_from :
          (b : ℕ) (i : Instruction)
          → Reach b
          → decoded m decode b ≡ some i
          → In a (called i i.flow)
          → CodeMap.contains m a ≡ true
          → IsStart a

    -- The instruction at an address is recorded with all that it leads to.
    pub record Leads (d : Discovery) (a : ℕ) (i : Instruction) : Type 0 where
      pub sized : size_at d a ≡ some i.size
      pub targets : (t : ℕ) → In t (targets_at a i) → IsCode m t → Schedules d t
      pub calls : (t : ℕ) → In t (called i i.flow) → CodeMap.contains m t ≡ true → Starts d t

    abbrev pub IsDone : Discovery → ℕ → Type 0
    IsDone d a = (i : Instruction) → decoded m decode a ≡ some i → Leads d a i

    pub record Inv (d : Discovery) : Type 0 where
      pub sound : (a : ℕ) → Schedules d a → Reach a
      pub listed : (a : ℕ) → In a d.worklist → Schedules d a
      pub sized :
          (a n : ℕ)
          → size_at d a ≡ some n
          → Reach a × ((i : Instruction) × (decoded m decode a ≡ some i) × (i.size ≡ n))
      pub started : (a : ℕ) → Starts d a → IsStart a
      pub parse_arguments-IsSettled : (a : ℕ) → Schedules d a → In a d.worklist ⊎ IsDone d a
      pub seeds_scheduled : (a : ℕ) → In a seeds → IsCode m a → Schedules d a
      pub seeds_started : (a : ℕ) → In a seeds → CodeMap.contains m a ≡ true → Starts d a

    decoded_once :
        (a : ℕ) (i j : Instruction)
        → decoded m decode a ≡ some i
        → decoded m decode a ≡ some j
        → j ≡ i
    decoded_once a i j e q = ground arith

    module _ (d : Discovery) (a : ℕ) (rest : List ℕ) (e : d.worklist ≡ a ∷ rest) (h : Inv d) where
      in_rest : (b : ℕ) → In b rest → In b d.worklist
      in_rest b r = subst (In b) (sym e) (inr r)

      -- A round that decodes nothing.
      passed-Inv : decoded m decode a ≡ none → Inv (without_back d rest)
      unfolding without_back
      passed-Inv miss = record {
        sound = h.sound;
        listed = λ b r. h.listed b (in_rest b r);
        sized = h.sized;
        started = h.started;
        parse_arguments-IsSettled = λ b s. elim (h.parse_arguments-IsSettled b s) [
          | inr k ↦ inr (λ i q.
              let l = k i q in record { sized = l.sized; targets = l.targets; calls = l.calls })
          | inl w ↦ elim (subst (In b) e w) [
            | inl here ↦ inr (λ i q. absurd (ground arith))
            | inr r ↦ inl r
          ]
        ];
        seeds_scheduled = h.seeds_scheduled;
        seeds_started = h.seeds_started;
      }

      module _ (i : Instruction) (hit : decoded m decode a ≡ some i) (d' : Discovery)
          (f : Effect d d' rest a i) where
        a-Reach : Reach a
        a-Reach = h.sound a (h.listed a (subst (In a) (sym e) (inl refl)))

        effect-sized :
            (b n : ℕ)
            → size_at d' b ≡ some n
            → Reach b × ((j : Instruction) × (decoded m decode b ≡ some j) × (j.size ≡ n))
        effect-sized b n s = elim (Bool-cases (b == a)) [
          | inl q ↦
              let same : b ≡ a = ==→eq b a q in
              subst
                (λ x. Reach x × ((j : Instruction) × (decoded m decode x ≡ some j) × (j.size ≡ n)))
                (sym same) (a-Reach, (i, hit, ground (arith, f.sizes b)))
          | inr q ↦ h.sized b n (ground (arith, f.sizes b))
        ]

        effect-Leads :
            (b : ℕ) (j : Instruction) → Leads d b j → decoded m decode b ≡ some j → Leads d' b j
        effect-Leads b j l q = record {
          sized = elim (Bool-cases (b == a)) [
            | inl x ↦
                let same : b ≡ a = ==→eq b a x in
                let again : j ≡ i =
                  decoded_once a i j hit (subst (λ y. decoded m decode y ≡ some j) same q) in
                ground (arith, f.sizes b, ap (λ (y : Instruction). y.size) again)
            | inr x ↦ ground (arith, f.sizes b, l.sized)
          ];
          targets = λ t k c. (f.schedules t).1 (inl (l.targets t k c));
          calls = λ t k c. (f.starts t).1 (inl (l.calls t k c));
        }

        here-Leads : (j : Instruction) → decoded m decode a ≡ some j → Leads d' a j
        here-Leads j q =
            let again : j ≡ i = decoded_once a i j hit q in
            subst (Leads d' a) (sym again) (record {
              sized = ground (arith, f.sizes a);
              targets = λ t k c. (f.schedules t).1 (inr (k, c));
              calls = λ t k c. (f.starts t).1 (inr (k, c));
            })

        effect-settled : (b : ℕ) → Schedules d' b → In b d'.worklist ⊎ IsDone d' b
        effect-settled b s = elim (Bool-cases (Sets.contains b d.scheduled)) [
          | inr fresh ↦ inl ((f.worklist b).1 (inr (s, fresh)))
          | inl old ↦ elim (h.parse_arguments-IsSettled b old) [
            | inr k ↦ inr (λ j q. effect-Leads b j (k j q) q)
            | inl w ↦ elim (subst (In b) e w) [
              | inl here ↦ inr (subst (IsDone d') (sym here) here-Leads)
              | inr r ↦ inl ((f.worklist b).1 (inl r))
            ]
          ]
        ]

        effect-Inv : Inv d'
        effect-Inv = record {
          sound = λ b s. elim ((f.schedules b).0 s) [
            | inl old ↦ h.sound b old
            | inr (t, c) ↦ flow i a-Reach hit t c
          ];
          listed = λ b w. elim ((f.worklist b).0 w) [
            | inl r ↦ (f.schedules b).1 (inl (h.listed b (in_rest b r)))
            | inr (s, _) ↦ s
          ];
          sized = effect-sized;
          started = λ b s. elim ((f.starts b).0 s) [
            | inl old ↦ h.started b old
            | inr (t, c) ↦ called_from a i a-Reach hit t c
          ];
          parse_arguments-IsSettled = effect-settled;
          seeds_scheduled = λ b s c. (f.schedules b).1 (inl (h.seeds_scheduled b s c));
          seeds_started = λ b s c. (f.starts b).1 (inl (h.seeds_started b s c));
        }

      pub round-Inv : Inv (take_address m decode (without_back d rest) a)
      round-Inv = elim (Option-cases (decoded m decode a)) [
        | inl miss ↦
            subst Inv (sym (take_address-none m decode (without_back d rest) a miss))
              (passed-Inv miss)
        | inr (i, hit) ↦
            subst Inv (sym (take_address-after m decode (without_back d rest) a i hit))
              (effect-Inv i hit _ (after-Effect d rest a i))
      ]
