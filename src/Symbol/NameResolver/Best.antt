-- ===== src/Symbol/NameResolver/Best.antt =====
-- The name kept for an address is that of a symbol of the highest rank: src/symbol/name_resolver.cc.
use fn_finder.Base.{
  ℕ, ◌≤◌, ◌<◌, ◌≡◌, ◌⊎◌, refl, sym, subst, ==→eq, true, false, List, [], ◌∷◌, Option, none, some,
  arith, ◌==◌, In, ◌↔◌, Bool-cases, inl, inr,
}
use fn_finder.Base.Words.{Address}
use fn_finder.Base.Maps.{find, find-assign}
use fn_finder.Elf.Types.{ElfImage, ElfSymbol, binding}
use fn_finder.Symbol.NameResolver.{
  NameResolver, add_symbol, add_symbols, make_name_resolver, raw_symbol_name, binding_rank,
  is_skipped, is_better,
}

abbrev pub rank : ElfSymbol → ℕ
rank s = binding_rank (binding s)

-- A symbol that can name the function at an address: a named and defined function there.
abbrev pub Names : Address → ElfSymbol → Type 0
Names a s = (is_skipped s ≡ false) × (s.value ≡ a)

-- No symbol that was seen names the address, or the kept name is that of one of the highest rank.
abbrev Kept : Address → List ElfSymbol → (name : Option (List ℕ)) → (best : Option ℕ) → Type 0
Kept a seen name best =
    ((name ≡ none) × (best ≡ none) × ((t : ElfSymbol) → In t seen → Names a t → ⊥))
    ⊎ ((s : ElfSymbol) × In s seen
        × Names a s
        × (name ≡ some s.name)
        × (best ≡ some (rank s))
        × ((t : ElfSymbol) → In t seen → Names a t → rank t ≤ rank s))

abbrev IsKept : Address → List ElfSymbol → NameResolver → Type 0
IsKept a seen n = Kept a seen (find a n.name_by_address) (find a n.rank_by_address)

unnamed_keeps :
    (a : Address) (seen : List ElfSymbol) (s : ElfSymbol) (name : Option (List ℕ)) (best : Option ℕ)
    → (Names a s → ⊥)
    → Kept a seen name best
    → Kept a (s ∷ seen) name best
unnamed_keeps a seen s name best other (inl (p, q, h)) =
    inl (p, q, λ t m k. elim m [ inl e ↦ other (subst (Names a) e k) | inr m' ↦ h t m' k ])
unnamed_keeps a seen s name best other (inr (u, m, k, p, q, h)) = inr (
  u,
  inr m,
  k,
  p,
  q,
  λ t i l. elim i [ inl e ↦ absurd (other (subst (Names a) e l)) | inr i' ↦ h t i' l ],
)

better_replaces :
    (a : Address) (seen : List ElfSymbol) (s : ElfSymbol) (name : Option (List ℕ)) (best : Option ℕ)
    → Names a s
    → is_better (rank s) best ≡ true
    → Kept a seen name best
    → Kept a (s ∷ seen) (some s.name) (some (rank s))
better_replaces a seen s name best n b (inl (p, q, h)) = inr (
  s,
  inl refl,
  n,
  refl,
  refl,
  λ t m k. elim m [
    | inl e ↦ subst (λ u. rank u ≤ rank s) (sym e) (omega arith)
    | inr m' ↦ absurd (h t m' k)
  ],
)
better_replaces a seen s name best n b (inr (u, m, k, p, q, h)) = inr (
  s,
  inl refl,
  n,
  refl,
  refl,
  λ t i l.
      let above : rank u < rank s = ground arith in
      elim i [
        | inl e ↦ subst (λ u. rank u ≤ rank s) (sym e) (omega arith)
        | inr i' ↦ omega (arith, h t i' l)
      ],
)

worse_keeps :
    (a : Address) (seen : List ElfSymbol) (s : ElfSymbol) (name : Option (List ℕ)) (best : Option ℕ)
    → is_better (rank s) best ≡ false
    → Kept a seen name best
    → Kept a (s ∷ seen) name best
worse_keeps a seen s name best b (inl (p, q, h)) = absurd (ground arith)
worse_keeps a seen s name best b (inr (u, m, k, p, q, h)) =
    let above : rank s ≤ rank u = ground arith in
    inr (
      u,
      inr m,
      k,
      p,
      q,
      λ t i l. elim i [ inl e ↦ subst (λ v. rank v ≤ rank u) (sym e) above | inr i' ↦ h t i' l ],
    )

add_symbol-IsKept :
    (a : Address) (seen : List ElfSymbol) (n : NameResolver) (s : ElfSymbol)
    → IsKept a seen n
    → IsKept a (s ∷ seen) (add_symbol n s)
unfolding add_symbol
add_symbol-IsKept a seen n s h =
    let name = find a n.name_by_address in
    let best = find a n.rank_by_address in
    elim (Bool-cases (is_skipped s)) [
      | inl e ↦ rw (add_symbol, e) (unnamed_keeps a seen s name best (λ k. ground arith) h)
      | inr e ↦ elim (Bool-cases (a == s.value)) [
        | inl q ↦
            let same : a ≡ s.value = ==→eq a s.value q in
            elim (Bool-cases (is_better (rank s) (find s.value n.rank_by_address))) [
              | inl b ↦
                  rw
                    (
                      add_symbol,
                      e,
                      b,
                      find-assign a s.value s.name n.name_by_address,
                      find-assign a s.value (rank s) n.rank_by_address,
                      q,
                    )
                    (better_replaces a seen s name best (e, sym same)
                      (subst (λ k. is_better (rank s) (find k n.rank_by_address) ≡ true) (sym same)
                        b)
                      h)
              | inr b ↦
                  rw (add_symbol, e, b)
                    (worse_keeps a seen s name best
                      (subst (λ k. is_better (rank s) (find k n.rank_by_address) ≡ false) (sym same)
                        b)
                      h)
            ]
        | inr q ↦
            let elsewhere = unnamed_keeps a seen s name best (λ k. ground arith) h in
            elim (Bool-cases (is_better (rank s) (find s.value n.rank_by_address))) [
              | inl b ↦
                  rw
                    (
                      add_symbol,
                      e,
                      b,
                      find-assign a s.value s.name n.name_by_address,
                      find-assign a s.value (rank s) n.rank_by_address,
                      q,
                    )
                    elsewhere
              | inr b ↦ rw (add_symbol, e, b) elsewhere
            ]
      ]
    ]

-- The symbols that the loop has seen, the last one first.
seen_after : (rest seen : List ElfSymbol) → List ElfSymbol
seen_after [] seen = seen
seen_after (s ∷ rest) seen = seen_after rest (s ∷ seen)

In-seen_after :
    (t : ElfSymbol) (rest seen : List ElfSymbol)
    → In t (seen_after rest seen) ↔ (In t rest ⊎ In t seen)
unfolding seen_after
In-seen_after t [] seen = ground arith
In-seen_after t (s ∷ rest) seen = ground (arith, In-seen_after t rest (s ∷ seen))

add_symbols-IsKept :
    (a : Address) (rest seen : List ElfSymbol) (n : NameResolver)
    → IsKept a seen n
    → IsKept a (seen_after rest seen) (add_symbols n rest)
unfolding add_symbols seen_after
add_symbols-IsKept a [] seen n h = h
add_symbols-IsKept a (s ∷ rest) seen n h =
    add_symbols-IsKept a rest (s ∷ seen) (add_symbol n s) (add_symbol-IsKept a seen n s h)

make_name_resolver-IsKept :
    (a : Address) (image : ElfImage)
    → IsKept a (seen_after image.symbols []) (make_name_resolver image)
unfolding make_name_resolver find
make_name_resolver-IsKept a image =
    add_symbols-IsKept a image.symbols [] (record { name_by_address = []; rank_by_address = [] })
      (inl (refl, refl, λ t m k. m))

-- For every symbol that names a function at an address, the name kept for the address is that of a
-- symbol that names the function there and whose rank is at least as high.
pub raw_symbol_name_best :
    (image : ElfImage) (a : Address) (t : ElfSymbol)
    → In t image.symbols
    → Names a t
    → (s : ElfSymbol) × In s image.symbols
      × Names a s
      × (raw_symbol_name (make_name_resolver image) a ≡ some s.name)
      × (rank t ≤ rank s)
unfolding raw_symbol_name
raw_symbol_name_best image a t m k = elim (make_name_resolver-IsKept a image) [
  | inl (p, q, h) ↦ absurd (h t ((In-seen_after t image.symbols []).1 (inl m)) k)
  | inr (s, i, n, p, q, h) ↦ (
    s,
    elim ((In-seen_after s image.symbols []).0 i) [ inl j ↦ j | inr j ↦ absurd j ],
    n,
    p,
    h t ((In-seen_after t image.symbols []).1 (inl m)) k,
  )
]

-- A name that is kept for an address is that of a symbol that names the function there.
pub raw_symbol_name_from :
    (image : ElfImage) (a : Address) (name : List ℕ)
    → raw_symbol_name (make_name_resolver image) a ≡ some name
    → (s : ElfSymbol) × In s image.symbols × Names a s × (s.name ≡ name)
unfolding raw_symbol_name
raw_symbol_name_from image a name e = elim (make_name_resolver-IsKept a image) [
  | inl (p, q, h) ↦ absurd (ground arith)
  | inr (s, i, n, p, q, h) ↦ (
    s,
    elim ((In-seen_after s image.symbols []).0 i) [ inl j ↦ j | inr j ↦ absurd j ],
    n,
    ground arith,
  )
]
