-- ===== src/Base/Sort.antt =====
-- `std::sort` with a comparison, as insertion sort.
use fn_finder.Base.Tests.{if◌then◌else◌, Bool-cases}
use Prim.Native.Nat.{ℕ, ◌≤◌}
use fn_finder.Base.Lists.{All, In, All-imply}
use mathlib.Core.Path.{◌≡◌}
use mathlib.Core.Logic.{◌⊎◌, inl, inr, ◌↔◌}
use mathlib.Core.Bool.{Bool, true, false}
use mathlib.Core.List.{List, [], ◌∷◌}
use native.Mathlib.Omega.{arith}

module _ {ℓ} {A : Type ℓ} (lt : A → A → Bool) where
  unfoldable pub insert_by : A → List A → List A
  insert_by x [] = x ∷ []
  insert_by x (y ∷ ys) = let rest = insert_by x ys in if lt y x then y ∷ rest else x ∷ y ∷ ys

  unfoldable pub sort : List A → List A
  unfolding insert_by
  sort [] = []
  sort (x ∷ xs) = insert_by x (sort xs)

  module _ {κ} (P : A → Type κ) where
    pub All-insert_by : (x : A) (ys : List A) → P x → All P ys → All P (insert_by x ys)
    unfolding insert_by
    All-insert_by x [] p h = (p, tt)
    All-insert_by x (y ∷ ys) p (q, h) = ground (arith, All-insert_by x ys p h)

    pub All-sort : (xs : List A) → All P xs → All P (sort xs)
    unfolding sort
    All-sort [] h = tt
    All-sort (x ∷ xs) (p, h) = All-insert_by x (sort xs) p (All-sort xs h)

module _ {A : Type 0} (lt : A → A → Bool) where
  In-insert_by : (a x : A) (ys : List A) → In a (insert_by lt x ys) ↔ ((a ≡ x) ⊎ In a ys)
  unfolding insert_by
  In-insert_by a x [] = (λ m. m, λ m. m)
  In-insert_by a x (y ∷ ys) = ground (arith, In-insert_by a x ys)

  -- Sorting keeps the elements.
  pub In-sort : (a : A) (xs : List A) → In a (sort lt xs) ↔ In a xs
  unfolding sort
  In-sort a [] = (λ m. m, λ m. m)
  In-sort a (x ∷ xs) = ground (arith, In-insert_by a x (sort lt xs), In-sort a xs)

-- Sorting by a comparison that agrees with a numeric key gives keys in order.
module _ {A : Type 0} (key : A → ℕ) (lt : A → A → Bool)
    (before : (a b : A) → lt a b ≡ true → key a ≤ key b)
    (after : (a b : A) → lt a b ≡ false → key b ≤ key a) where
  abbrev pub IsSorted : List A → Type 0
  IsSorted [] = Unit {0}
  IsSorted (x ∷ xs) = All (λ y. key x ≤ key y) xs × IsSorted xs

  from_head :
      (x y : A) (ys : List A)
      → key x ≤ key y
      → All (λ z. key y ≤ key z) ys
      → All (λ z. key x ≤ key z) ys
  from_head x y ys h = All-imply (λ z. key y ≤ key z) (λ z. key x ≤ key z) ys (λ z p. omega arith)

  insert_by-IsSorted : (x : A) (ys : List A) → IsSorted ys → IsSorted (insert_by lt x ys)
  unfolding insert_by
  insert_by-IsSorted x [] h = (tt, tt)
  insert_by-IsSorted x (y ∷ ys) (p, h) = elim (Bool-cases (lt y x)) [
    | inl e ↦
        rw e
          (All-insert_by lt (λ z. key y ≤ key z) x ys (before y x e) p, insert_by-IsSorted x ys h)
    | inr e ↦ rw e ((after y x e, from_head x y ys (after y x e) p), (p, h))
  ]

  pub sort-IsSorted : (xs : List A) → IsSorted (sort lt xs)
  unfolding sort
  sort-IsSorted [] = tt
  sort-IsSorted (x ∷ xs) = insert_by-IsSorted x (sort lt xs) (sort-IsSorted xs)
