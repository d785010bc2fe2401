-- ===== src/Base/Sets.antt =====
-- `std::set<Address>` and `std::unordered_set<Address>`: the elements as an ascending list.
use fn_finder.Base.Tests.{ltb, ◌==◌, if◌then◌else◌}
use fn_finder.Base.Lists.{length, All, In}
use Prim.Native.Nat.{ℕ, suc, ◌+◌, ◌≤◌, ◌<◌}
use mathlib.Core.Path.{◌≡◌, refl}
use mathlib.Core.Logic.{◌↔◌}
use mathlib.Core.Bool.{Bool, true, false, ◌||◌}
use mathlib.Core.List.{List, [], ◌∷◌}
use native.Mathlib.Omega.{arith}

-- `find(a) != end()`.
unfoldable pub contains : ℕ → List ℕ → Bool
contains a [] = false
contains a (x ∷ xs) = (a == x) || contains a xs

unfoldable pub insert : ℕ → List ℕ → List ℕ
insert a [] = a ∷ []
insert a (x ∷ xs) =
    let rest = insert a xs in if ltb a x then a ∷ x ∷ xs else if a == x then x ∷ xs else x ∷ rest

abbrev pub IsAscending : List ℕ → Type 0
IsAscending [] = Unit {0}
IsAscending (x ∷ xs) = All (λ y. x < y) xs × IsAscending xs

pub contains-insert :
    (b a : ℕ) (xs : List ℕ) → contains b (insert a xs) ≡ ((b == a) || contains b xs)
unfolding contains insert
contains-insert b a [] = refl
contains-insert b a (x ∷ xs) = ground (arith, contains-insert b a xs)

pub contains_iff : (a : ℕ) (xs : List ℕ) → (contains a xs ≡ true) ↔ In a xs
unfolding contains
contains_iff a [] = ground arith
contains_iff a (x ∷ xs) = ground (arith, contains_iff a xs)

pub All-insert : (P : ℕ → Type 0) (a : ℕ) (xs : List ℕ) → P a → All P xs → All P (insert a xs)
unfolding insert
All-insert P a [] p h = (p, tt)
All-insert P a (x ∷ xs) p (q, h) = ground (arith, All-insert P a xs p h)

All-lt_trans : (a b : ℕ) (xs : List ℕ) → a < b → All (λ y. b < y) xs → All (λ y. a < y) xs
All-lt_trans a b [] h k = tt
All-lt_trans a b (x ∷ xs) h (p, k) = (omega arith, All-lt_trans a b xs h k)

pub insert-IsAscending : (a : ℕ) (xs : List ℕ) → IsAscending xs → IsAscending (insert a xs)
unfolding insert
insert-IsAscending a [] h = (tt, tt)
insert-IsAscending a (x ∷ xs) (p, h) =
    ground (arith, All-lt_trans a x xs, All-insert (λ y. x < y) a xs, insert-IsAscending a xs h)

pub not-contains_of_below : (a : ℕ) (xs : List ℕ) → All (λ y. a < y) xs → contains a xs ≡ false
unfolding contains
not-contains_of_below a [] h = refl
not-contains_of_below a (x ∷ xs) (p, h) = ground (arith, not-contains_of_below a xs h)

-- Inserting grows an ascending set exactly if the element is new.
pub length-insert :
    (a : ℕ) (xs : List ℕ)
    → IsAscending xs
    → length (insert a xs) ≡ (if contains a xs then length xs else suc (length xs))
unfolding insert contains
length-insert a [] h = refl
length-insert a (x ∷ xs) (p, h) =
    ground (arith, length-insert a xs h, All-lt_trans a x xs, not-contains_of_below a xs)

-- An ascending list between two bounds is no longer than the distance.
pub length-ascending-le :
    (lo hi : ℕ) (xs : List ℕ)
    → lo ≤ hi
    → IsAscending xs
    → All (λ y. lo ≤ y) xs
    → All (λ y. y < hi) xs
    → length xs + lo ≤ hi
length-ascending-le lo hi [] e h l u = omega arith
length-ascending-le lo hi (x ∷ xs) e (p, h) (l, ls) (u, us) =
    omega (arith, length-ascending-le (suc x) hi xs (omega arith) h p us)
