-- ===== src/Analysis/CodeMap/Lookup.antt =====
-- The binary search of `regionContaining` against the list of regions.
use fn_finder.Base.{
  ℕ, zero, suc, ◌≤◌, ◌<◌, ◌≡◌, refl, List, [], ◌∷◌, some, true, arith, get_elem?, All, In, inl, inr,
  ◌↔◌, Option-cases,
}
use fn_finder.Analysis.CodeMap.{
  CodeRegion, CodeMap, region_containing, select_region, upper_bound_region, contains,
}

In-get_elem? : {A : Type 0} (xs : List A) (i : ℕ) (a : A) → get_elem? xs i ≡ some a → In a xs
In-get_elem? [] i a h = cc
In-get_elem? (x ∷ xs) zero a h = ground arith
In-get_elem? (x ∷ xs) (suc i) a h = inr (In-get_elem? xs i a h)

select_region_sound :
    (rs : List CodeRegion) (addr i : ℕ) (r : CodeRegion)
    → select_region rs addr i ≡ some r
    → In r rs × (r.start ≤ addr) × (addr < r.end)
unfolding select_region
select_region_sound rs addr zero r h = cc
select_region_sound rs addr (suc i) r h = ground (arith, In-get_elem? rs i r)

-- What the lookup finds is one of the regions, and the address lies in it.
pub region_containing_sound :
    (m : CodeMap) (addr : ℕ) (r : CodeRegion)
    → region_containing m addr ≡ some r
    → In r m.regions × (r.start ≤ addr) × (addr < r.end)
unfolding region_containing
region_containing_sound m addr r h =
    select_region_sound m.regions addr (upper_bound_region addr m.regions) r h

pub contains-region :
    (m : CodeMap) (addr : ℕ)
    → contains m addr ≡ true
    → (r : CodeRegion) × (region_containing m addr ≡ some r)
unfolding contains
contains-region m addr h = elim (Option-cases (region_containing m addr)) [
  | inl e ↦ absurd (ground arith)
  | inr (r, e) ↦ (r, e)
]

-- Regions in ascending order that do not overlap.
abbrev pub AreDisjoint : List CodeRegion → Type 0
AreDisjoint [] = Unit {0}
AreDisjoint (r ∷ rs) = (r.start < r.end) × All (λ q. r.end ≤ q.start) rs × AreDisjoint rs

before-All :
    (r : CodeRegion) (rs : List CodeRegion) (q : CodeRegion)
    → All (λ p. r.end ≤ p.start) rs
    → In q rs
    → r.end ≤ q.start
before-All r [] q h m = elim m [ ]
before-All r (p ∷ rs) q (h, hs) (inl e) = ground arith
before-All r (p ∷ rs) q (h, hs) (inr m) = before-All r rs q hs m

upper_bound_region-zero :
    (addr : ℕ) (r : CodeRegion) (rs : List CodeRegion)
    → All (λ p. r.end ≤ p.start) rs
    → addr < r.end
    → upper_bound_region addr rs ≡ 0
unfolding upper_bound_region
upper_bound_region-zero addr r [] h l = refl
upper_bound_region-zero addr r (p ∷ rs) (h, hs) l = ground arith

select_region-shift :
    (p r : CodeRegion) (rs : List CodeRegion) (addr n : ℕ)
    → select_region rs addr n ≡ some r
    → select_region (p ∷ rs) addr (suc n) ≡ some r
unfolding select_region
select_region-shift p r rs addr zero h = cc
select_region-shift p r rs addr (suc n) h = h

select_region_complete :
    (rs : List CodeRegion) (addr : ℕ) (r : CodeRegion)
    → AreDisjoint rs
    → In r rs
    → r.start ≤ addr
    → addr < r.end
    → select_region rs addr (upper_bound_region addr rs) ≡ some r
unfolding upper_bound_region
select_region_complete [] addr r d m l u = elim m [ ]
select_region_complete (p ∷ rs) addr r (n, d, ds) (inl e) l u =
    unfold select_region in ground (arith, upper_bound_region-zero addr p rs d)
select_region_complete (p ∷ rs) addr r (n, d, ds) (inr m) l u = ground (
  arith,
  before-All p rs r d m,
  select_region-shift p r rs addr (upper_bound_region addr rs),
  select_region_complete rs addr r ds m l u,
)

-- In a map of disjoint regions, the search by `upper_bound` finds the region of every address that
-- some region contains, and no other region.
pub region_containing_complete :
    (m : CodeMap) (addr : ℕ) (r : CodeRegion)
    → AreDisjoint m.regions
    → (region_containing m addr ≡ some r) ↔ (In r m.regions × (r.start ≤ addr) × (addr < r.end))
unfolding region_containing
region_containing_complete m addr r d =
    (region_containing_sound m addr r, λ (i, l, u). select_region_complete m.regions addr r d i l u)
