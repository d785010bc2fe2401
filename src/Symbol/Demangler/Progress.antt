-- ===== src/Symbol/Demangler/Progress.antt =====
-- Where the parser of src/symbol/itanium_demangler.cc stands behind a call: rules for the parts that
-- its functions are made of.
use fn_finder.Base.{
  ℕ, zero, suc, ◌+◌, ◌-◌, ◌<◌, ◌≤◌, ◌≡◌, refl, ap, sym, ◌∙◌, Bool, true, false, List, [], ◌∷◌,
  Option, some, ltb, leb, ◌==◌, if◌then◌else◌, length, get_or, take, drop, text_eq, arith,
  Bool-cases, inl, inr, ==→eq, ltb→lt,
}
use fn_finder.Symbol.Demangler.{
  Parser, Action, give, ◌>>=◌, checked, failed, guarded, entered, leave, peek, peek_at, consume,
  expect,
}

-- What a call comes to: it neither throws nor runs out of fuel, and unless it fails the parser stands
-- at `lo` or behind it and in the text.
abbrev pub Arrives : {A : Type 0} → (size lo : ℕ) → Option (A × Parser) → Type 0
Arrives {A} size lo result =
    (a : A) × (q : Parser) × (result ≡ some (a, q)) × (q.ok ≡ true → (lo ≤ q.pos) × (q.pos ≤ size))

abbrev pub Reaches : {A : Type 0} → (size lo : ℕ) → Action A → Parser → Type 0
Reaches size lo m p = Arrives size lo (m p)

pub if-Arrives :
    {A : Type 0} (size lo : ℕ) (b : Bool) (x y : Option (A × Parser))
    → (b ≡ true → Arrives size lo x)
    → (b ≡ false → Arrives size lo y)
    → Arrives size lo (if b then x else y)
if-Arrives size lo true x y h k = h refl
if-Arrives size lo false x y h k = k refl

pub Arrives-eq :
    {A : Type 0} (size lo : ℕ) (x y : Option (A × Parser))
    → x ≡ y
    → Arrives size lo y
    → Arrives size lo x
Arrives-eq size lo x y e (a, q, f, r) = (a, q, e ∙ f, r)

pub give-Reaches :
    {A : Type 0} (size lo : ℕ) (a : A) (p : Parser)
    → lo ≤ p.pos
    → p.pos ≤ size
    → Reaches size lo (give a) p
give-Reaches size lo a p l h = (a, p, refl, λ _. (l, h))

pub failed-Reaches : {A : Type 0} (size lo : ℕ) (a : A) (p : Parser) → Reaches size lo (failed a) p
failed-Reaches size lo a p = (a, record p { ok = false }, refl, λ e. cc)

pub Reaches-weaker :
    {A : Type 0} (size lo lo' : ℕ) (m : Action A) (p : Parser)
    → lo' ≤ lo
    → Reaches size lo m p
    → Reaches size lo' m p
Reaches-weaker size lo lo' m p l (a, q, e, r) = (a, q, e, λ o. let (x, y) = r o in (omega arith, y))

pub bind-Reaches :
    {A B : Type 0} (size lo : ℕ) (m : Action A) (k : A → Action B) (p : Parser) (a : A) (q : Parser)
    → m p ≡ some (a, q)
    → Reaches size lo (k a) q
    → Reaches size lo (m >>= k) p
bind-Reaches size lo m k p a q e (b, t, f, r) = (b, t, rw (◌>>=◌, e) f, r)

checked_end :
    {A : Type 0} (m : Action A) (k : A → Action (List ℕ)) (p : Parser) (a : A) (q : Parser)
    → m p ≡ some (a, q)
    → checked m k p ≡ (if q.ok then k a q else some ([], q))
checked_end m k p a q e = rw (checked, e) refl

pub checked_after :
    {A : Type 0} (size lo : ℕ) (m : Action A) (k : A → Action (List ℕ)) (p : Parser) (a : A)
    (q : Parser)
    → m p ≡ some (a, q)
    → (q.ok ≡ true → Reaches size lo (k a) q)
    → Reaches size lo (checked m k) p
checked_after size lo m k p a q e h = elim (Bool-cases q.ok) [
  | inl o ↦
      let (c, t, f, z) = h o in
      (c, t, checked_end m k p a q e ∙ ap (λ b. if b then k a q else some ([], q)) o ∙ f, z)
  | inr o ↦
      ([], q, checked_end m k p a q e ∙ ap (λ b. if b then k a q else some ([], q)) o, λ i. cc)
]

pub checked-Reaches :
    {A : Type 0} (size lo lo' : ℕ) (m : Action A) (k : A → Action (List ℕ)) (p : Parser)
    → Reaches size lo m p
    → ((a : A) (q : Parser) → lo ≤ q.pos → q.pos ≤ size → Reaches size lo' (k a) q)
    → Reaches size lo' (checked m k) p
checked-Reaches size lo lo' m k p (a, q, e, r) h =
    checked_after size lo' m k p a q e (λ o. let (l, b) = r o in h a q l b)

pub guarded-Reaches :
    {A : Type 0} (size lo : ℕ) (a : A) (m : Action A) (p : Parser)
    → ((inner : Parser) → inner.pos ≡ p.pos → Reaches size lo m inner)
    → Reaches size lo (guarded a m) p
unfolding guarded
guarded-Reaches size lo a m p h =
    let (b, q, e, r) = h (entered p) refl in
    let out : Parser = record (entered p) { depth = p.depth } in
    elim (Bool-cases (entered p).ok) [
      | inl o ↦ (
        b,
        record q { depth = q.depth - 1 },
        ap (λ t. if t then leave (m (entered p)) else some (a, out)) o ∙ ap leave e,
        r,
      )
      | inr o ↦ (a, out, ap (λ t. if t then leave (m (entered p)) else some (a, out)) o, λ i. cc)
    ]

pub peek_outside : (s : List ℕ) (p : Parser) → ltb p.pos (length s) ≡ false → peek s p ≡ 0
unfolding peek
peek_outside s p e = rw e refl

-- Behind the end `peek` gives a zero byte, which no test of the parser passes.
pub peek_inside :
    (s : List ℕ) (p : Parser) (test : ℕ → Bool)
    → test 0 ≡ false
    → test (peek s p) ≡ true
    → p.pos < length s
peek_inside s p test z t = elim (Bool-cases (ltb p.pos (length s))) [
  | inl e ↦ ground arith
  | inr e ↦ let o : false ≡ true = sym z ∙ ap test (sym (peek_outside s p e)) ∙ t in cc
]

pub peek_at_inside :
    (s : List ℕ) (p : Parser) (test : ℕ → Bool)
    → test 0 ≡ false
    → test (peek_at s 1 p) ≡ true
    → p.pos + 1 < length s
unfolding peek_at
peek_at_inside s p test z t = elim (Bool-cases (ltb (p.pos + 1) (length s))) [
  | inl e ↦ ltb→lt (p.pos + 1) (length s) e
  | inr e ↦
      let nothing : peek_at s 1 p ≡ 0 = rw (peek_at, e) refl in
      let o : false ≡ true = sym z ∙ ap test (sym nothing) ∙ t in cc
]

text_eq-length : (a b : List ℕ) → text_eq a b ≡ true → length a ≡ length b
unfolding text_eq
text_eq-length [] [] h = refl
text_eq-length [] (y ∷ b) h = cc
text_eq-length (x ∷ a) [] h = cc
text_eq-length (x ∷ a) (y ∷ b) h = ap suc (text_eq-length a b (ground arith))

length-take_le : (n : ℕ) (xs : List ℕ) → length (take n xs) ≤ length xs
length-take_le zero xs = omega arith
length-take_le (suc n) [] = omega arith
length-take_le (suc n) (x ∷ xs) = let h = length-take_le n xs in omega arith

length-drop_le : (n : ℕ) (xs : List ℕ) → length (drop n xs) ≤ length xs - n
length-drop_le zero xs = omega arith
length-drop_le (suc n) [] = omega arith
length-drop_le (suc n) (x ∷ xs) = let h = length-drop_le n xs in omega arith

-- A literal that is found lies in the text.
found_inside :
    (s literal : List ℕ) (pos : ℕ)
    → pos ≤ length s
    → text_eq (take (length literal) (drop pos s)) literal ≡ true
    → pos + length literal ≤ length s
found_inside s literal pos h e =
    let a = text_eq-length (take (length literal) (drop pos s)) literal e in
    let b = length-take_le (length literal) (drop pos s) in
    let c = length-drop_le pos s in omega arith

pub consume_cases :
    (s literal : List ℕ) (p : Parser)
    → p.pos ≤ length s
    → (b : Bool) × (q : Parser) × (consume s literal p ≡ some (b, q))
      × (p.pos ≤ q.pos)
      × (q.pos ≤ length s)
unfolding consume
consume_cases s literal p h =
    let inside : leb p.pos (length s) ≡ true = ground arith in
    elim (Bool-cases (text_eq (take (length literal) (drop p.pos s)) literal)) [
      | inl e ↦ (
        true,
        record p { pos = p.pos + length literal },
        rw (consume, inside, e) refl,
        omega arith,
        found_inside s literal p.pos h e,
      )
      | inr e ↦ (false, p, rw (consume, inside, e) refl, omega arith, h)
    ]

pub expect-Reaches :
    (s literal : List ℕ) (lo : ℕ) (m : Action (List ℕ)) (p : Parser)
    → p.pos ≤ length s
    → ((q : Parser) → p.pos ≤ q.pos → q.pos ≤ length s → Reaches (length s) lo m q)
    → Reaches (length s) lo (expect s literal m) p
unfolding expect
expect-Reaches s literal lo m p h k =
    let (b, q, e, l, i) = consume_cases s literal p h in
    bind-Reaches (length s) lo (consume s literal) (λ found. if found then m else failed []) p b q e
      (found-Reaches b q l i)
  where
    found-Reaches :
        (b : Bool) (q : Parser)
        → p.pos ≤ q.pos
        → q.pos ≤ length s
        → Reaches (length s) lo (if b then m else failed []) q
    found-Reaches true q l i = k q l i
    found-Reaches false q l i = failed-Reaches (length s) lo [] q

peek_within : (s : List ℕ) (p : Parser) → ltb p.pos (length s) ≡ true → peek s p ≡ get_or s p.pos 0
unfolding peek
peek_within s p e = rw e refl

take_one : (s : List ℕ) (k : ℕ) → k < length s → take 1 (drop k s) ≡ get_or s k 0 ∷ []
take_one [] k h = absurd (omega arith)
take_one (x ∷ s) zero h = refl
take_one (x ∷ s) (suc k) h = take_one s k (omega arith)

-- The byte that `peek` shows is consumed.
pub consume_here :
    (s : List ℕ) (c : ℕ) (p : Parser)
    → ltb 0 c ≡ true
    → (peek s p == c) ≡ true
    → (consume s (c ∷ []) p ≡ some (true, record p { pos = p.pos + 1 })) × (p.pos < length s)
unfolding consume text_eq peek
consume_here s c p z e = elim (Bool-cases (ltb p.pos (length s))) [
  | inl i ↦
      let i' = ltb→lt p.pos (length s) i in
      let same : (get_or s p.pos 0 == c) ≡ true = ap (λ v. v == c) (sym (peek_within s p i)) ∙ e in
      let inside : leb p.pos (length s) ≡ true = ground arith in
      (rw (consume, inside, take_one s p.pos i', text_eq, same) refl, i')
  | inr i ↦
      let o : (0 == c) ≡ true = ap (λ v. v == c) (sym (peek_outside s p i)) ∙ e in
      let same = ==→eq 0 c o in let above = ltb→lt 0 c z in absurd (omega arith)
]
