-- ===== src/Common/Result.antt =====
-- Status codes and exceptions: src/common/status_code.h and exception.h. A thrown error is a value
-- that carries its status code; its message goes to the log only and is left out.
use fn_finder.Base.{Bool, true, false, ◌≡◌, ◌⊎◌, inl, inr, refl}

pub data StatusCode : Type 0 where
  ok invalid_argument file_not_found io_error not_elf unsupported_elf malformed_elf : StatusCode
  disassembler_error internal_error : StatusCode

-- What a function that may throw an `FnFinderError` gives.
pub data Result {ℓ} (A : Type ℓ) : Type ℓ where
  failure : StatusCode → Result A
  done : A → Result A

-- An error skips what follows.
infixl 5 ◌>>=◌ ◌>>◌
abbrev pub ◌>>=◌ {ℓ κ} : {A : Type ℓ} {B : Type κ} → Result A → (A → Result B) → Result B
done value >>= next = next value
failure status >>= next = failure status

abbrev pub ◌>>◌ {ℓ} : {A : Type ℓ} → Result (Unit {0}) → Result A → Result A
done value >> next = next
failure status >> next = failure status

-- `if (!test) throw`.
abbrev pub require : Bool → StatusCode → Result (Unit {0})
require true s = done tt
require false s = failure s

abbrev pub IsDone {ℓ} : {A : Type ℓ} → Result A → Type 0
IsDone (failure s) = ⊥
IsDone (done a) = Unit {0}

pub IsDone->>= {ℓ κ} :
    {A : Type ℓ} {B : Type κ} (m : Result A) (f : A → Result B)
    → IsDone m
    → ((a : A) → m ≡ done a → IsDone (f a))
    → IsDone (m >>= f)
IsDone->>= (failure s) f h k = elim h [ ]
IsDone->>= (done a) f h k = k a refl

pub IsDone-some {ℓ} : {A : Type ℓ} (m : Result A) → IsDone m → (a : A) × (m ≡ done a)
IsDone-some (failure s) h = elim h [ ]
IsDone-some (done a) h = (a, refl)

pub Result-cases {ℓ} :
    {A : Type ℓ} (m : Result A) → ((s : StatusCode) × (m ≡ failure s)) ⊎ ((a : A) × (m ≡ done a))
Result-cases (failure s) = inl (s, refl)
Result-cases (done a) = inr (a, refl)
