-- ===== src/App/CommandLine/Operands.antt =====
-- The operands in `parseCommandLine` of src/main.cc: one path, and no argument that is unknown.
use fn_finder.Base.{
  ℕ, ◌≡◌, refl, Bool, true, false, not, ◌&&◌, ◌||◌, List, [], ◌∷◌, if◌then◌else◌, Bool-cases, inl,
  inr, ap, ◌∙◌, arith,
}
use fn_finder.App.CommandLine.{
  Session, Argument, argument_of, apply_argument, parse_arguments, parse_command_line, is_empty,
  new_session,
}
use fn_finder.App.CommandLine.Texts.{some_argument, is_unknown, is_operand}

-- The operands from the first one on that is not empty.
unfoldable pub operands_of : List (List ℕ) → List (List ℕ)
operands_of [] = []
operands_of (arg ∷ args) =
    let rest = operands_of args in if is_operand (argument_of arg) then arg ∷ rest else rest

unfoldable pub without_empty : List (List ℕ) → List (List ℕ)
without_empty [] = []
without_empty ([] ∷ args) = without_empty args
without_empty ((c ∷ cs) ∷ args) = (c ∷ cs) ∷ args

abbrev pub first_or_empty : List (List ℕ) → List ℕ
first_or_empty [] = []
first_or_empty (arg ∷ args) = arg

abbrev pub has_second : List (List ℕ) → Bool
has_second [] = false
has_second (arg ∷ []) = false
has_second (arg ∷ _ ∷ _) = true

abbrev pub no_more : List (List ℕ) → Bool
no_more [] = true
no_more (_ ∷ _) = false

and_true : (a : Bool) → a ≡ (a && true)
and_true true = refl
and_true false = refl

and_false : (a : Bool) → false ≡ (a && false)
and_false true = refl
and_false false = refl

-- What an argument that is no operand does to the path and to the validity.
keeps_path :
    (s : Session) (arg : List ℕ) (a : Argument)
    → is_operand a ≡ false
    → ((apply_argument s arg a).cli.path ≡ s.cli.path)
      × ((apply_argument s arg a).cli.valid ≡ (s.cli.valid && not (is_unknown a)))
unfolding apply_argument
keeps_path s arg Argument.operand h = cc
keeps_path s arg Argument.unknown h = (refl, and_false s.cli.valid)
keeps_path s arg Argument.help h = (refl, and_true s.cli.valid)
keeps_path s arg Argument.format_text h = (refl, and_true s.cli.valid)
keeps_path s arg Argument.format_json h = (refl, and_true s.cli.valid)
keeps_path s arg Argument.no_symbols h = (refl, and_true s.cli.valid)
keeps_path s arg Argument.no_eh_frame h = (refl, and_true s.cli.valid)
keeps_path s arg Argument.no_entry h = (refl, and_true s.cli.valid)
keeps_path s arg Argument.no_recursive h = (refl, and_true s.cli.valid)
keeps_path s arg Argument.no_demangle h = (refl, and_true s.cli.valid)
keeps_path s arg Argument.verbose h = (refl, and_true s.cli.valid)
keeps_path s arg Argument.quiet h = (refl, and_true s.cli.valid)

is_operand_eq : (a : Argument) → is_operand a ≡ true → a ≡ Argument.operand
is_operand_eq Argument.operand h = refl
is_operand_eq Argument.help h = cc
is_operand_eq Argument.format_text h = cc
is_operand_eq Argument.format_json h = cc
is_operand_eq Argument.no_symbols h = cc
is_operand_eq Argument.no_eh_frame h = cc
is_operand_eq Argument.no_entry h = cc
is_operand_eq Argument.no_recursive h = cc
is_operand_eq Argument.no_demangle h = cc
is_operand_eq Argument.verbose h = cc
is_operand_eq Argument.quiet h = cc
is_operand_eq Argument.unknown h = cc

-- An operand is the path if there is none, and is refused otherwise.
sets_path :
    (s : Session) (arg : List ℕ)
    → is_empty s.cli.path ≡ true
    → ((apply_argument s arg Argument.operand).cli.path ≡ arg)
      × ((apply_argument s arg Argument.operand).cli.valid ≡ s.cli.valid)
unfolding apply_argument
sets_path s arg h = rw h (refl, refl)

refuses_path :
    (s : Session) (arg : List ℕ)
    → is_empty s.cli.path ≡ false
    → ((apply_argument s arg Argument.operand).cli.path ≡ s.cli.path)
      × ((apply_argument s arg Argument.operand).cli.valid ≡ false)
unfolding apply_argument
refuses_path s arg h = rw h (refl, refl)

refused : (v w u m : Bool) → v ≡ false → (v && m) ≡ (w && (u && false))
refused v w u m h = ground arith

kept : (v w a u m : Bool) → v ≡ (w && not a) → (v && (not u && m)) ≡ (w && (not (a || u) && m))
kept v w a u m h = ground arith

-- Once a path is there, it stays, and each further operand is refused.
abbrev Settled : Session → (t : Session) → (unknown : Bool) → (operands : List (List ℕ)) → Type 0
Settled s t unknown operands =
    (t.cli.path ≡ s.cli.path) × (t.cli.valid ≡ (s.cli.valid && (not unknown && no_more operands)))

abbrev IsSettled : List (List ℕ) → Type 0
IsSettled args =
    (s : Session)
    → is_empty s.cli.path ≡ false
    → Settled s (parse_arguments s args) (some_argument is_unknown args) (operands_of args)

apply_argument-Settled :
    (s : Session) (arg : List ℕ) (args : List (List ℕ)) (a : Argument)
    → IsSettled args
    → is_empty s.cli.path ≡ false
    → Settled s
        (parse_arguments (apply_argument s arg a) args)
        (is_unknown a || some_argument is_unknown args)
        (if is_operand a then arg ∷ operands_of args else operands_of args)
apply_argument-Settled s arg args a rest h = elim (Bool-cases (is_operand a)) [
  | inl e ↦
      let (p, v) = refuses_path s arg h in
      let (p', v') = rest (apply_argument s arg Argument.operand) (ap is_empty p ∙ h) in
      rw (is_operand_eq a e) (p' ∙ p, v' ∙ refused _ _ _ _ v)
  | inr e ↦
      let (p, v) = keeps_path s arg a e in
      let (p', v') = rest (apply_argument s arg a) (ap is_empty p ∙ h) in
      rw e (p' ∙ p, v' ∙ kept _ _ _ _ _ v)
]

parse_arguments-IsSettled : (args : List (List ℕ)) → IsSettled args
unfolding parse_arguments operands_of
parse_arguments-IsSettled [] s h = (refl, and_true s.cli.valid)
parse_arguments-IsSettled (arg ∷ args) s h =
    apply_argument-Settled s arg args (argument_of arg) (parse_arguments-IsSettled args) h

-- Before that, the path is the first operand that is not empty, and a second one is refused.
abbrev Opens : Session → (t : Session) → (unknown : Bool) → (operands : List (List ℕ)) → Type 0
Opens s t unknown operands =
    (t.cli.path ≡ first_or_empty (without_empty operands))
    × (t.cli.valid ≡ (s.cli.valid && (not unknown && not (has_second (without_empty operands)))))

abbrev IsOpen : List (List ℕ) → Type 0
IsOpen args =
    (s : Session)
    → s.cli.path ≡ []
    → Opens s (parse_arguments s args) (some_argument is_unknown args) (operands_of args)

no_more-has_second :
    (arg : List ℕ) (args : List (List ℕ)) → no_more args ≡ not (has_second (arg ∷ args))
no_more-has_second arg [] = refl
no_more-has_second arg (_ ∷ _) = refl

open_operand :
    (s : Session) (arg : List ℕ) (args : List (List ℕ)) (t : Session)
    → IsOpen args
    → t.cli.path ≡ arg
    → t.cli.valid ≡ s.cli.valid
    → Opens s (parse_arguments t args) (some_argument is_unknown args) (arg ∷ operands_of args)
unfolding without_empty
open_operand s [] args t rest p v =
    let (p', v') = rest t p in
    (
      p',
      v'
          ∙ ap
              (λ b.
                b
                && (not (some_argument is_unknown args)
                    && not (has_second (without_empty (operands_of args)))))
              v,
    )
open_operand s (c ∷ cs) args t rest p v =
    let (p', v') = parse_arguments-IsSettled args t (ap is_empty p) in
    (
      p' ∙ p,
      v'
          ∙ ap (λ b. b && (not (some_argument is_unknown args) && no_more (operands_of args))) v
          ∙ ap (λ m. s.cli.valid && (not (some_argument is_unknown args) && m))
              (no_more-has_second (c ∷ cs) (operands_of args)),
    )

apply_argument-Opens :
    (s : Session) (arg : List ℕ) (args : List (List ℕ)) (a : Argument)
    → IsOpen args
    → s.cli.path ≡ []
    → Opens s
        (parse_arguments (apply_argument s arg a) args)
        (is_unknown a || some_argument is_unknown args)
        (if is_operand a then arg ∷ operands_of args else operands_of args)
apply_argument-Opens s arg args a rest h = elim (Bool-cases (is_operand a)) [
  | inl e ↦
      let (p, v) = sets_path s arg (ap is_empty h) in
      rw (is_operand_eq a e)
        (open_operand s arg args (apply_argument s arg Argument.operand) rest p v)
  | inr e ↦
      let (p, v) = keeps_path s arg a e in
      let (p', v') = rest (apply_argument s arg a) (p ∙ h) in rw e (p', v' ∙ kept _ _ _ _ _ v)
]

parse_arguments-IsOpen : (args : List (List ℕ)) → IsOpen args
unfolding parse_arguments operands_of without_empty
parse_arguments-IsOpen [] s h = (h, and_true s.cli.valid)
parse_arguments-IsOpen (arg ∷ args) s h =
    apply_argument-Opens s arg args (argument_of arg) (parse_arguments-IsOpen args) h

pub parse_command_line-path :
    (args : List (List ℕ))
    → let cli = (parse_command_line args).cli in
      let operands = without_empty (operands_of args) in
      (cli.path ≡ first_or_empty operands)
      × (cli.valid ≡ (not (some_argument is_unknown args) && not (has_second operands)))
unfolding parse_command_line
parse_command_line-path args = parse_arguments-IsOpen args new_session refl
