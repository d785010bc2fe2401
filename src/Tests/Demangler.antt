-- ===== src/Tests/Demangler.antt =====
-- The demangler on names of the kinds that it reads.
use fn_finder.Base.{◌≡◌, refl, some, arith}
use fn_finder.Base.Text.{text}
use fn_finder.Symbol.Demangler.Encoding.{demangle, Outcome, returned, length_error}
use fn_finder.Symbol.Demangler.Totality.{demangle_total}

demangle_nested :
    demangle 1000 (text "_ZN3foo3barEiPKc") ≡ some (returned (text "foo::bar(int, char const*)"))
unfolding demangle
demangle_nested = refl

demangle_constructor : demangle 1000 (text "_ZN3FooC1Ev") ≡ some (returned (text "Foo::Foo()"))
unfolding demangle
demangle_constructor = refl

demangle_template :
    demangle 1000 (text "_Z3maxIiET_S0_S0_") ≡ some (returned (text "max<int>(int, int)"))
unfolding demangle
demangle_template = refl

demangle_other : demangle 1000 (text "main") ≡ some (returned (text "main"))
unfolding demangle
demangle_other = refl

demangle_broken : demangle 1000 (text "_ZN3foo") ≡ some (returned (text "_ZN3foo"))
unfolding demangle
demangle_broken = refl

demangle_total_example :
    (outcome : Outcome) × (demangle 1000 (text "_ZN3foo3barEiPKc") ≡ some outcome)
demangle_total_example = demangle_total 1000 (text "_ZN3foo3barEiPKc") (omega arith)

-- Each substitution repeats what stands before it, and the result outgrows any limit.
demangle_growth : demangle 100 (text "_Z1f1AS_IS_S_ES0_IS0_S0_ES1_IS1_S1_E") ≡ some length_error
unfolding demangle
demangle_growth = refl

-- The second substitution of the standard, behind the template's name, is not there.
demangle_template_name :
    demangle 1000 (text "_Z1f3FooIiES0_") ≡ some (returned (text "_Z1f3FooIiES0_"))
unfolding demangle
demangle_template_name = refl

demangle_instance :
    demangle 1000 (text "_Z1f3FooIiES_") ≡ some (returned (text "f(Foo<int>, Foo<int>)"))
unfolding demangle
demangle_instance = refl
