-- ===== src/Symbol/Demangler/Tables.antt =====
-- The two tables of src/symbol/itanium_demangler.cc.
use fn_finder.Base.{ℕ, List, [], ◌∷◌}
use fn_finder.Base.Text.{text, byte}

unfoldable pub builtin_types : List (ℕ × List ℕ)
builtin_types =
    (byte "v", text "void")
    ∷ (byte "w", text "wchar_t")
    ∷ (byte "b", text "bool")
    ∷ (byte "c", text "char")
    ∷ (byte "a", text "signed char")
    ∷ (byte "h", text "unsigned char")
    ∷ (byte "s", text "short")
    ∷ (byte "t", text "unsigned short")
    ∷ (byte "i", text "int")
    ∷ (byte "j", text "unsigned int")
    ∷ (byte "l", text "long")
    ∷ (byte "m", text "unsigned long")
    ∷ (byte "x", text "long long")
    ∷ (byte "y", text "unsigned long long")
    ∷ (byte "n", text "__int128")
    ∷ (byte "o", text "unsigned __int128")
    ∷ (byte "f", text "float")
    ∷ (byte "d", text "double")
    ∷ (byte "e", text "long double")
    ∷ (byte "g", text "__float128")
    ∷ (byte "z", text "...")
    ∷ []

unfoldable pub operator_names : List (List ℕ × List ℕ)
operator_names =
    (text "nw", text "operator new")
    ∷ (text "na", text "operator new[]")
    ∷ (text "dl", text "operator delete")
    ∷ (text "da", text "operator delete[]")
    ∷ (text "ps", text "operator+")
    ∷ (text "ng", text "operator-")
    ∷ (text "ad", text "operator&")
    ∷ (text "de", text "operator*")
    ∷ (text "co", text "operator~")
    ∷ (text "pl", text "operator+")
    ∷ (text "mi", text "operator-")
    ∷ (text "ml", text "operator*")
    ∷ (text "dv", text "operator/")
    ∷ (text "rm", text "operator%")
    ∷ (text "an", text "operator&")
    ∷ (text "or", text "operator|")
    ∷ (text "eo", text "operator^")
    ∷ (text "aS", text "operator=")
    ∷ (text "pL", text "operator+=")
    ∷ (text "mI", text "operator-=")
    ∷ (text "mL", text "operator*=")
    ∷ (text "dV", text "operator/=")
    ∷ (text "rM", text "operator%=")
    ∷ (text "aN", text "operator&=")
    ∷ (text "oR", text "operator|=")
    ∷ (text "eO", text "operator^=")
    ∷ (text "ls", text "operator<<")
    ∷ (text "rs", text "operator>>")
    ∷ (text "lS", text "operator<<=")
    ∷ (text "rS", text "operator>>=")
    ∷ (text "eq", text "operator==")
    ∷ (text "ne", text "operator!=")
    ∷ (text "lt", text "operator<")
    ∷ (text "gt", text "operator>")
    ∷ (text "le", text "operator<=")
    ∷ (text "ge", text "operator>=")
    ∷ (text "ss", text "operator<=>")
    ∷ (text "nt", text "operator!")
    ∷ (text "aa", text "operator&&")
    ∷ (text "oo", text "operator||")
    ∷ (text "pp", text "operator++")
    ∷ (text "mm", text "operator--")
    ∷ (text "cm", text "operator,")
    ∷ (text "pm", text "operator->*")
    ∷ (text "pt", text "operator->")
    ∷ (text "cl", text "operator()")
    ∷ (text "ix", text "operator[]")
    ∷ (text "qu", text "operator?")
    ∷ []

-- The switch of `parseExtendedBuiltin`.
unfoldable pub extended_builtins : List (ℕ × List ℕ)
extended_builtins =
    (byte "n", text "std::nullptr_t")
    ∷ (byte "i", text "char32_t")
    ∷ (byte "s", text "char16_t")
    ∷ (byte "a", text "auto")
    ∷ (byte "c", text "decltype(auto)")
    ∷ (byte "h", text "_Float16")
    ∷ (byte "f", text "_Decimal32")
    ∷ (byte "d", text "_Decimal64")
    ∷ (byte "e", text "_Decimal128")
    ∷ []
