-- ===== src/Common/ByteReader/Strings.antt =====
-- Strings read back: `ByteReader::readCString` of src/common/byte_reader.cc.
use fn_finder.Base.{
  ℕ, suc, ◌+◌, ◌≤◌, ◌≡◌, refl, ap, ◌∙◌, false, true, ◌&&◌, List, [], ◌∷◌, Option, none, some, ◌++◌,
  arith, length, drop, All, get_or, ltb, ◌==◌, length-append, if◌then◌else◌,
}
use fn_finder.Common.Result.{done}
use fn_finder.Common.ByteReader.{
  ByteReader, size, in_bounds, ensure, until_zero, string_at, read_c_string,
}
use fn_finder.Common.ByteReader.Bounds.{length-drop, drop_head}

-- No byte of the string is zero.
abbrev pub IsCString : List ℕ → Type 0
IsCString s = All (λ b. (b == 0) ≡ false) s

drop-append : (p : ℕ) (bs s rest : List ℕ) → drop p bs ≡ s ++ rest → drop (p + length s) bs ≡ rest
drop-append p bs [] rest h = ap (λ k. drop k bs) (omega arith) ∙ h
drop-append p bs (b ∷ s) rest h =
    let (i, g, d) = drop_head p bs b (s ++ rest) h in
    ap (λ k. drop k bs) (omega arith) ∙ drop-append (suc p) bs s rest d

-- What stands behind a string: nothing, or the zero byte that ends it and the rest.
abbrev pub tail_of : Option (List ℕ) → List ℕ
tail_of none = []
tail_of (some rest) = 0 ∷ rest

abbrev pub end_length : Option (List ℕ) → ℕ
end_length none = 0
end_length (some rest) = 1

until_zero-tail_of :
    (s : List ℕ) (tail : Option (List ℕ)) → IsCString s → until_zero (s ++ tail_of tail) ≡ s
unfolding until_zero
until_zero-tail_of [] none h = refl
until_zero-tail_of [] (some rest) h = refl
until_zero-tail_of (b ∷ s) tail (n, h) = rw n (ap (λ t. b ∷ t) (until_zero-tail_of s tail h))

-- Whether the byte at the end of a string is a zero byte to step over.
ends_here :
    (bs : List ℕ) (end : ℕ) (tail : Option (List ℕ))
    → end ≤ length bs
    → drop end bs ≡ tail_of tail
    → (if ltb end (length bs) && get_or bs end 0 == 0 then end + 1 else end) ≡ end + end_length tail
ends_here bs end none h e =
    let n : length (drop end bs) ≡ 0 = ap length e in ground (arith, length-drop end bs)
ends_here bs end (some rest) h e = let (i, g, _) = drop_head end bs 0 rest e in ground arith

-- Where the bytes from the position on are a string without a zero byte, and then either a zero byte
-- or the end of the bytes, the string is read, and the position stands behind it and behind the zero
-- byte if there is one.
pub read_c_string_lem :
    (r : ByteReader) (s : List ℕ) (tail : Option (List ℕ))
    → IsCString s
    → r.position ≤ size r
    → drop r.position r.bytes ≡ s ++ tail_of tail
    → read_c_string r ≡ done (s, record r { position = r.position + (length s + end_length tail) })
unfolding read_c_string string_at ensure in_bounds
read_c_string_lem r s tail n h e =
    let value : until_zero (drop r.position r.bytes) ≡ s =
      ap until_zero e ∙ until_zero-tail_of s tail n in
    let behind = drop-append r.position r.bytes s (tail_of tail) e in
    let total : length (drop r.position r.bytes) ≡ length s + length (tail_of tail) =
      ap length e ∙ length-append s (tail_of tail) in
    let fits : r.position + length s ≤ length r.bytes =
      omega (arith, length-drop r.position r.bytes, total) in
    let end = ends_here r.bytes (r.position + length s) tail fits behind in
    let allowed : in_bounds r r.position 0 ≡ true = ground arith in
    rw (read_c_string, string_at, ensure, allowed, value)
      (ap (λ k. done (s, record r { position = k })) (end ∙ omega arith))
