-- ===== src/Elf/Parser/Accepted.antt =====
-- Which files the parser accepts: `validateHeader` and `run` of src/elf/elf_parser.cc.
use fn_finder.Base.{
  ℕ, ◌<◌, ◌==◌, leb, Bool, Bool-cases, inl, inr, sym, subst, ◌+◌, ◌*◌, ◌≤◌, ◌≡◌, ◌↔◌, true, List,
  arith, length, get_or,
}
use fn_finder.Common.Result.{
  Result, StatusCode, not_elf, unsupported_elf, require, ◌>>◌, done, failure, IsDone, IsDone->>=,
}
use fn_finder.Common.ByteReader.{
  ByteReader, make_reader, size, byte_at, in_bounds, ensure, u8, u16, u64,
}
use fn_finder.Elf.Parser.{
  Header, read_header, validate_header, parse_segments, parse_sections, section_limits,
  max_sections, parse_bytes, image_without_symbols, is_magic,
}
use fn_finder.Elf.Parser.Headers.{parse_segments-IsDone, parse_sections-IsDone}
use fn_finder.Elf.Parser.Totality.{parse_symbols-IsDone}

-- A 64-bit little-endian AArch64 file by its first bytes.
pub record IsSupported (bytes : List ℕ) : Type 0 where
  pub long : 64 ≤ length bytes
  pub magic0 : get_or bytes 0 0 ≡ 0x7f
  pub magic1 : get_or bytes 1 0 ≡ 0x45
  pub magic2 : get_or bytes 2 0 ≡ 0x4c
  pub magic3 : get_or bytes 3 0 ≡ 0x46
  pub class : get_or bytes 4 0 ≡ 2
  pub encoding : get_or bytes 5 0 ≡ 1
  pub machine : get_or bytes 18 0 + get_or bytes 19 0 * 256 ≡ 183

read_header-IsDone :
    (r : ByteReader) (type machine : ℕ) → 64 ≤ size r → IsDone (read_header r type machine)
unfolding read_header u16 u64 ensure in_bounds
read_header-IsDone r type machine h = ground arith

u8-byte_at : (r : ByteReader) (i : ℕ) → i + 1 ≤ size r → u8 r i ≡ done (byte_at r i)
unfolding u8 ensure in_bounds
u8-byte_at r i h = ground arith

abbrev half_at : ByteReader → ℕ → ℕ
half_at r i = byte_at r i + byte_at r (i + 1) * 0x100

u16-half_at : (r : ByteReader) (i : ℕ) → i + 2 ≤ size r → u16 r i ≡ done (half_at r i)
unfolding u16 ensure in_bounds
u16-half_at r i h = ground arith

-- The tests of the header behind the test of its length, on the bytes themselves.
abbrev header_checks : ByteReader → Result Header
header_checks r = do
  require (is_magic (byte_at r 0) (byte_at r 1) (byte_at r 2) (byte_at r 3)) not_elf
  require (byte_at r 4 == 2) unsupported_elf
  require (byte_at r 5 == 1) unsupported_elf
  require (half_at r 18 == 183) unsupported_elf
  read_header r (half_at r 16) (half_at r 18)

validate_header_long : (r : ByteReader) → 64 ≤ size r → validate_header r ≡ header_checks r
unfolding validate_header
validate_header_long r h =
    let allowed : leb 64 (size r) ≡ true = ground arith in
    rw (
      validate_header,
      allowed,
      u8-byte_at r 0 (omega arith),
      u8-byte_at r 1 (omega arith),
      u8-byte_at r 2 (omega arith),
      u8-byte_at r 3 (omega arith),
      u8-byte_at r 4 (omega arith),
      u8-byte_at r 5 (omega arith),
      u16-half_at r 16 (omega arith),
      u16-half_at r 18 (omega arith),
    )

validate_header_short : (r : ByteReader) → size r < 64 → validate_header r ≡ failure not_elf
unfolding validate_header
validate_header_short r h = ground arith

checks_iff :
    (b0 b1 b2 b3 : Bool) (s0 s1 s2 s3 : StatusCode) (m : Result Header)
    → IsDone (require b0 s0 >> (require b1 s1 >> (require b2 s2 >> (require b3 s3 >> m))))
      ↔ ((b0 ≡ true) × (b1 ≡ true) × (b2 ≡ true) × (b3 ≡ true) × IsDone m)
checks_iff b0 b1 b2 b3 s0 s1 s2 s3 m = ground arith

long_iff :
    (bytes : List ℕ)
    → IsDone (header_checks (make_reader bytes)) ↔ (
        (is_magic (get_or bytes 0 0) (get_or bytes 1 0) (get_or bytes 2 0) (get_or bytes 3 0)
          ≡ true)
        × ((get_or bytes 4 0 == 2) ≡ true)
        × ((get_or bytes 5 0 == 1) ≡ true)
        × ((half_at (make_reader bytes) 18 == 183) ≡ true)
        × IsDone (
            read_header
              (make_reader bytes)
              (half_at (make_reader bytes) 16)
              (half_at (make_reader bytes) 18)))
long_iff bytes = checks_iff _ _ _ _ not_elf unsupported_elf unsupported_elf unsupported_elf _

-- The header is accepted exactly if the file is one of the supported kind.
pub validate_header_iff :
    (bytes : List ℕ) → IsDone (validate_header (make_reader bytes)) ↔ IsSupported bytes
validate_header_iff bytes = (
  λ h. elim (Bool-cases (leb 64 (length bytes))) [
    | inl e ↦
        let c =
          (long_iff bytes).0
            (subst IsDone (validate_header_long (make_reader bytes) (ground arith)) h) in
        ground arith
    | inr e ↦ elim (subst IsDone (validate_header_short (make_reader bytes) (ground arith)) h) [ ]
  ],
  λ s. subst IsDone (sym (validate_header_long (make_reader bytes) s.long)) (
      (long_iff bytes).1 (
        ground (arith, s.magic0, s.magic1, s.magic2, s.magic3),
        ground (arith, s.class),
        ground (arith, s.encoding),
        ground (arith, s.machine),
        read_header-IsDone (make_reader bytes) _ _ s.long,
      )),
)

-- Behind an accepted header with a plausible section count the parser returns an image, whatever
-- the file's tables say.
pub parse_bytes_total :
    (bytes : List ℕ) (h : Header) (count index : ℕ)
    → validate_header (make_reader bytes) ≡ done h
    → section_limits (make_reader bytes) h ≡ done (count, index)
    → count ≤ max_sections
    → IsDone (parse_bytes bytes)
unfolding parse_bytes
parse_bytes_total bytes h count index e l plausible =
    let r = make_reader bytes in
    rw (parse_bytes, e)
      (IsDone->>= (parse_segments r h) _ (parse_segments-IsDone r h) (λ segments _.
        IsDone->>= (parse_sections r h) _ (parse_sections-IsDone r h count index l plausible)
          (λ sections _.
            let image = image_without_symbols bytes h segments sections in
            IsDone->>= _ _ (parse_symbols-IsDone r image) (λ symbols _. tt))))
