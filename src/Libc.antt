-- ===== src/Libc.antt =====
-- The functions of the C library that several programs call, on the content of a C string.
use akiso.Prelude.{
  ℕ, ◌+◌, ◌-◌, ◌*◌, ◌%◌, ◌^◌, Bool, true, false, ◌&&◌, ◌||◌, [], ◌∷◌, leb, ltb, ◌==◌, if◌then◌else◌,
  Bytes,
}
use akiso.Prelude.Int.{ℤ, pos, negsuc, pos_part, neg_part, sub_ℕ}

-- `isspace` of the C locale
abbrev pub isspace : ℕ → Bool
isspace c = c == b' ' || leb 9 c && leb c 13

abbrev pub isdigit : ℕ → Bool
isdigit c = leb b'0' c && leb c b'9'

unfoldable pub skip_space : Bytes → Bytes
skip_space [] = []
skip_space (c ∷ s) = if isspace c then skip_space s else c ∷ s

-- The value of the digits in front, and what follows them.
unfoldable pub digits : ℕ → Bytes → ℕ × Bytes
digits acc [] = (acc, [])
digits acc (c ∷ s) =
    let rest = digits (acc * 10 + (c - b'0')) s in if isdigit c then rest else (acc, c ∷ s)

abbrev starts_digit : Bytes → Bool
starts_digit [] = false
starts_digit (c ∷ s) = isdigit c

-- `strtol` gives LONG_MAX or LONG_MIN where the number does not fit.
abbrev pub clamp_long : Bool → ℕ → ℤ
clamp_long negative n =
    if negative
    then (if leb n (2 ^ 63) then sub_ℕ 0 n else negsuc (2 ^ 63 - 1))
    else if ltb n (2 ^ 63)
    then pos n
    else pos (2 ^ 63 - 1)

-- A `long` assigned to an `int`.
abbrev pub to_int : ℤ → ℤ
to_int n =
    let bits = (pos_part n + 2 ^ 64 - neg_part n) % 2 ^ 32 in
    if ltb bits (2 ^ 31) then pos bits else negsuc (2 ^ 32 - 1 - bits)

-- The number behind the sign; with no digit there, `endptr` is the whole string.
abbrev pub strtol_digits : Bool → Bytes → Bytes → ℤ × Bytes
strtol_digits negative whole s =
    if starts_digit s
    then (let (n, rest) = digits 0 s in (clamp_long negative n, rest))
    else (pos 0, whole)

abbrev strtol_sign : Bytes → Bytes → ℤ × Bytes
strtol_sign whole [] = (pos 0, whole)
strtol_sign whole (c ∷ s) =
    if c == b'-'
    then strtol_digits true whole s
    else if c == b'+'
    then strtol_digits false whole s
    else strtol_digits false whole (c ∷ s)

-- `strtol(s, &endptr, 10)`: the number and the string at `endptr`.
unfoldable pub strtol : Bytes → ℤ × Bytes
unfolding skip_space digits
strtol s = strtol_sign s (skip_space s)
