-- ===== src/CText.antt =====
-- The C library's text functions, as far as the modelled programs use them, first of all
-- skynet_test/skynet/mytest/gate/service_gate.c. Text in memory is the list of its bytes from a
-- pointer on; a function that takes a C string stops at the first 0.
pub mod Decimal
use myprogram.Prelude.{
  ℕ, zero, suc, ◌+◌, ◌-◌, ◌*◌, ◌/◌, ◌%◌, ◌^◌, Bool, true, false, ◌&&◌, ◌||◌, Option, none, some,
  List, [], ◌∷◌, ltb, leb, ◌==◌, if◌then◌else◌, Run, ok, fault,
}
use Prim.Native.String.{String}
use Prim.Native.Char.{code}

-- The bytes of a text literal.
abbrev pub ascii : String → List ℕ
ascii String.[] = []
ascii (String.◌∷◌ c s) = code c ∷ ascii s

-- The bytes of a C string.
unfoldable pub c_string : List ℕ → List ℕ
c_string [] = []
c_string (c ∷ cs) = if c == 0 then [] else c ∷ c_string cs

abbrev pub is_space : ℕ → Bool
is_space c = (c == b' ') || (leb 9 c && leb c 13)

unfoldable pub skip_space : List ℕ → List ℕ
skip_space [] = []
skip_space (c ∷ cs) = if is_space c then skip_space cs else c ∷ cs

abbrev pub digit : ℕ → Option ℕ
digit c = if leb b'0' c && leb c b'9' then some (c - b'0') else none

abbrev pub hex_digit : ℕ → Option ℕ
hex_digit c =
    if leb b'0' c && leb c b'9'
    then some (c - b'0')
    else (if leb b'a' c && leb c b'f'
        then some (c - b'a' + 10)
        else (if leb b'A' c && leb c b'F' then some (c - b'A' + 10) else none))

-- The value of the digits in front, on top of `acc`.
unfoldable pub digits_value : ℕ → (ℕ → Option ℕ) → ℕ → List ℕ → ℕ
digits_value base value acc [] = acc
digits_value base value acc (c ∷ cs) = elim (value c) [
  | none ↦ acc
  | some d ↦ digits_value base value (acc * base + d) cs
]

-- The sign in front, and what follows it.
unfoldable pub sign : List ℕ → Bool × List ℕ
sign [] = (false, [])
sign (c ∷ cs) =
    if c == b'-' then (true, cs) else (if c == b'+' then (false, cs) else (false, c ∷ cs))

-- `0x` in front of hexadecimal digits.
unfoldable pub skip_prefix : List ℕ → List ℕ
skip_prefix (z ∷ x ∷ c ∷ cs) = elim (hex_digit c) [
  | none ↦ z ∷ x ∷ c ∷ cs
  | some _ ↦ if (z == b'0') && ((x == b'x') || (x == b'X')) then c ∷ cs else z ∷ x ∷ c ∷ cs
]
skip_prefix cs = cs

abbrev pub at_most : ℕ → ℕ → ℕ
at_most limit n = if ltb limit n then limit else n

-- `(int)strtol(s, NULL, 10)` as a 32-bit pattern. strtol stops at the ends of a 64-bit long.
unfoldable pub strtol : List ℕ → ℕ
unfolding skip_space sign digits_value
strtol s =
    let (negative, body) = sign (skip_space s) in
    let value = digits_value 10 digit 0 body in
    if negative
    then (2 ^ 64 - at_most (2 ^ 63) value) % 2 ^ 32
    else at_most (2 ^ 63 - 1) value % 2 ^ 32

-- `(uint32_t)strtoul(s, NULL, 16)`
unfoldable pub strtoul16 : List ℕ → ℕ
unfolding skip_space sign skip_prefix digits_value
strtoul16 s =
    let (negative, body) = sign (skip_space s) in
    let value = digits_value 16 hex_digit 0 (skip_prefix body) in
    if ltb (2 ^ 64 - 1) value
    then (2 ^ 64 - 1) % 2 ^ 32
    else (if negative then (2 ^ 64 - value) % 2 ^ 32 else value % 2 ^ 32)

-- `(uint32_t)strtoul(s, NULL, 10)`, as sscanf reads `%u`.
unfoldable pub strtoul10 : List ℕ → ℕ
unfolding skip_space sign digits_value
strtoul10 s =
    let (negative, body) = sign (skip_space s) in
    let value = digits_value 10 digit 0 body in
    if ltb (2 ^ 64 - 1) value
    then (2 ^ 64 - 1) % 2 ^ 32
    else (if negative then (2 ^ 64 - value) % 2 ^ 32 else value % 2 ^ 32)

-- `strsep(&p, " ")`: the word in front, and the text behind the space that ends it, or NULL if the
-- string ends first.
unfoldable pub strsep : List ℕ → List ℕ × Option (List ℕ)
strsep [] = ([], none)
strsep (c ∷ cs) =
    let (word, rest) = strsep cs in
    if c == b' ' then ([], some cs) else (if c == 0 then ([], none) else (c ∷ word, rest))

-- `strchr(s, c)`: the string in front of the first `c`, and what stands behind it.
unfoldable pub strchr : ℕ → List ℕ → Option (List ℕ × List ℕ)
strchr d [] = none
strchr d (c ∷ cs) =
    let rest : Option (List ℕ × List ℕ) = elim (strchr d cs) [
      | none ↦ none
      | some (front, back) ↦ some (c ∷ front, back)
    ] in
    if c == 0 then none else (if c == d then some ([], cs) else rest)

-- `memcmp(a, b, n) == 0`. It compares byte by byte; past the end of `b` it has no behaviour.
unfoldable pub memcmp_eq : ℕ → List ℕ → List ℕ → Run Bool
memcmp_eq zero a b = ok true
memcmp_eq (suc n) [] b = fault
memcmp_eq (suc n) (x ∷ a) [] = fault
memcmp_eq (suc n) (x ∷ a) (y ∷ b) = let rest = memcmp_eq n a b in if x == y then rest else ok false

-- `%u`: the decimal digits, at most ten for a 32-bit number.
unfoldable pub decimal_digits : ℕ → ℕ → List ℕ → List ℕ
decimal_digits zero n after = after
decimal_digits (suc k) n after =
    let after' = (n % 10 + b'0') ∷ after in
    let rest = decimal_digits k (n / 10) after' in if ltb n 10 then after' else rest

unfoldable pub print_unsigned : ℕ → List ℕ
unfolding decimal_digits
print_unsigned n = decimal_digits 10 n []

-- `%d` of a 32-bit pattern.
unfoldable pub print_int : ℕ → List ℕ
unfolding print_unsigned
print_int n = if ltb n (2 ^ 31) then print_unsigned n else b'-' ∷ print_unsigned (2 ^ 32 - n)
