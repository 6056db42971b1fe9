-- ===== src/CText/Decimal.antt =====
-- What strtol and strtoul read of the digits that printf writes for `%u`.
use myprogram.Prelude.{
  ℕ, zero, suc, ◌+◌, ◌*◌, ◌/◌, ◌%◌, ◌^◌, ◌<◌, ◌-◌, ◌≤◌, ◌≡◌, refl, ap, ◌∙◌, inl, inr, false, none,
  some, List, [], ◌∷◌, arith, ltb, ◌==◌, Bool-cases, lt→ltb, ltb-eq_false, if_same, length,
}
use myprogram.CText.{
  skip_space, digit, digits_value, sign, strtol, strtoul10, decimal_digits, print_unsigned,
  print_int,
}

digit-char : (d : ℕ) → d < 10 → digit (d + b'0') ≡ some d
digit-char d h = ground arith

-- One digit more.
value_step :
    (acc d : ℕ) (cs : List ℕ)
    → d < 10
    → digits_value 10 digit acc ((d + b'0') ∷ cs) ≡ digits_value 10 digit (acc * 10 + d) cs
unfolding digits_value
value_step acc d cs h = rw (digit-char d h, digits_value) refl

last_digit :
    (n : ℕ) (after : List ℕ)
    → n < 10
    → digits_value 10 digit 0 ((n % 10 + b'0') ∷ after) ≡ digits_value 10 digit n after
last_digit n after h =
    value_step 0 (n % 10) after (omega arith)
    ∙ ap (λ a. digits_value 10 digit a after) (omega arith)

-- The digits of a number that has at most `k + 1` of them, in front of `after`.
digits_value-decimal_digits :
    (k n : ℕ) (after : List ℕ)
    → n < 10 ^ suc k
    → digits_value 10 digit 0 (decimal_digits (suc k) n after) ≡ digits_value 10 digit n after
unfolding decimal_digits
digits_value-decimal_digits zero n after h =
    rw (lt→ltb n 10 (omega arith)) (last_digit n after (omega arith))
digits_value-decimal_digits (suc k) n after h = elim (Bool-cases (ltb n 10)) [
  | inl e ↦ rw e (last_digit n after (ground arith))
  | inr e ↦ rw e (
      digits_value-decimal_digits k (n / 10) ((n % 10 + b'0') ∷ after) (omega arith)
      ∙ value_step (n / 10) (n % 10) after (omega arith)
      ∙ ap (λ a. digits_value 10 digit a after) (omega arith))
]

-- They begin with a digit.
decimal_digits-first :
    (k n : ℕ) (after : List ℕ)
    → (d : ℕ) × (rest : List ℕ) × (d < 10) × (decimal_digits (suc k) n after ≡ (d + b'0') ∷ rest)
unfolding decimal_digits
decimal_digits-first zero n after = (n % 10, after, omega arith, if_same (ltb n 10) _)
decimal_digits-first (suc k) n after = elim (Bool-cases (ltb n 10)) [
  | inl e ↦ (n % 10, after, omega arith, rw e)
  | inr e ↦
      let (d, rest, small, first) = decimal_digits-first k (n / 10) ((n % 10 + b'0') ∷ after) in
      (d, rest, small, rw e first)
]

-- Nothing is skipped in front of a digit.
sign-digit :
    (d : ℕ) (cs : List ℕ) → d < 10 → sign (skip_space ((d + b'0') ∷ cs)) ≡ (false, (d + b'0') ∷ cs)
unfolding sign skip_space
sign-digit d cs h = ground arith

sign-print_unsigned :
    (n : ℕ) (after : List ℕ)
    → sign (skip_space (decimal_digits 10 n after)) ≡ (false, decimal_digits 10 n after)
sign-print_unsigned n after =
    let (d, rest, small, first) = decimal_digits-first 9 n after in
    rw first (sign-digit d rest small)

-- No digit follows.
abbrev pub IsEnd : List ℕ → Type 0
IsEnd [] = Unit {0}
IsEnd (c ∷ cs) = digit c ≡ none

digits_value-IsEnd : (n : ℕ) (after : List ℕ) → IsEnd after → digits_value 10 digit n after ≡ n
unfolding digits_value
digits_value-IsEnd n [] e = refl
digits_value-IsEnd n (c ∷ cs) e = rw (e, digits_value) refl

-- A 32-bit number is read again as it was printed, whatever stands behind its digits that is no
-- digit.
strtoul10-decimal_digits :
    (n : ℕ) (after : List ℕ) → n < 2 ^ 32 → IsEnd after → strtoul10 (decimal_digits 10 n after) ≡ n
unfolding strtoul10
strtoul10-decimal_digits n after h e =
    let value =
      digits_value-decimal_digits 9 n after (omega arith) ∙ digits_value-IsEnd n after e in
    rw (sign-print_unsigned n after, value, ltb-eq_false (2 ^ 64 - 1) n (omega arith)) (omega arith)

strtol-decimal_digits :
    (n : ℕ) (after : List ℕ) → n < 2 ^ 32 → IsEnd after → strtol (decimal_digits 10 n after) ≡ n
unfolding strtol
strtol-decimal_digits n after h e =
    let value =
      digits_value-decimal_digits 9 n after (omega arith) ∙ digits_value-IsEnd n after e in
    rw (sign-print_unsigned n after, value, ltb-eq_false (2 ^ 63 - 1) n (omega arith)) (omega arith)

pub strtol-print_unsigned : (n : ℕ) → n < 2 ^ 32 → strtol (print_unsigned n) ≡ n
unfolding print_unsigned
strtol-print_unsigned n h = strtol-decimal_digits n [] h tt

pub strtoul10-print_unsigned : (n : ℕ) → n < 2 ^ 32 → strtoul10 (print_unsigned n) ≡ n
unfolding print_unsigned
strtoul10-print_unsigned n h = strtoul10-decimal_digits n [] h tt

strtol_minus : (n : ℕ) → n ≤ 2 ^ 31 → strtol (b'-' ∷ print_unsigned n) ≡ (2 ^ 64 - n) % 2 ^ 32
unfolding strtol sign skip_space print_unsigned
strtol_minus n h =
    let value = digits_value-decimal_digits 9 n [] (omega arith) in
    rw (value, digits_value, ltb-eq_false (2 ^ 63) n (omega arith)) refl

-- A 32-bit pattern is read again as `%d` has printed it.
pub strtol-print_int : (n : ℕ) → n < 2 ^ 32 → strtol (print_int n) ≡ n
unfolding print_int
strtol-print_int n h = elim (Bool-cases (ltb n (2 ^ 31))) [
  | inl e ↦ rw e (strtol-print_unsigned n h)
  | inr e ↦ rw e (strtol_minus (2 ^ 32 - n) (ground arith) ∙ ground arith)
]

-- Neither a 0 nor a space.
abbrev pub Plain : List ℕ → Type 0
Plain [] = Unit {0}
Plain (c ∷ cs) = ((c == 0) ≡ false) × ((c == b' ') ≡ false) × Plain cs

decimal_digits-Plain : (k n : ℕ) (after : List ℕ) → Plain after → Plain (decimal_digits k n after)
unfolding decimal_digits
decimal_digits-Plain zero n after p = p
decimal_digits-Plain (suc k) n after p =
    let p' : Plain ((n % 10 + b'0') ∷ after) = (ground arith, ground arith, p) in
    let rest = decimal_digits-Plain k (n / 10) ((n % 10 + b'0') ∷ after) p' in
    elim (Bool-cases (ltb n 10)) [ inl e ↦ rw e p' | inr e ↦ rw e rest ]

pub print_int-Plain : (n : ℕ) → Plain (print_int n)
unfolding print_int print_unsigned
print_int-Plain n = elim (Bool-cases (ltb n (2 ^ 31))) [
  | inl e ↦ rw e (decimal_digits-Plain 10 n [] tt)
  | inr e ↦ rw e (refl, refl, decimal_digits-Plain 10 (2 ^ 32 - n) [] tt)
]

-- A space in front is skipped.
pub strtoul10_space : (cs : List ℕ) → strtoul10 (b' ' ∷ cs) ≡ strtoul10 cs
unfolding strtoul10 skip_space
strtoul10_space cs = refl

-- A 32-bit number has ten digits at most.
length-decimal_digits :
    (k n : ℕ) (after : List ℕ) → length (decimal_digits k n after) ≤ k + length after
unfolding decimal_digits
length-decimal_digits zero n after = omega arith
length-decimal_digits (suc k) n after =
    let rest = length-decimal_digits k (n / 10) ((n % 10 + b'0') ∷ after) in
    elim (Bool-cases (ltb n 10)) [ inl e ↦ rw e (omega arith) | inr e ↦ rw e (omega (arith, rest)) ]

pub length-print_unsigned : (n : ℕ) → length (print_unsigned n) ≤ 10
unfolding print_unsigned
length-print_unsigned n = length-decimal_digits 10 n []

-- Behind a space and a missing sign stands a digit.
pub sign_space-print_unsigned :
    (n : ℕ)
    → (d : ℕ) × (rest : List ℕ) × (d < 10)
      × (sign (skip_space (b' ' ∷ print_unsigned n)) ≡ (false, (d + b'0') ∷ rest))
unfolding print_unsigned skip_space
sign_space-print_unsigned n =
    let (d, rest, small, first) = decimal_digits-first 9 n [] in
    (d, rest, small, sign-print_unsigned n [] ∙ ap (λ cs. (false, cs)) first)
