-- ===== src/Epoll/Line.antt =====
-- The array `line` of epoll_test/server.cpp, and what becomes of what a socket has sent.
use myprogram.Prelude.{
  ℕ, zero, suc, ◌≤◌, ◌<◌, ◌≡◌, refl, sym, ap, ◌∙◌, inl, inr, Bool, true, false, ◌&&◌, ◌||◌, Option,
  none, some, List, [], ◌∷◌, ◌++◌, arith, leb, ltb, ◌==◌, if◌then◌else◌, Run, ok, fault, ◌>>=◌,
  length, length-append, drop, length-drop, has, Bool-cases, ==-cases, ==_ne,
}
use myprogram.CText.{c_string}
use myprogram.Epoll.{
  Kernel, Server, printed, read, closed, fill_line, put_newline, line_text, print_line, on_answer,
  on_readable,
}

-- The last byte is 0.
abbrev pub Ends : List ℕ → Type 0
Ends [] = ⊥
Ends (c ∷ []) = c ≡ 0
Ends (c ∷ d ∷ cs) = Ends (d ∷ cs)

abbrev pub IsLine : List ℕ → Type 0
IsLine line = (length line ≡ 250) × Ends line

Ends-cons : (c : ℕ) (cs : List ℕ) → Ends cs → Ends (c ∷ cs)
Ends-cons c [] e = absurd e
Ends-cons c (d ∷ cs) e = e

Ends-append : (xs ys : List ℕ) → Ends ys → Ends (xs ++ ys)
Ends-append [] ys e = e
Ends-append (x ∷ xs) ys e = Ends-cons x (xs ++ ys) (Ends-append xs ys e)

Ends-drop : (n : ℕ) (xs : List ℕ) → n < length xs → Ends xs → Ends (drop n xs)
Ends-drop zero xs h e = e
Ends-drop (suc n) [] h e = absurd (omega arith)
Ends-drop (suc n) (x ∷ []) h e = absurd (omega arith)
Ends-drop (suc n) (x ∷ y ∷ xs) h e = Ends-drop n (y ∷ xs) (omega arith) e

has-Ends : (xs : List ℕ) → Ends xs → has 0 xs ≡ true
has-Ends [] e = absurd e
has-Ends (c ∷ []) e = ground (arith, e)
has-Ends (c ∷ d ∷ cs) e = ground (arith, has-Ends (d ∷ cs) e)

-- Text is read up to its first 0, and past the array if there is none.
line_text-has : (xs : List ℕ) → line_text xs ≡ (if has 0 xs then ok (c_string xs) else fault)
unfolding line_text c_string
line_text-has [] = refl
line_text-has (c ∷ cs) = elim (==-cases 0 c) [
  | inl e ↦ rw (← e) refl
  | inr ne ↦
      let zero_first = ==_ne 0 c ne in
      let zero_last = ==_ne c 0 (λ e. ne (sym e)) in
      elim (Bool-cases (has 0 cs)) [
        | inl there ↦ rw (zero_first, zero_last, line_text-has cs, there) refl
        | inr missing ↦ rw (zero_first, zero_last, line_text-has cs, missing) refl
      ]
]

drop-cons : (n : ℕ) (xs : List ℕ) → n < length xs → (d : ℕ) × (drop n xs ≡ d ∷ drop (suc n) xs)
drop-cons n [] h = absurd (omega arith)
drop-cons zero (x ∷ xs) h = (x, refl)
drop-cons (suc n) (x ∷ xs) h = drop-cons n xs (omega arith)

put_newline-append :
    (xs : List ℕ) (d : ℕ) (ys : List ℕ)
    → put_newline (xs ++ d ∷ ys) (some (length xs)) ≡ ok (xs ++ 10 ∷ ys)
unfolding put_newline
put_newline-append [] d ys = refl
put_newline-append (x ∷ xs) d ys = rw (put_newline-append xs d ys) refl

put_newline-past : (xs : List ℕ) (n : ℕ) → length xs ≤ n → put_newline xs (some n) ≡ fault
unfolding put_newline
put_newline-past [] n h = refl
put_newline-past (x ∷ xs) zero h = absurd (omega arith)
put_newline-past (x ∷ xs) (suc n) h = rw (put_newline-past xs n (omega arith)) refl

-- The array behind a short answer.
abbrev pub overwritten : List ℕ → List ℕ → List ℕ
overwritten bytes line = bytes ++ 10 ∷ drop (suc (length bytes)) line

filled :
    (bytes line : List ℕ)
    → length bytes < length line
    → (full : List ℕ) × (fill_line line bytes ≡ ok full)
      × (put_newline full (some (length bytes)) ≡ ok (overwritten bytes line))
unfolding fill_line
filled bytes line h =
    let (d, e) = drop-cons (length bytes) line h in
    (
      bytes ++ drop (length bytes) line,
      ground arith,
      ap (λ ys. put_newline (bytes ++ ys) (some (length bytes))) e
          ∙ put_newline-append bytes d (drop (suc (length bytes)) line),
    )

-- The socket is closed if nothing came.
abbrev pub closing : Server → ℕ → List ℕ → Server
closing s fd [] = record s { calls = closed fd ∷ s.calls }
closing s fd (c ∷ cs) = s

answered :
    (k : Kernel) (s : Server) (fd : ℕ) (bytes : List ℕ)
    → on_answer k s fd (some bytes) ≡ (
        fill_line s.line bytes >>= λ line.
        print_line (closing s fd bytes) line (some (length bytes)))
unfolding on_answer fill_line
answered k s fd [] = let room : leb 0 (length s.line) ≡ true = ground arith in rw room refl
answered k s fd (c ∷ cs) = refl

-- What is not too long for the array.
abbrev pub fits : List ℕ → Bool
fits bytes = leb (length bytes) 248 || ((length bytes == 249) && has 0 bytes)

abbrev pub shown : Server → ℕ → List ℕ → Server
shown s fd bytes =
    let line' = overwritten bytes s.line in
    let s' = closing s fd bytes in
    record s' { line = line'; calls = printed (c_string line') ∷ s'.calls }

-- What the loop makes of an answer of `read`.
abbrev pub outcome : Server → ℕ → Option (List ℕ) → Run Server
outcome s fd none = fault
outcome s fd (some bytes) = if fits bytes then ok (shown s fd bytes) else fault

drop-past : (n : ℕ) (xs : List ℕ) → length xs ≤ n → drop n xs ≡ []
drop-past zero [] h = refl
drop-past zero (x ∷ xs) h = absurd (omega arith)
drop-past (suc n) [] h = refl
drop-past (suc n) (x ∷ xs) h = drop-past n xs (omega arith)

has_behind : (xs : List ℕ) → has 0 (xs ++ 10 ∷ []) ≡ has 0 xs
has_behind [] = refl
has_behind (x ∷ xs) = ap (λ b. (0 == x) || b) (has_behind xs)

has-overwritten :
    (bytes line : List ℕ)
    → IsLine line
    → length bytes < 250
    → has 0 (overwritten bytes line) ≡ fits bytes
has-overwritten bytes line (size, ends) short = elim (Bool-cases (leb (length bytes) 248)) [
  | inl e ↦
      let rest = Ends-drop (suc (length bytes)) line (ground (arith, size)) ends in
      let tail = drop (suc (length bytes)) line in
      let there : has 0 (overwritten bytes line) ≡ true =
        has-Ends (overwritten bytes line)
          (Ends-append bytes (10 ∷ tail) (Ends-cons 10 tail rest)) in
      rw (there, e) refl
  | inr e ↦
      let full : length bytes ≡ 249 = ground arith in
      let same : (length bytes == 249) ≡ true = ground arith in
      let nothing : drop (suc (length bytes)) line ≡ [] =
        drop-past (suc (length bytes)) line (omega (arith, size, full)) in
      rw (nothing, e, same) (has_behind bytes)
]

answered-short :
    (s : Server) (bytes : List ℕ) (s1 : Server)
    → IsLine s.line
    → length bytes < 250
    → (fill_line s.line bytes >>= λ line. print_line s1 line (some (length bytes))) ≡ (
        if fits bytes
        then ok (record s1 {
          line = overwritten bytes s.line;
          calls = printed (c_string (overwritten bytes s.line)) ∷ s1.calls;
        })
        else fault)
unfolding print_line
answered-short s bytes s1 v short =
    let (full, e, f) = filled bytes s.line (omega (arith, v.0)) in
    let text = line_text-has (overwritten bytes s.line) in
    let there = has-overwritten bytes s.line v short in
    elim (Bool-cases (fits bytes)) [
      | inl yes_fits ↦ rw (e, f, text, there, yes_fits, print_line) refl
      | inr no_fit ↦ rw (e, f, text, there, no_fit, print_line) refl
    ]

answered-long :
    (s : Server) (bytes : List ℕ) (s1 : Server)
    → length s.line ≡ 250
    → 250 ≤ length bytes
    → (fill_line s.line bytes >>= λ line. print_line s1 line (some (length bytes))) ≡ fault
unfolding print_line fill_line
answered-long s bytes s1 size long = elim (Bool-cases (leb (length bytes) (length s.line))) [
  | inl e ↦
      let full = bytes ++ drop (length bytes) s.line in
      let past : length full ≤ length bytes = omega (
        arith,
        size,
        length-append bytes (drop (length bytes) s.line),
        length-drop (length bytes) s.line,
      ) in
      rw (e, put_newline-past full (length bytes) past, print_line) refl
  | inr e ↦ rw e refl
]

on_answer-outcome :
    (k : Kernel) (s : Server) (fd : ℕ) (answer : Option (List ℕ))
    → IsLine s.line
    → on_answer k s fd answer ≡ outcome s fd answer
unfolding on_answer print_line put_newline
on_answer-outcome k s fd none v = refl
on_answer-outcome k s fd (some bytes) v = elim (Bool-cases (ltb (length bytes) 250)) [
  | inl e ↦ answered k s fd bytes ∙ answered-short s bytes (closing s fd bytes) v (ground arith)
  | inr e ↦
      let too_long : fits bytes ≡ false = ground arith in
      rw too_long
        (answered k s fd bytes ∙ answered-long s bytes (closing s fd bytes) v.0 (ground arith))
]

-- A socket with data to read, while `line` ends with a 0: if `read` fails, or gives 250 bytes, or
-- 249 without a 0 among them, the code goes outside of the array. Else it prints what was read up
-- to a 0; without one, what was read, a newline, and what an earlier message has left behind that
-- in the array. A socket from which nothing came is closed.
pub on_readable-outcome :
    (k : Kernel) (s : Server) (fd : ℕ)
    → IsLine s.line
    → on_readable k s fd ≡ outcome (record s { calls = read fd ∷ s.calls }) fd (k.read s.calls fd)
unfolding on_readable
on_readable-outcome k s fd v =
    let s' = record s { calls = read fd ∷ s.calls } in
    on_answer-outcome k s' fd (k.read s.calls fd) v

pub overwritten-IsLine :
    (bytes line : List ℕ) → IsLine line → length bytes ≤ 248 → IsLine (overwritten bytes line)
overwritten-IsLine bytes line (size, ends) short =
    let tail = drop (suc (length bytes)) line in
    (
      omega (arith, size, length-append bytes (10 ∷ tail), length-drop (suc (length bytes)) line),
      Ends-append bytes (10 ∷ tail)
          (Ends-cons 10 tail (Ends-drop (suc (length bytes)) line (omega (arith, size)) ends)),
    )
