-- ===== src/Log/Logged.antt =====
-- What `error` of lua_test/testglog/log.cpp logs, and its memory.
use myprogram.Prelude.{
  ℕ, zero, suc, ◌+◌, ◌-◌, ◌*◌, ◌^◌, ◌≤◌, ◌<◌, ◌≡◌, refl, inl, inr, Bool, true, none, some, List, [],
  ◌∷◌, arith, ltb, ◌==◌, if◌then◌else◌, lt→ltb, ok, length, take_short, Bool-cases,
}
use myprogram.CText.{c_string}
use myprogram.Log.{
  grow, skynet_strdup, keep_string, rounds, format_message, join, log_string, lerror,
}

-- malloc has memory for each size of an int.
abbrev pub HasMemory : (ℕ → Bool) → Type 0
HasMemory memory = (n : ℕ) → n < 2 ^ 31 → memory n ≡ true

-- The size after so many doublings.
abbrev doubled : ℕ → ℕ → ℕ
doubled zero size = size
doubled (suc k) size = doubled k (size * 2)

grow-whole :
    (k : ℕ) (memory : ℕ → Bool) (size : ℕ) (text : List ℕ) (blocks : ℕ)
    → HasMemory memory
    → length text < 2 ^ 30
    → size ≤ length text
    → length text < doubled k size
    → grow k memory size (some text) blocks ≡ ok (some (length text), text, blocks + 1)
unfolding grow
grow-whole zero memory size text blocks room short low high = absurd (omega arith)
grow-whole (suc k) memory size text blocks room short low high =
    let in_int = lt→ltb (size * 2) (2 ^ 31) (omega arith) in
    let given = room (size * 2) (omega arith) in
    elim (Bool-cases (ltb (length text) (size * 2))) [
      | inl enough ↦ rw (in_int, given, enough, take_short (size * 2 - 1) text (ground arith)) refl
      | inr more ↦
          rw (in_int, given, more)
            (grow-whole k memory (size * 2) text blocks room short (ground arith) high)
    ]

grow-failed :
    (k : ℕ) (memory : ℕ → Bool) (size blocks : ℕ)
    → HasMemory memory
    → size < 2 ^ 30
    → grow (suc k) memory size none blocks ≡ ok (none, [], blocks + 1)
unfolding grow
grow-failed k memory size blocks room small =
    rw (lt→ltb (size * 2) (2 ^ 31) (omega arith), room (size * 2) (omega arith)) refl

-- format_message of a text without a 0 ends. It gives the whole text in one block, or false and no
-- block if vsnprintf fails.
pub format_message-whole :
    (memory : ℕ → Bool) (text : List ℕ) (blocks : ℕ)
    → HasMemory memory
    → length text < 2 ^ 30
    → c_string text ≡ text
    → (format_message memory (some text) blocks ≡ ok (some text, blocks + 1))
      × (format_message memory none blocks ≡ ok (none, blocks))
unfolding format_message skynet_strdup keep_string
format_message-whole memory text blocks room short no_end =
    let failed = grow-failed 21 memory 256 blocks room (omega arith) in
    let none_left : blocks + 1 - 1 ≡ blocks = omega arith in
    (
      elim (Bool-cases (ltb (length text) 256)) [
        | inl fits ↦
            let given = room (length text + 1) (omega arith) in rw (fits, no_end, given) refl
        | inr long ↦
            let grown =
              grow-whole rounds memory 256 text blocks room short (ground arith) (omega arith) in
            rw (long, grown, format_message) refl
      ],
      rw (failed, none_left, format_message) refl,
    )

c_string_twice : (xs : List ℕ) → c_string (c_string xs) ≡ c_string xs
unfolding c_string
c_string_twice [] = refl
c_string_twice (c ∷ cs) = elim (Bool-cases (c == 0)) [
  | inl e ↦ rw e refl
  | inr e ↦ rw (e, e, c_string_twice cs) refl
]

-- `error` of Lua arguments whose strings, with spaces between them, have less than 2 ^ 30 bytes up
-- to the first 0: it ends, logs exactly these bytes, or nothing without arguments or if vsnprintf
-- fails, and leaves no block of memory behind.
pub lerror-logged :
    (memory : ℕ → Bool) (fails : Bool) (arg : List ℕ) (args : List (List ℕ)) (blocks : ℕ)
    → HasMemory memory
    → length (c_string (join (arg ∷ args))) < 2 ^ 30
    → (lerror memory fails (arg ∷ args) blocks
        ≡ ok ((if fails then none else some (c_string (join (arg ∷ args)))), blocks))
      × (lerror memory fails [] blocks ≡ ok (none, blocks))
unfolding lerror log_string
lerror-logged memory fails arg args blocks room short =
    let (whole, failed) =
      format_message-whole memory (c_string (join (arg ∷ args))) blocks room short
        (c_string_twice (join (arg ∷ args))) in
    let none_left : blocks + 1 - 1 ≡ blocks = omega arith in
    elim (Bool-cases fails) [
      | inl e ↦ rw (e, failed, lerror) (refl, refl)
      | inr e ↦ rw (e, whole, none_left, lerror) (refl, refl)
    ]
