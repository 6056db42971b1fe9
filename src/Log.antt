-- ===== src/Log.antt =====
-- lua_test/testglog/log.cpp: format_message, whose buffer grows until a message fits, and the
-- function `error` of the Lua module. What Lua's strings of the arguments are, whether vsnprintf
-- fails and whether malloc has memory are arguments.
pub mod Logged
use myprogram.Prelude.{
  ℕ, zero, suc, ◌+◌, ◌-◌, ◌*◌, ◌^◌, Bool, true, false, Option, none, some, List, [], ◌∷◌, ◌++◌, ltb,
  if◌then◌else◌, Run, ok, fault, out_of_fuel, ◌>>=◌, ◌>>◌, assert, length, take,
}
use myprogram.CText.{c_string}

abbrev pub log_message_size : ℕ
log_message_size = 256

-- `vsnprintf(buffer, n, …)` of a format that gives `text`: the length of the text, and the string in
-- the buffer. It fails with a negative number, here none.
abbrev pub vsnprintf : ℕ → Option (List ℕ) → Option ℕ × List ℕ
vsnprintf n none = (none, [])
vsnprintf n (some text) = (some (length text), take (n - 1) text)

-- `len < size` of an int.
abbrev pub is_below : Option ℕ → ℕ → Bool
is_below none size = true
is_below (some len) size = ltb len size

-- The loop of format_message: the length and the string of the last vsnprintf, and the number of
-- blocks of memory that are not freed. A size above an int, or a block that malloc does not give,
-- has no behaviour.
unfoldable pub grow : ℕ → (ℕ → Bool) → ℕ → Option (List ℕ) → ℕ → Run (Option ℕ × List ℕ × ℕ)
grow zero memory max_size text blocks = out_of_fuel
grow (suc k) memory max_size text blocks = do
  let size = max_size * 2
  assert (ltb size (2 ^ 31))
  assert (memory size)
  let (len, string) = vsnprintf size text
  let again = grow k memory size text blocks
  if is_below len size then ok (len, string, blocks + 1) else again

-- skynet_strdup
unfoldable pub skynet_strdup : (ℕ → Bool) → List ℕ → ℕ → Run (List ℕ × ℕ)
skynet_strdup memory string blocks = do
  let kept = c_string string
  assert (memory (length kept + 1))
  ok (kept, blocks + 1)

-- The end of format_message: the buffer is freed if vsnprintf has failed.
unfoldable pub keep_string : Option ℕ → List ℕ → ℕ → Option (List ℕ) × ℕ
keep_string none string blocks = (none, blocks - 1)
keep_string (some len) string blocks = (some string, blocks)

-- The loop doubles 256 until it is above the length: 22 times are enough for a length below 2 ^ 30,
-- and a greater one makes the size overflow.
abbrev pub rounds : ℕ
rounds = 22

-- format_message: the string, if it returns true, and the number of blocks.
unfoldable pub format_message : (ℕ → Bool) → Option (List ℕ) → ℕ → Run (Option (List ℕ) × ℕ)
format_message memory none blocks = do
  (len, string, blocks') ← grow rounds memory log_message_size none blocks
  ok (keep_string len string blocks')
format_message memory (some text) blocks =
    let short = (do
      (string, blocks') ← skynet_strdup memory text blocks
      ok (keep_string (some (length text)) string blocks')) in
    let long = (do
      (len, string, blocks') ← grow rounds memory log_message_size (some text) blocks
      ok (keep_string len string blocks')) in
    if ltb (length text) log_message_size then short else long

-- The arguments with spaces between them.
unfoldable pub join : List (List ℕ) → List ℕ
join [] = []
join (arg ∷ []) = arg
join (arg ∷ arg' ∷ args) = arg ++ b' ' ∷ join (arg' ∷ args)

-- The message is logged and freed.
unfoldable pub log_string : Option (List ℕ) → ℕ → Option (List ℕ) × ℕ
log_string none blocks = (none, blocks)
log_string (some string) blocks = (some string, blocks - 1)

-- lerror: what is logged, and the number of blocks. `fails` is whether vsnprintf fails.
unfoldable pub lerror : (ℕ → Bool) → Bool → List (List ℕ) → ℕ → Run (Option (List ℕ) × ℕ)
lerror memory fails [] blocks = ok (none, blocks)
lerror memory fails (arg ∷ args) blocks = do
  let text = c_string (join (arg ∷ args))
  (string, blocks') ← format_message memory (if fails then none else some text) blocks
  ok (log_string string blocks')
