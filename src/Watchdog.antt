-- ===== src/Watchdog.antt =====
-- skynet_test/skynet/mytest/service_test/cpp: the watchdog, a service that starts a gate and has the
-- gate's reports and packets sent to it (Watchdog.cpp and service_watchdog.cpp). What its log and
-- printf say is left out, but for the number that watchdog_poll reads, which is its result.
pub mod Polls
pub mod Launch
use myprogram.Prelude.{
  ℕ, ◌-◌, ◌^◌, Bool, true, false, Option, none, some, List, [], ◌∷◌, ◌++◌, ◌==◌, if◌then◌else◌, Run,
  ok, fault, ◌>>=◌, take,
}
use myprogram.CText.{ascii, c_string, strtol, print_unsigned}

-- The types of a message of skynet.
pub data MessageType : Type 0 where
  ptype_text ptype_client ptype_response ptype_other : MessageType

-- `strsep(&c, " ")` of the memory from `c` on: the word in front of a space or of the 0 that ends
-- the string.
unfoldable pub first_word : List ℕ → Run (List ℕ)
first_word [] = fault
first_word (c ∷ cs) =
    let rest = (do word ← first_word cs; ok (c ∷ word)) in
    if c == 0 then ok [] else (if c == b' ' then ok [] else rest)

-- watchdog_poll: the number that it prints, if any.
unfoldable pub watchdog_poll : MessageType → List ℕ → Run (Option ℕ)
unfolding first_word
watchdog_poll ptype_text memory = do word ← first_word memory; ok (some (strtol word))
watchdog_poll ptype_client memory = do word ← first_word memory; ok (some (strtol word))
watchdog_poll ptype_response memory = ok none
watchdog_poll ptype_other memory = ok none

-- `sendline`: at most 99 bytes are kept.
abbrev pub sendline : List ℕ → ℕ → List ℕ
sendline parm handle = take 99 (c_string parm ++ b' ' ∷ print_unsigned handle)

-- service_init
abbrev pub service_init : List ℕ → Bool
service_init parm = true

-- watchdog_init: its result, and whether the callback is set. `handle` is the watchdog's own, and
-- `context_new` what skynet_context_new gives for a service's name and its text: the handle of the
-- new service, if it starts.
unfoldable pub watchdog_init : (List ℕ → List ℕ → Option ℕ) → ℕ → Option (List ℕ) → Run (ℕ × Bool)
watchdog_init context_new handle none = fault
watchdog_init context_new handle (some parm) =
    elim (context_new (ascii "gate") (sendline parm handle)) [
      | none ↦ ok (2 ^ 32 - 1, false)
      | some gate ↦
          if service_init (print_unsigned gate) then ok (0, true) else ok (2 ^ 32 - 1, false)
    ]
