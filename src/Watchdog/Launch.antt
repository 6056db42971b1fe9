-- ===== src/Watchdog/Launch.antt =====
-- The gate that watchdog_init starts (service_watchdog.cpp and service_gate.c).
use myprogram.Prelude.{
  ℕ, ◌-◌, ◌^◌, ◌≤◌, ◌<◌, ◌≡◌, refl, ap, ◌∙◌, inl, inr, true, false, Option, none, some, List, [],
  ◌∷◌, ◌++◌, arith, ◌==◌, if◌then◌else◌, ok, length, take, length-append, take_short,
  length-take_le, Bool-cases,
}
use myprogram.CText.{ascii, c_string, is_space, skip_space, sign, strtol, strtoul10, print_unsigned}
use myprogram.CText.Decimal.{
  strtoul10-print_unsigned, strtoul10_space, length-print_unsigned, sign_space-print_unsigned,
}
use myprogram.Gate.{Gate, Action, Skynet}
use myprogram.Gate.Service.{gate_create, gate_init, scan_word, starts_number}
use myprogram.Gate.Whole.{IsWhole}
use myprogram.Gate.Served.{InitArguments, gate_init-opened}
use myprogram.Watchdog.{watchdog_init, sendline}

starts_number-print_unsigned :
    (n : ℕ) → starts_number (sign (skip_space (b' ' ∷ print_unsigned n))).1 ≡ true
starts_number-print_unsigned n =
    let (d, rest, small, e) = sign_space-print_unsigned n in rw e (ground arith)

-- No white space, and no 0.
abbrev pub IsWord : List ℕ → Type 0
IsWord [] = Unit {0}
IsWord (c ∷ cs) = (is_space c ≡ false) × ((c == 0) ≡ false) × IsWord cs

c_string-IsWord : (w : List ℕ) → IsWord w → c_string w ≡ w
unfolding c_string
c_string-IsWord [] w = refl
c_string-IsWord (c ∷ cs) (_, no_end, w) = rw (no_end, c_string-IsWord cs w) refl

scan_word-IsWord : (w rest : List ℕ) → IsWord w → scan_word (w ++ b' ' ∷ rest) ≡ (w, b' ' ∷ rest)
unfolding scan_word
scan_word-IsWord [] rest w = refl
scan_word-IsWord (c ∷ cs) rest (no_space, _, w) = rw (no_space, scan_word-IsWord cs rest w) refl

skip_space-IsWord : (w rest : List ℕ) → 0 < length w → IsWord w → skip_space (w ++ rest) ≡ w ++ rest
unfolding skip_space
skip_space-IsWord [] rest some_word w = absurd (omega arith)
skip_space-IsWord (c ∷ cs) rest some_word (no_space, _, w) = rw no_space refl

sendline_whole :
    (parm : List ℕ) (handle : ℕ)
    → IsWord parm
    → length parm ≤ 88
    → sendline parm handle ≡ parm ++ b' ' ∷ print_unsigned handle
sendline_whole parm handle w short =
    let line = parm ++ b' ' ∷ print_unsigned handle in
    let size = length-append parm (b' ' ∷ print_unsigned handle) in
    let digits = length-print_unsigned handle in
    ap (λ p. take 99 (p ++ b' ' ∷ print_unsigned handle)) (c_string-IsWord parm w)
    ∙ take_short 99 line (omega (arith, size, digits))

sendline-scan_word :
    (parm : List ℕ) (handle : ℕ)
    → 0 < length parm
    → IsWord parm
    → length parm ≤ 88
    → scan_word (skip_space (sendline parm handle)) ≡ (parm, b' ' ∷ print_unsigned handle)
sendline-scan_word parm handle some_word w short =
    ap (λ line. scan_word (skip_space line)) (sendline_whole parm handle w short)
    ∙ ap scan_word (skip_space-IsWord parm (b' ' ∷ print_unsigned handle) some_word w)
    ∙ scan_word-IsWord parm (print_unsigned handle) w

-- The text of watchdog_init has what gate_init needs.
sendline-InitArguments :
    (max_online parm : List ℕ) (handle : ℕ)
    → 0 < length parm
    → IsWord parm
    → length parm ≤ 88
    → strtol max_online ≤ 2 ^ 30
    → InitArguments max_online (sendline parm handle)
sendline-InitArguments max_online parm handle some_word w short small =
    let scanned = sendline-scan_word parm handle some_word w short in
    (
      rw scanned some_word,
      rw scanned (starts_number-print_unsigned handle),
      omega (arith, length-take_le 99 (c_string parm ++ b' ' ∷ print_unsigned handle)),
      small,
    )

-- watchdog_init with a word of at most 88 bytes, the address or `!`, and at most 2 ^ 30 connections,
-- where skynet_context_new starts a gate exactly if gate_init returns 0: gate_init returns, with a
-- gate that is whole and whose watchdog is the handle of the service that starts it; watchdog_init
-- returns 0 and sets its callback exactly if gate_init has returned 0, and else returns -1.
pub watchdog_init-gate_init :
    (sk : Skynet) (max_online parm : List ℕ) (handle gate : ℕ)
    (context_new : List ℕ → List ℕ → Option ℕ)
    → 0 < length parm
    → IsWord parm
    → length parm ≤ 88
    → handle < 2 ^ 32
    → strtol max_online ≤ 2 ^ 30
    → ((args : List ℕ) (g : Gate) (acts : List Action) (r : ℕ)
        → gate_init sk gate_create max_online (some args) ≡ ok (g, acts, r)
        → context_new (ascii "gate") args ≡ (if r == 0 then some gate else none))
    → (g : Gate) × (acts : List Action) × (r : ℕ) × (gate_init sk gate_create max_online
          (some (sendline parm handle))
        ≡ ok (g, acts, r))
      × IsWhole g
      × (g.watchdog ≡ handle)
      × (watchdog_init context_new handle (some parm)
          ≡ ok (if r == 0 then (0, true) else (2 ^ 32 - 1, false)))
unfolding watchdog_init
watchdog_init-gate_init sk max_online parm handle gate context_new some_word w short handle_32 small
      starts =
    let args = sendline-InitArguments max_online parm handle some_word w short small in
    let (g, acts, r, run, whole, dog) =
      gate_init-opened sk max_online (sendline parm handle) args in
    let scanned =
      ap (λ (pair : List ℕ × List ℕ). pair.1) (sendline-scan_word parm handle some_word w short) in
    let answer = starts (sendline parm handle) g acts r run in
    (
      g,
      acts,
      r,
      run,
      whole,
      dog
          ∙ ap strtoul10 scanned
          ∙ strtoul10_space (print_unsigned handle)
          ∙ strtoul10-print_unsigned handle handle_32,
      elim (Bool-cases (r == 0)) [
        | inl e ↦ rw (answer, e, watchdog_init) refl
        | inr e ↦ rw (answer, e, watchdog_init) refl
      ],
    )
