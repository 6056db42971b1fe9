-- ===== src/Examples/Dog.antt =====
-- A watchdog that starts a gate at `!`, which does not listen, and what a gate sends to it.
use myprogram.Prelude.{
  ℕ, ◌^◌, ◌-◌, ◌≡◌, refl, ap, Option, none, some, List, [], ◌∷◌, ◌++◌, arith, ok, fault,
  out_of_fuel, Run, ◌==◌, if◌then◌else◌, true, false,
}
use myprogram.CText.{ascii, strtol, skip_space, sign, digits_value}
use myprogram.Gate.{Gate, Action, send, text, closed, forwarded}
use myprogram.Gate.Socket.{report}
use myprogram.Gate.Service.{gate_create, gate_init}
use myprogram.Gate.Whole.{IsWhole}
use myprogram.Watchdog.{ptype_text, ptype_client, watchdog_poll, watchdog_init, sendline}
use myprogram.Watchdog.Polls.{sent_bytes, watchdog_poll-forwarded}
use myprogram.Watchdog.Launch.{watchdog_init-gate_init}
use myprogram.Examples.Socket.{skynet}
use myprogram.Examples.Whole.{fresh, two}

-- The service with the handle 9 starts if gate_init returns 0.
abbrev started : Run (Gate × List Action × ℕ) → Option ℕ
started (ok (g, acts, r)) = if r == 0 then some 9 else none
started fault = none
started out_of_fuel = none

abbrev launch : List ℕ → List ℕ → Option ℕ
launch name args = started (gate_init skynet gate_create two (some args))

two_connections : strtol two ≡ 2
unfolding strtol skip_space sign digits_value
two_connections = refl

watchdog_init-gate_init_example :
    (g : Gate) × (acts : List Action) × (r : ℕ) × (gate_init skynet gate_create two
        (some (sendline (ascii "!") 7))
      ≡ ok (g, acts, r))
    × IsWhole g
    × (g.watchdog ≡ 7)
    × (watchdog_init launch 7 (some (ascii "!"))
        ≡ ok (if r == 0 then (0, true) else (2 ^ 32 - 1, false)))
watchdog_init-gate_init_example =
    watchdog_init-gate_init skynet two (ascii "!") 7 9 launch (omega arith) (refl, refl, tt)
      (omega arith) (omega arith) (omega (arith, two_connections))
      (λ args g acts r run. ap started run)

watchdog_poll-forwarded_example :
    (watchdog_poll ptype_client
        (sent_bytes (forwarded fresh (record closed { id = 5 }) (1 ∷ 2 ∷ [])) ++ [])
      ≡ ok (some 5))
    × (bytes : List ℕ) × (report fresh (ascii "gate") ≡ send 0 7 text 0 bytes ∷ [])
    × (watchdog_poll ptype_text (bytes ++ []) ≡ ok (some 0))
watchdog_poll-forwarded_example =
    watchdog_poll-forwarded fresh (record closed { id = 5 }) (1 ∷ 2 ∷ []) (ascii "gate") [] refl
      refl (omega arith) (ground arith)
