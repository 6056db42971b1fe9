-- ===== src/Examples/Epoll.antt =====
-- The server of epoll_test/server.cpp: a connection, and two messages, the second shorter.
use myprogram.Prelude.{
  ℕ, ◌≡◌, refl, true, false, some, [], ◌∷◌, arith, ltb, if◌then◌else◌, ok, length, Bool-cases, inl,
  inr,
}
use myprogram.CText.{ascii}
use myprogram.Epoll.{Kernel, Event, Server, read, start, set_up, on_readable, serve}
use myprogram.Epoll.Line.{IsLine, outcome, on_readable-outcome}
use myprogram.Epoll.Rounds.{ReadsShort, serve-IsLine, start-IsLine}

abbrev kernel : Kernel
kernel = record {
  accept = λ calls. 5;
  read = λ calls fd. some (if ltb (length calls) 4 then ascii "hello" else ascii "hi");
  is_reset = λ calls. false;
}

kernel-ReadsShort : ReadsShort kernel
kernel-ReadsShort calls fd = elim (Bool-cases (ltb (length calls) 4)) [
  | inl e ↦ (ascii "hello", rw e refl, omega arith)
  | inr e ↦ (ascii "hi", rw e refl, omega arith)
]

abbrev comes : ℕ → Event
comes fd = record { fd = fd; epollin = true }

serve-IsLine_example :
    (s : Server) × (serve kernel (start 3) ((comes 3 ∷ []) ∷ (comes 5 ∷ comes 5 ∷ []) ∷ []) ≡ ok s)
    × IsLine s.line
unfolding set_up
serve-IsLine_example =
    serve-IsLine kernel 3 true true (start 3) ((comes 3 ∷ []) ∷ (comes 5 ∷ comes 5 ∷ []) ∷ [])
      kernel-ReadsShort refl

on_readable-outcome_example :
    on_readable kernel (start 3) 5
    ≡ outcome
        (record (start 3) { calls = read 5 ∷ (start 3).calls })
        5
        (kernel.read (start 3).calls 5)
on_readable-outcome_example = on_readable-outcome kernel (start 3) 5 (start-IsLine 3)
