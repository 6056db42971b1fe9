-- ===== src/Gate/Texts.antt =====
-- _ctrl of service_gate.c on a gate that is whole.
use myprogram.Prelude.{
  ℕ, zero, suc, ◌+◌, ◌^◌, ◌<◌, ◌≤◌, ◌≡◌, ◌≢◌, refl, inl, inr, none, Bool, true, false, List, [],
  ◌∷◌, ◌++◌, arith, ◌==◌, if◌then◌else◌, Run, ok, length, ==_ne, Bool-cases, ◌>>=◌, drop, leb,
  lt→ltb,
}
use myprogram.HashId.{lookup, full}
use myprogram.CText.{memcmp_eq, c_string, strtol}
use myprogram.Gate.{Gate, Skynet, Action}
use myprogram.Gate.Control.{
  parm, word_length, ctrl, kick_word, forward_word, broker_word, start_word, close_word,
  connect_word, listen_word, connect,
}
use myprogram.Gate.Whole.{IsWhole}
use myprogram.Gate.Connecting.{ip_of, port_of, owned, connect-owned}
use myprogram.Gate.Serve.{Serves, unchanged}
use myprogram.Gate.Commands.{
  kick-Serves, set_forward-Serves, start-Serves, close-Serves, listen-Serves, broker-GateInv,
}

abbrev pub NoNul : List ℕ → Type 0
NoNul [] = Unit {0}
NoNul (c ∷ cs) = (c ≢ 0) × NoNul cs

-- A 0 at the end.
abbrev Terminated : List ℕ → Type 0
Terminated [] = ⊥
Terminated (c ∷ []) = c ≡ 0
Terminated (c ∷ d ∷ cs) = Terminated (d ∷ cs)

-- memcmp of a text without a 0 stops inside a text that ends with one.
memcmp_eq-ok :
    (n : ℕ) (a b : List ℕ)
    → n ≤ length a
    → NoNul a
    → Terminated b
    → (r : Bool) × (memcmp_eq n (a ++ 0 ∷ []) b ≡ ok r)
unfolding memcmp_eq
memcmp_eq-ok zero a b le nonul end = (true, refl)
memcmp_eq-ok (suc n) [] b le nonul end = absurd (omega arith)
memcmp_eq-ok (suc n) (x ∷ a) [] le nonul end = absurd end
memcmp_eq-ok (suc n) (x ∷ a) (y ∷ []) le (nz, nonul) end =
    let apart : (x == y) ≡ false = ==_ne x y (λ e. nz (cc (e, end))) in (false, rw apart refl)
memcmp_eq-ok (suc n) (x ∷ a) (y ∷ z ∷ b) le (nz, nonul) end =
    let (r, rest) = memcmp_eq-ok n a (z ∷ b) (omega arith) nonul end in
    elim (Bool-cases (x == y)) [ inl e ↦ (r, rw (e, rest) refl) | inr e ↦ (false, rw e refl) ]

word_length-le : (msg : List ℕ) → word_length msg ≤ length msg
unfolding word_length
word_length-le [] = omega arith
word_length-le (c ∷ cs) = ground (arith, word_length-le cs)

-- The text behind the command `connect`.
abbrev pub behind_word : List ℕ → List ℕ
behind_word msg = drop (suc (word_length msg)) (msg ++ 0 ∷ [])

-- There is a blank behind `connect`, the ip and the port fit into their arrays, and skynet gives a
-- new socket that is a small number if the table has room.
abbrev pub AdmitsConnect : Skynet → Gate → List ℕ → Type 0
AdmitsConnect sk g msg =
    let p = behind_word msg in
    let fd = sk.connect (ip_of p) (strtol (port_of p)) in
    (suc (word_length msg) ≤ length msg)
    × (length (ip_of p) < 100)
    × (length (port_of p) < 50)
    × (full g.hash ≡ false → (lookup g.hash fd ≡ ok none) × (g.hash.cap + fd ≤ 2 ^ 31))

-- A text without a 0 byte; if its first word is taken for `connect`, with what that needs. A word of
-- one letter or none is taken for a command in front of `connect`.
abbrev pub AdmitsText : Skynet → Gate → List ℕ → Type 0
AdmitsText sk g msg =
    NoNul msg
    × (memcmp_eq (word_length msg) (msg ++ 0 ∷ []) close_word ≡ ok false
        → memcmp_eq (word_length msg) (msg ++ 0 ∷ []) connect_word ≡ ok true
        → AdmitsConnect sk g msg)

branch :
    {test : Run Bool} {yes no : Run (Gate × List Action)}
    → ((b : Bool) × (test ≡ ok b))
    → (test ≡ ok true → Serves yes)
    → (test ≡ ok false → Serves no)
    → Serves (test >>= λ b. if b then yes else no)
branch (true, e) y n = rw e (y e)
branch (false, e) y n = rw e (n e)

last_branch :
    {test : Run Bool} {yes no : Gate × List Action}
    → ((b : Bool) × (test ≡ ok b))
    → Serves (ok yes)
    → Serves (ok no)
    → Serves (test >>= λ b. ok (if b then yes else no))
last_branch (true, e) y n = rw e y
last_branch (false, e) y n = rw e n

-- The command `connect` with what it needs.
connect-Serves :
    (sk : Skynet) (g : Gate) (msg : List ℕ) (source : ℕ)
    → IsWhole g
    → AdmitsConnect sk g msg
    → Serves (connect sk g source (behind_word msg))
unfolding connect
connect-Serves sk g msg source whole (_, ip_short, port_short, new) =
    let p = behind_word msg in
    let fd = sk.connect (ip_of p) (strtol (port_of p)) in
    elim (Bool-cases (full g.hash)) [
      | inl e ↦ (
        g,
        [],
        rw
            (
              lt→ltb (length (ip_of p)) 100 ip_short,
              lt→ltb (length (port_of p)) 50 port_short,
              e,
              connect,
            )
            refl,
        whole,
      )
      | inr room ↦
          let (absent, small) = new room in
          let (t', s, run, whole', known) =
            connect-owned sk g source fd p whole room ip_short port_short refl absent small in
          (owned g t' s source, _, run, whole')
    ]

-- A text with what it needs, to a gate that is whole: _ctrl ends without a fault, and the gate is
-- whole again.
pub ctrl-IsWhole :
    (sk : Skynet) (g : Gate) (msg : List ℕ) (source : ℕ)
    → IsWhole g
    → AdmitsText sk g msg
    → Serves (ctrl sk g msg source)
unfolding ctrl
ctrl-IsWhole sk g [] source (chain, xs, fs, v) a = unchanged v [] (ctrl sk g [] source) refl
ctrl-IsWhole sk g (c ∷ cs) source (chain, xs, fs, v) (nonul, needs) =
    let msg = c ∷ cs in
    let command = parm (msg ++ 0 ∷ []) (length msg) (word_length msg) in
    let test = λ (w : List ℕ) (end : Terminated w).
      memcmp_eq-ok (word_length msg) msg w (word_length-le msg) nonul end in
    let filled : (length msg == 0) ≡ false = ground arith in
    rw filled (
      branch (test kick_word refl) (λ _. kick-Serves v command)
        (λ _.
          branch (test forward_word refl) (λ _. set_forward-Serves v command)
            (λ _.
              branch (test broker_word refl)
                (λ _. (
                  _,
                  [],
                  refl,
                  (chain, xs, fs, broker-GateInv v (sk.queryname (c_string command))),
                ))
                (λ _.
                  branch (test start_word refl) (λ _. start-Serves v command)
                    (λ _.
                      branch (test close_word refl) (λ _. close-Serves v)
                        (λ not_close.
                          branch (test connect_word refl)
                            (λ is_connect.
                              let a = needs not_close is_connect in
                              let inside : leb (suc (word_length msg)) (length msg) ≡ true =
                                ground (arith, a.0) in
                              rw inside (connect-Serves sk g msg source (chain, xs, fs, v) a))
                            (λ _.
                              last_branch (test listen_word refl) (listen-Serves v sk)
                                (unchanged v [] (ok (g, [])) refl))))))))
