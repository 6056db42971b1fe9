-- ===== src/Gate/Fuel.antt =====
-- The fuel of `drain`: enough of it is as good as more. And what `drain` leaves is no more than it
-- had.
use myprogram.Prelude.{
  ℕ, zero, suc, ◌^◌, ◌≤◌, ◌<◌, ◌≡◌, refl, inl, inr, false, List, [], ◌∷◌, arith, ltb, ◌==◌,
  if◌then◌else◌, Run, ok, fault, out_of_fuel, length, length-drop, Bool-cases, eq_of_==, subst,
}
use myprogram.Gate.{Gate, Connection, Action, is_negative, socket_close}
use myprogram.Gate.Stream.{read_header, left_after, sent_after, Drained, after, drain}
use myprogram.Gate.Refinement.{weight, Announced, read_header_facts}
use myprogram.Gate.Dispatch.{left_after-le}
use myprogram.Gate.Chunks.{after-nil}

-- The rest of a round of `drain`, once the header has been read.
abbrev pub round : ℕ → Gate → Connection → ℕ → ℕ → ℕ → List ℕ → Run Drained
round k g c id size h1 bs1 =
    let again = drain k g c id h1 bs1 in
    let pass = after (sent_after g c bs1 size) (drain k g c id 0 (left_after g c bs1 size)) in
    if is_negative size
    then ok (h1, bs1, [])
    else (if size == 0
        then again
        else (if ltb size 0x1000000 then pass else ok (0, [], socket_close id ∷ [])))

-- The states that come after a header lighter than `k`.
abbrev pub Lighter : ℕ → ℕ → List ℕ → Type 0
Lighter k h bs = (length bs < 2 ^ 31) × (weight h bs < k)

-- A round asks for less than the state in front of it.
pub lighter :
    (k h : ℕ) (bs : List ℕ) (size h1 : ℕ) (bs1 : List ℕ) (g : Gate) (c : Connection)
    → length bs1 ≤ length bs
    → Lighter (suc k) h bs
    → Announced h bs (size, h1, bs1)
    → (size ≡ 0 → Lighter k h1 bs1) × Lighter k 0 (left_after g c bs1 size)
lighter k h bs size h1 bs1 g c le (small, light) (same, fits, less) = (
  (λ z. (omega arith, ground arith)),
  (omega (arith, left_after-le g c bs1 size), omega (arith, left_after-le g c bs1 size)),
)

pub read_header-le : (h : ℕ) (bs : List ℕ) → length (read_header h bs).2 ≤ length bs
unfolding read_header
read_header-le h bs = elim (Bool-cases (h == 0)) [
  | inr e ↦ rw e (omega arith)
  | inl e ↦ elim (Bool-cases (ltb (length bs) 4)) [
    | inl few ↦ rw (e, few) (omega arith)
    | inr many ↦ rw (e, many) (omega (arith, length-drop 4 bs))
  ]
]

-- `drain` adds no bytes.
abbrev pub LeavesAtMost : ℕ → Run Drained → Type 0
LeavesAtMost n (ok (h, left, sent)) = length left ≤ n
LeavesAtMost n fault = Unit {0}
LeavesAtMost n out_of_fuel = Unit {0}

LeavesAtMost-after :
    (m n : ℕ) (sent : List Action) (r : Run Drained)
    → m ≤ n
    → LeavesAtMost m r
    → LeavesAtMost n (after sent r)
LeavesAtMost-after m n sent (ok (h, left, rest)) le l = omega arith
LeavesAtMost-after m n sent fault le l = tt
LeavesAtMost-after m n sent out_of_fuel le l = tt

LeavesAtMost-le : (m n : ℕ) (r : Run Drained) → m ≤ n → LeavesAtMost m r → LeavesAtMost n r
LeavesAtMost-le m n r le l = subst (LeavesAtMost n) (after-nil r) (LeavesAtMost-after m n [] r le l)

round-le :
    (k : ℕ) (g : Gate) (c : Connection) (id size h1 : ℕ) (bs bs1 : List ℕ)
    → length bs1 ≤ length bs
    → ((h : ℕ) (bs : List ℕ) → LeavesAtMost (length bs) (drain k g c id h bs))
    → LeavesAtMost (length bs) (round k g c id size h1 bs1)
round-le k g c id size h1 bs bs1 le rec = elim (Bool-cases (is_negative size)) [
  | inl e ↦ rw e le
  | inr e ↦ elim (Bool-cases (size == 0)) [
    | inl z ↦ rw (e, z) (LeavesAtMost-le (length bs1) (length bs) _ le (rec h1 bs1))
    | inr nz ↦ elim (Bool-cases (ltb size 0x1000000)) [
      | inl fits ↦
          rw (e, nz, fits)
            (LeavesAtMost-after (length (left_after g c bs1 size)) (length bs) _
              (drain k g c id 0 (left_after g c bs1 size))
              (omega (arith, left_after-le g c bs1 size)) (rec 0 (left_after g c bs1 size)))
      | inr large ↦ rw (e, nz, large) (omega arith)
    ]
  ]
]

pub drain-le :
    (k : ℕ) (g : Gate) (c : Connection) (id h : ℕ) (bs : List ℕ)
    → LeavesAtMost (length bs) (drain k g c id h bs)
unfolding drain
drain-le zero g c id h bs = tt
drain-le (suc k) g c id h bs =
    round-le k g c id (read_header h bs).0 (read_header h bs).1 bs (read_header h bs).2
      (read_header-le h bs) (drain-le k g c id)

abbrev pub Same : ℕ → ℕ → Gate → Connection → ℕ → Type 0
Same k k2 g c id =
    (h : ℕ) (bs : List ℕ)
    → Lighter k h bs
    → Lighter k2 h bs
    → drain k g c id h bs ≡ drain k2 g c id h bs

round-fuel :
    (k k2 : ℕ) (g : Gate) (c : Connection) (id : ℕ) (h : ℕ) (bs : List ℕ) (size h1 : ℕ)
    (bs1 : List ℕ)
    → Same k k2 g c id
    → length bs1 ≤ length bs
    → Lighter (suc k) h bs
    → Lighter (suc k2) h bs
    → (is_negative size ≡ false → Announced h bs (size, h1, bs1))
    → round k g c id size h1 bs1 ≡ round k2 g c id size h1 bs1
round-fuel k k2 g c id h bs size h1 bs1 rec le l l2 facts = elim (Bool-cases (is_negative size)) [
  | inl e ↦ rw e refl
  | inr e ↦
      let (again, pass) = lighter k h bs size h1 bs1 g c le l (facts e) in
      let (again2, pass2) = lighter k2 h bs size h1 bs1 g c le l2 (facts e) in
      elim (Bool-cases (size == 0)) [
        | inl z ↦ rw (e, z) (rec h1 bs1 (again (eq_of_== _ _ z)) (again2 (eq_of_== _ _ z)))
        | inr nz ↦ elim (Bool-cases (ltb size 0x1000000)) [
          | inl fits ↦ rw (e, nz, fits, rec 0 (left_after g c bs1 size) pass pass2) refl
          | inr large ↦ rw (e, nz, large) refl
        ]
      ]
]

-- With enough fuel, more of it changes nothing.
pub drain-fuel : (k k2 : ℕ) (g : Gate) (c : Connection) (id : ℕ) → Same k k2 g c id
unfolding drain
drain-fuel zero k2 g c id h bs l l2 = absurd (omega (arith, l.1))
drain-fuel (suc k) zero g c id h bs l l2 = absurd (omega (arith, l2.1))
drain-fuel (suc k) (suc k2) g c id h bs l l2 =
    round-fuel k k2 g c id h bs _ _ _ (drain-fuel k k2 g c id) (read_header-le h bs) l l2
      (read_header_facts h bs l.0)
