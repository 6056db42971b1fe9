-- ===== src/Gate/Pieces.antt =====
-- `drain` of two pieces of bytes that come one after the other.
use myprogram.Prelude.{
  ℕ, zero, suc, ◌+◌, ◌*◌, ◌≤◌, ◌≡◌, refl, sym, inl, inr, true, false, List, ◌++◌, arith, ltb, ◌==◌,
  if◌then◌else◌, ◌>>=◌, drop, length, length-drop, Bool-cases, length-append, eq_of_==, take-append,
  drop-append,
}
use myprogram.Gate.{Gate, Connection, is_negative, has_receiver}
use myprogram.Gate.Stream.{header_value, read_header, left_after, sent_after, drain, continue}
use myprogram.Gate.Refinement.{weight, Announced, read_header_facts}
use myprogram.Gate.Fuel.{round, Lighter, lighter, read_header-le, drain-fuel}
use myprogram.Gate.Chunks.{
  after-nil, after-continue, read_header-negative, read_header-nonneg, sent_after-not_close,
}

Announced-more :
    (h : ℕ) (bs more : List ℕ) (spec : ℕ × ℕ × List ℕ)
    → Announced h bs spec
    → Announced h (bs ++ more) (spec.0, spec.1, spec.2 ++ more)
Announced-more h bs more (size, h1, bs1) (same, fits, less) = (
  same,
  omega (arith, length-append bs1 more),
  omega (arith, length-append bs1 more, length-append bs more),
)

sent_after-more :
    (g : Gate) (c : Connection) (bs more : List ℕ) (size : ℕ)
    → size ≤ length bs
    → sent_after g c (bs ++ more) size ≡ sent_after g c bs size
sent_after-more g c bs more size h = rw (take-append size bs more h) refl

left_after-more :
    (g : Gate) (c : Connection) (bs more : List ℕ) (size : ℕ)
    → size ≤ length bs
    → left_after g c (bs ++ more) size ≡ left_after g c bs size ++ more
left_after-more g c bs more size h = elim (Bool-cases (has_receiver g c)) [
  | inl e ↦ rw e (drop-append size bs more h)
  | inr e ↦ rw e refl
]

read_weight :
    (bs more : List ℕ) (v : ℕ)
    → 4 ≤ length bs
    → 2 * length (drop 4 bs ++ more) + (if v == 0 then 0 else 1) ≤ 2 * length (bs ++ more) + 0
read_weight bs more v enough =
    let flag : (if v == 0 then 0 else 1) ≤ 1 = ground arith in
    omega (arith, flag, length-append (drop 4 bs) more, length-append bs more, length-drop 4 bs)

read_header-weight :
    (h : ℕ) (bs more : List ℕ)
    → weight (read_header h bs).1 ((read_header h bs).2 ++ more) ≤ weight h (bs ++ more)
unfolding read_header
read_header-weight h bs more = elim (Bool-cases (h == 0)) [
  | inr e ↦ rw e (rw e (omega arith))
  | inl e ↦ elim (Bool-cases (ltb (length bs) 4)) [
    | inl few ↦ rw (e, few) (rw e (omega arith))
    | inr many ↦ rw (e, many) (read_weight bs more (header_value bs) (ground arith))
  ]
]

module _ (g : Gate) (c : Connection) (id : ℕ) (more : List ℕ) where
  abbrev Joined : ℕ → ℕ → Type 0
  Joined k k2 =
      (h : ℕ) (bs : List ℕ)
      → Lighter k h bs
      → Lighter k2 h (bs ++ more)
      → drain k2 g c id h (bs ++ more) ≡ (drain k g c id h bs >>= continue g c id more)

  round-Joined :
      (k k2 : ℕ) (h : ℕ) (bs : List ℕ) (size h1 : ℕ) (bs1 : List ℕ)
      → Joined k k2
      → length bs1 ≤ length bs
      → Lighter (suc k) h bs
      → Lighter (suc k2) h (bs ++ more)
      → is_negative size ≡ false
      → Announced h bs (size, h1, bs1)
      → Announced h (bs ++ more) (size, h1, bs1 ++ more)
      → round k2 g c id size h1 (bs1 ++ more)
        ≡ (round k g c id size h1 bs1 >>= continue g c id more)
  round-Joined k k2 h bs size h1 bs1 rec le l l2 e facts facts2 =
      let (again, pass) = lighter k h bs size h1 bs1 g c le l facts in
      let (again2, pass2) =
        lighter k2 h (bs ++ more) size h1 (bs1 ++ more) g c
          (omega (arith, length-append bs more, length-append bs1 more)) l2 facts2 in
      let shifted = left_after-more g c bs1 more size (omega (arith, facts.0, facts.1)) in
      elim (Bool-cases (size == 0)) [
        | inl z ↦ rw (e, z) (rec h1 bs1 (again (eq_of_== _ _ z)) (again2 (eq_of_== _ _ z)))
        | inr nz ↦ elim (Bool-cases (ltb size 0x1000000)) [
          | inl fits ↦
              rw
                (
                  e,
                  nz,
                  fits,
                  sent_after-more g c bs1 more size (omega (arith, facts.0, facts.1)),
                  shifted,
                  rec 0 (left_after g c bs1 size) pass (rw (sym shifted) pass2),
                )
                (after-continue g c id more _ (drain k g c id 0 (left_after g c bs1 size))
                  (sent_after-not_close g c bs1 size))
          | inr large ↦ rw (e, nz, large) refl
        ]
      ]

  -- The first piece is at its end.
  waits :
      (k k2 : ℕ) (h : ℕ) (bs : List ℕ)
      → Lighter (suc k) h bs
      → Lighter (suc k2) h (bs ++ more)
      → is_negative (read_header h bs).0 ≡ true
      → drain (suc k2) g c id h (bs ++ more) ≡ (drain (suc k) g c id h bs >>= continue g c id more)
  unfolding drain
  waits k k2 h bs l l2 e =
      let spec = read_header h bs in
      let left = spec.2 ++ more in
      let le : length left ≤ length (bs ++ more) =
        omega (arith, length-append bs more, length-append spec.2 more, read_header-le h bs) in
      let same : round k2 g c id (read_header h (bs ++ more)).0 (read_header h (bs ++ more)).1
            (read_header h (bs ++ more)).2
          ≡ drain (suc k2) g c id spec.1 left =
        rw (read_header-negative h bs more l2.0 e) refl in
      rw (e, same, after-nil (drain (2 * length left + 2) g c id spec.1 left))
        (drain-fuel (suc k2) (2 * length left + 2) g c id spec.1 left
          (omega arith, omega (arith, read_header-weight h bs more)) (omega arith, ground arith))

  -- With enough fuel, draining two pieces at once is draining the first, and then what it leaves with
  -- the second behind it; if the first run closes the connection, so does the run of both, with the
  -- same sends.
  pub drain-append : (k k2 : ℕ) → Joined k k2
  unfolding drain
  drain-append zero k2 h bs l l2 = absurd (omega (arith, l.1))
  drain-append (suc k) zero h bs l l2 = absurd (omega (arith, l2.1))
  drain-append (suc k) (suc k2) h bs l l2 = elim (Bool-cases (is_negative (read_header h bs).0)) [
    | inl e ↦ waits k k2 h bs l l2 e
    | inr e ↦
        let facts = read_header_facts h bs l.0 e in
        let same = read_header-nonneg h bs more l2.0 e in
        rw same (
          round-Joined k k2 h bs _ _ _ (drain-append k k2) (read_header-le h bs) l l2 e facts
            (Announced-more h bs more (read_header h bs) facts))
  ]
