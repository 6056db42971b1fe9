-- ===== src/Gate/Refinement.antt =====
-- dispatch_message of service_gate.c, over the pool and its pointers, does what `drain` does on the
-- bytes.
use myprogram.Prelude.{
  ℕ, ◌+◌, ◌*◌, ◌^◌, ◌≤◌, ◌<◌, ◌≡◌, refl, inl, inr, true, false, List, [], ◌∷◌, arith, ltb, ◌==◌,
  if◌then◌else◌, Run, ok, take, drop, length, length-drop, Bool-cases,
}
use myprogram.DataBuffer.{DataBuffer, MessagePool, decode, announced, databuffer_readheader}
use myprogram.DataBuffer.Invariant.{Cells, Holds, Holds-of_header, pending, Untouched}
use myprogram.DataBuffer.Reading.{databuffer_read-Holds, length-pending}
use myprogram.Gate.{is_negative}
use myprogram.Gate.Stream.{header_value, announce, read_header}

decode-take : (bs : List ℕ) → 4 ≤ length bs → decode 4 (take 4 bs) ≡ ok (header_value bs)
unfolding decode
decode-take [] h = absurd (omega arith)
decode-take (b0 ∷ []) h = absurd (omega arith)
decode-take (b0 ∷ b1 ∷ []) h = absurd (omega arith)
decode-take (b0 ∷ b1 ∷ b2 ∷ []) h = absurd (omega arith)
decode-take (b0 ∷ b1 ∷ b2 ∷ b3 ∷ bs) h = refl

-- The buffer `db1` in the pool `mp1` with what a spec leaves.
abbrev Follows : DataBuffer → MessagePool → Cells → List ℕ → ℕ → List ℕ → Type 0
Follows db mp xs fs h bs = Holds db mp xs fs × (db.header ≡ h) × (pending db xs ≡ bs)

abbrev pub HeaderRead :
    MessagePool → Cells → List ℕ → Run (DataBuffer × MessagePool × ℕ) → ℕ × ℕ × List ℕ → Type 0
HeaderRead mp xs fs run spec =
    (db1 : DataBuffer) × (mp1 : MessagePool) × (xs1 : Cells) × (fs1 : List ℕ) × (run
      ≡ ok (db1, mp1, spec.0))
    × Holds db1 mp1 xs1 fs1
    × (db1.header ≡ spec.1)
    × (pending db1 xs1 ≡ spec.2)
    × Untouched mp mp1 xs fs xs1 fs1

module _ {db : DataBuffer} {mp : MessagePool} {xs : Cells} {fs : List ℕ}
    (v : Holds db mp xs fs) where
  announced-announce : announced db ≡ announce db.header (length (pending db xs))
  unfolding announced
  announced-announce = rw (length-pending v) refl

  unchanged : Untouched mp mp xs fs xs fs
  unchanged = (omega arith, λ b h f l. (refl, h, f))

  header_there :
      (db.header == 0) ≡ false
      → HeaderRead mp xs fs (databuffer_readheader db mp 4) (read_header db.header (pending db xs))
  unfolding databuffer_readheader read_header
  header_there e = rw e (db, mp, xs, fs, rw announced-announce refl, v, refl, refl, unchanged)

  header_short :
      (db.header == 0) ≡ true
      → db.size < 4
      → HeaderRead mp xs fs (databuffer_readheader db mp 4) (read_header db.header (pending db xs))
  unfolding databuffer_readheader read_header
  header_short e short =
      let few : ltb db.size 4 ≡ true = ground arith in
      let few' : ltb (length (pending db xs)) 4 ≡ true = ground (arith, length-pending v) in
      rw (e, few, few') (db, mp, xs, fs, refl, v, refl, refl, unchanged)

module _ {db : DataBuffer} {mp : MessagePool} {xs : Cells} {fs : List ℕ}
    (v : Holds db mp xs fs) where
  header_read :
      (db.header == 0) ≡ true
      → 4 ≤ db.size
      → HeaderRead mp xs fs (databuffer_readheader db mp 4) (read_header db.header (pending db xs))
  unfolding databuffer_readheader read_header
  header_read e enough =
      let bs = pending db xs in
      let (db', mp', xs', fs', run, v', left, header, pool, same, _, _) =
        databuffer_read-Holds 4 v (omega arith) enough in
      let many : ltb db.size 4 ≡ false = ground arith in
      let many' : ltb (length bs) 4 ≡ false = ground (arith, length-pending v) in
      let decoded = decode-take bs (omega (arith, length-pending v)) in
      let v'' = Holds-of_header (header_value bs) v' in
      rw (e, many, many')
        (
          record db' { header = header_value bs },
          mp',
          xs',
          fs',
          rw (run, decoded, announced-announce v'', left) refl,
          v'',
          refl,
          left,
          same,
        )

  pub readheader-HeaderRead :
      HeaderRead mp xs fs (databuffer_readheader db mp 4) (read_header db.header (pending db xs))
  readheader-HeaderRead = elim (Bool-cases (db.header == 0)) [
    | inr e ↦ header_there v e
    | inl e ↦ elim (Bool-cases (ltb db.size 4)) [
      | inl few ↦ header_short v e (ground arith)
      | inr many ↦ header_read e (ground arith)
    ]
  ]

-- The fuel that a state needs: two for each byte, and one for a header that has been read.
abbrev pub weight : ℕ → List ℕ → ℕ
weight h bs = 2 * length bs + (if h == 0 then 0 else 1)

-- A size that is not negative is the header, the bytes of the message are there, and the state
-- weighs less without the header.
pub announce_facts :
    (h n : ℕ) → n < 2 ^ 31 → is_negative (announce h n) ≡ false → (announce h n ≡ h) × (h ≤ n)
announce_facts h n small nonneg = ground arith

-- What follows from a size that is not negative.
abbrev pub Announced : ℕ → List ℕ → ℕ × ℕ × List ℕ → Type 0
Announced h bs (size, h1, bs1) = (size ≡ h1) × (h1 ≤ length bs1) × (2 * length bs1 < weight h bs)

pub read_header_facts :
    (h : ℕ) (bs : List ℕ)
    → length bs < 2 ^ 31
    → is_negative (read_header h bs).0 ≡ false
    → Announced h bs (read_header h bs)
unfolding read_header
read_header_facts h bs small = elim (Bool-cases (h == 0)) [
  | inl e ↦ elim (Bool-cases (ltb (length bs) 4)) [
    | inl few ↦ rw (e, few) λ nonneg. absurd (cc nonneg)
    | inr many ↦
        let enough : 4 ≤ length bs = ground arith in
        let fewer : 2 * length (drop 4 bs) < 2 * length bs + 0 = omega (arith, length-drop 4 bs) in
        rw (e, many)
          λ nonneg.
            let (same, fits) =
              announce_facts (header_value bs) (length (drop 4 bs))
                (omega (arith, length-drop 4 bs)) nonneg in
            (same, fits, fewer)
  ]
  | inr e ↦ rw e λ nonneg.
      let (same, fits) = announce_facts h (length bs) small nonneg in (same, fits, omega arith)
]
