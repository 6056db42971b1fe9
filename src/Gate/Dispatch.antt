-- ===== src/Gate/Dispatch.antt =====
-- dispatch_message of service_gate.c, over the pool and its pointers, does what `drain` does on the
-- bytes: the loop, by induction on the fuel.
use myprogram.Prelude.{
  ℕ, zero, suc, ◌*◌, ◌≤◌, ◌<◌, ◌≡◌, refl, sym, ap, ◌∙◌, inl, inr, false, List, [], ◌∷◌, ◌++◌, arith,
  ltb, ◌==◌, if◌then◌else◌, Run, ok, ◌>>=◌, length, length-drop, Bool-cases, eq_of_==,
}
use myprogram.DataBuffer.{
  DataBuffer, MessagePool, empty_buffer, databuffer_readheader, databuffer_reset, databuffer_clear,
}
use myprogram.DataBuffer.Invariant.{
  Cells, Holds, Holds-of_header, pending, Untouched, Untouched-trans,
}
use myprogram.DataBuffer.Reading.{databuffer_read-Holds, length-pending}
use myprogram.DataBuffer.Clear.{databuffer_clear-Holds}
use myprogram.Gate.{
  Gate, Connection, Action, is_negative, forward, has_receiver, dispatch_loop, socket_close,
}
use myprogram.Gate.Stream.{read_header, left_after, sent_after, Drained, after, drain}
use myprogram.Gate.Refinement.{readheader-HeaderRead, weight, Announced, read_header_facts}

abbrev pub Refines :
    MessagePool
    → Cells
    → List ℕ
    → Run (DataBuffer × MessagePool × List Action)
    → Run Drained
    → Type 0
Refines mp xs fs run spec =
    (db' : DataBuffer) × (mp' : MessagePool) × (xs' : Cells) × (fs' : List ℕ) × (sent : List Action)
    × (run ≡ ok (db', mp', sent))
    × (spec ≡ ok (db'.header, pending db' xs', sent))
    × Holds db' mp' xs' fs'
    × Untouched mp mp' xs fs xs' fs'

Refines-trans :
    (mp mp1 : MessagePool) (xs xs1 : Cells) (fs fs1 : List ℕ)
    (run : Run (DataBuffer × MessagePool × List Action)) (spec : Run Drained)
    → Untouched mp mp1 xs fs xs1 fs1
    → Refines mp1 xs1 fs1 run spec
    → Refines mp xs fs run spec
Refines-trans mp mp1 xs xs1 fs fs1 run spec u (db', mp', xs', fs', sent, r, sp, v, w) =
    (db', mp', xs', fs', sent, r, sp, v, Untouched-trans mp mp1 mp' xs xs1 xs' fs fs1 fs' u w)

-- What the loop does after the message.
abbrev pub Continues :
    ℕ → Gate → Connection → ℕ → DataBuffer → MessagePool → Cells → List ℕ → Type 0
Continues k g c id db mp xs fs =
    Refines mp xs fs (dispatch_loop k g c id db mp) (drain k g c id db.header (pending db xs))

abbrev pub All : ℕ → Gate → Connection → ℕ → Type 0
All k g c id =
    (db : DataBuffer) (mp : MessagePool) (xs : Cells) (fs : List ℕ)
    → Holds db mp xs fs
    → weight db.header (pending db xs) < k
    → Continues k g c id db mp xs fs

-- `forward` and the reset behind it.
abbrev Forwarded : Gate → Connection → DataBuffer → MessagePool → Cells → List ℕ → ℕ → Type 0
Forwarded g c db mp xs fs size =
    (db' : DataBuffer) × (mp' : MessagePool) × (xs' : Cells) × (fs' : List ℕ) × (forward g c db mp
        size
      ≡ ok (db', mp', sent_after g c (pending db xs) size))
    × Holds (databuffer_reset db') mp' xs' fs'
    × (pending db' xs' ≡ left_after g c (pending db xs) size)
    × Untouched mp mp' xs fs xs' fs'

forward-Forwarded :
    (g : Gate) (c : Connection) {db : DataBuffer} {mp : MessagePool} {xs : Cells} {fs : List ℕ}
    (size : ℕ)
    → Holds db mp xs fs
    → 0 < size
    → size ≤ length (pending db xs)
    → Forwarded g c db mp xs fs size
unfolding forward databuffer_reset
forward-Forwarded g c {db} {mp} {xs} {fs} size v some_bytes enough =
    elim (Bool-cases (has_receiver g c)) [
      | inl e ↦
          let (db', mp', xs', fs', run, v', left, header, pool, same, _, _) =
            databuffer_read-Holds size v some_bytes (omega (arith, length-pending v)) in
          rw (e, run) (db', mp', xs', fs', refl, Holds-of_header 0 v', left, same)
      | inr e ↦
          rw e (
            db,
            mp,
            xs,
            fs,
            refl,
            Holds-of_header 0 v,
            refl,
            (omega arith, λ b h f l. (refl, h, f)),
          )
    ]

pub left_after-le :
    (g : Gate) (c : Connection) (bs : List ℕ) (size : ℕ)
    → length (left_after g c bs size) ≤ length bs
left_after-le g c bs size = elim (Bool-cases (has_receiver g c)) [
  | inl e ↦ rw e (omega (arith, length-drop size bs))
  | inr e ↦ rw e (omega arith)
]

zero_light :
    {k : ℕ} (bs1 : List ℕ) (h1 size h : ℕ) (bs : List ℕ)
    → size ≡ h1
    → size ≡ 0
    → 2 * length bs1 < weight h bs
    → weight h bs < suc k
    → weight h1 bs1 < k
zero_light bs1 h1 size h bs same z lighter light = ground arith

module _ (k : ℕ) (g : Gate) (c : Connection) (id : ℕ) (rec : All k g c id) where
  after_forward :
      (db1 db2 : DataBuffer) (mp1 mp2 : MessagePool) (xs1 xs2 : Cells) (fs1 fs2 : List ℕ)
      (sent : List Action) (bs : List ℕ)
      → Holds (databuffer_reset db2) mp2 xs2 fs2
      → pending db2 xs2 ≡ bs
      → Untouched mp1 mp2 xs1 fs1 xs2 fs2
      → 2 * length bs < k
      → Refines mp1 xs1 fs1
          (dispatch_loop k g c id (databuffer_reset db2) mp2 >>= λ (db3, mp3, rest).
            ok (db3, mp3, sent ++ rest))
          (after sent (drain k g c id 0 bs))
  unfolding databuffer_reset
  after_forward db1 db2 mp1 mp2 xs1 xs2 fs1 fs2 sent bs v left u light =
      let (db3, mp3, xs3, fs3, rest, run, spec, v3, w) =
        rec (databuffer_reset db2) mp2 xs2 fs2 v (omega (arith, ap length left)) in
      (
        db3,
        mp3,
        xs3,
        fs3,
        sent ++ rest,
        rw run refl,
        rw (sym left, spec) refl,
        v3,
        Untouched-trans mp1 mp2 mp3 xs1 xs2 xs3 fs1 fs2 fs3 u w,
      )

  pass_round :
      (db1 : DataBuffer) (mp1 : MessagePool) (xs1 : Cells) (fs1 : List ℕ) (size : ℕ)
      → Holds db1 mp1 xs1 fs1
      → 0 < size
      → size ≤ length (pending db1 xs1)
      → 2 * length (pending db1 xs1) < k
      → Refines mp1 xs1 fs1
          (do
            (db2, mp2, sent) ← forward g c db1 mp1 size
            (db3, mp3, rest) ← dispatch_loop k g c id (databuffer_reset db2) mp2
            ok (db3, mp3, sent ++ rest))
          (after
            (sent_after g c (pending db1 xs1) size)
            (drain k g c id 0 (left_after g c (pending db1 xs1) size)))
  pass_round db1 mp1 xs1 fs1 size v some_bytes enough light =
      let (db2, mp2, xs2, fs2, run, v2, left, u) = forward-Forwarded g c size v some_bytes enough in
      rw run (
        after_forward db1 db2 mp1 mp2 xs1 xs2 fs1 fs2 _ _ v2 left u
          (omega (arith, left_after-le g c (pending db1 xs1) size)))

  -- The loop once the header has been read.
  round :
      (h : ℕ) (bs : List ℕ) (db1 : DataBuffer) (mp1 : MessagePool) (xs1 : Cells) (fs1 : List ℕ)
      (size : ℕ)
      → Holds db1 mp1 xs1 fs1
      → (is_negative size ≡ false → Announced h bs (size, db1.header, pending db1 xs1))
      → weight h bs < suc k
      → Refines mp1 xs1 fs1
          (let again = dispatch_loop k g c id db1 mp1 in
            let pass = (do
              (db2, mp2, sent) ← forward g c db1 mp1 size
              (db3, mp3, rest) ← dispatch_loop k g c id (databuffer_reset db2) mp2
              ok (db3, mp3, sent ++ rest)) in
            let refuse = (do
              (db2, mp2) ← databuffer_clear db1 mp1
              ok (db2, mp2, socket_close id ∷ [])) in
            if is_negative size
            then ok (db1, mp1, [])
            else (if size == 0 then again else (if ltb size 0x1000000 then pass else refuse)))
          (let again = drain k g c id db1.header (pending db1 xs1) in
            let pass =
              after
                (sent_after g c (pending db1 xs1) size)
                (drain k g c id 0 (left_after g c (pending db1 xs1) size)) in
            if is_negative size
            then ok (db1.header, pending db1 xs1, [])
            else (if size == 0
                then again
                else (if ltb size 0x1000000 then pass else ok (0, [], socket_close id ∷ []))))
  round h bs db1 mp1 xs1 fs1 size v facts light = elim (Bool-cases (is_negative size)) [
    | inl e ↦ rw e (db1, mp1, xs1, fs1, [], refl, refl, v, (omega arith, λ b h f l. (refl, h, f)))
    | inr e ↦
        let (same, fits, lighter) = facts e in
        elim (Bool-cases (size == 0)) [
          | inl z ↦
              rw (e, z)
                (rec db1 mp1 xs1 fs1 v
                  (zero_light _ db1.header size h bs same (eq_of_== _ _ z) lighter light))
          | inr nz ↦ elim (Bool-cases (ltb size 0x1000000)) [
            | inl small ↦
                rw (e, nz, small)
                  (pass_round db1 mp1 xs1 fs1 size v (ground arith) (omega arith) (omega arith))
            | inr large ↦
                let (mp2, fs2, run, v2, all, pool, u) = databuffer_clear-Holds v in
                rw (e, nz, large, run)
                  (empty_buffer, mp2, [], fs2, socket_close id ∷ [], refl, refl, v2, u)
          ]
        ]
  ]

pub dispatch_loop-Refines :
    (k : ℕ) (g : Gate) (c : Connection) (id : ℕ) → g.header_size ≡ 4 → All k g c id
unfolding dispatch_loop drain
dispatch_loop-Refines zero g c id hs db mp xs fs v light = absurd (omega arith)
dispatch_loop-Refines (suc k) g c id hs db mp xs fs v light =
    let (db1, mp1, xs1, fs1, run, v1, header, left, u) = readheader-HeaderRead v in
    let run' = ap (databuffer_readheader db mp) hs ∙ run in
    rw (run', sym header, sym left)
      (Refines-trans mp mp1 xs xs1 fs fs1 _ _ u (
        round k g c id (dispatch_loop-Refines k g c id hs) db.header (pending db xs) db1 mp1 xs1 fs1
          (read_header db.header (pending db xs)).0 v1
          (rw (header, left)
            (read_header_facts db.header (pending db xs) (omega (arith, length-pending v, v.fits))))
          light))
