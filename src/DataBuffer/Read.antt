-- ===== src/DataBuffer/Read.antt =====
-- databuffer_read: the loop ends and yields the first bytes that are pending.
use myprogram.Prelude.{
  ℕ, zero, suc, ◌+◌, ◌-◌, ◌≤◌, ◌<◌, ◌≡◌, refl, sym, ap, ◌∙◌, true, false, ◌||◌, some, List, [], ◌∷◌,
  ◌++◌, arith, ltb, leb, ◌==◌, has, ok, take, drop, length, inl, inr, Bool-cases, drop-drop,
  drop-append, take-append, take-append_past, drop-append_past, take_all, length-drop,
  length-append, append-nil, Run,
}
use myprogram.DataBuffer.{DataBuffer, MessagePool, memcpy, read_loop}
use myprogram.DataBuffer.Invariant.{
  Cells, first_length, addresses, bytes, Chained, Chained-of_ends, pending, Untouched,
  Untouched-trans, GivenBack,
}
use myprogram.DataBuffer.Return.{
  shorter, returned, load-first, return_message-run, return_message-Chained,
  return_message-Untouched,
}

memcpy-ok :
    (bs : List ℕ) (offset n : ℕ)
    → offset + n ≤ length bs
    → memcpy (some bs) offset n ≡ ok (take n (drop offset bs))
unfolding memcpy
memcpy-ok bs offset n h = let fits : leb (offset + n) (length bs) ≡ true = ground arith in rw fits

unread : DataBuffer → List ℕ → List ℕ
unread db bs = drop db.offset bs

-- What a run of the loop for `sz` bytes comes to.
abbrev pub Reads :
    DataBuffer → MessagePool → Cells → List ℕ → ℕ → Run (DataBuffer × MessagePool × List ℕ) → Type 0
Reads db mp xs fs sz run =
    (db' : DataBuffer) × (mp' : MessagePool) × (xs' : Cells) × (fs' : List ℕ) × (run
      ≡ ok (db', mp', take sz (pending db xs)))
    × Chained db' mp' xs' fs'
    × (db'.offset ≤ first_length xs')
    × (pending db' xs' ≡ drop sz (pending db xs))
    × (db'.size ≡ db.size)
    × (db'.header ≡ db.header)
    × (mp'.pool ≡ mp.pool)
    × Untouched mp mp' xs fs xs' fs'
    × ((b : ℕ) → (has b (addresses xs') || has b fs') ≡ (has b (addresses xs) || has b fs))
    × GivenBack db'.offset xs fs xs' fs'

module _ (k : ℕ) {db : DataBuffer} {mp : MessagePool} {fs : List ℕ} (sz a : ℕ) (bs : List ℕ)
    (xs : Cells) (c : Chained db mp ((a, bs) ∷ xs) fs) (inside : db.offset ≤ length bs) where
  -- The message at the head holds more than is wanted.
  read_within :
      sz < length bs - db.offset → Reads db mp ((a, bs) ∷ xs) fs sz (read_loop (suc k) db mp sz)
  unfolding read_loop
  read_within less =
      let below : leb db.offset (length bs) ≡ true = ground arith in
      let more : ltb sz (length bs - db.offset) ≡ true = ground arith in
      let short : sz ≤ length (drop db.offset bs) = omega (arith, length-drop db.offset bs) in
      (
        record db { offset = db.offset + sz },
        mp,
        (a, bs) ∷ xs,
        fs,
        rw (
          load-first a bs xs c,
          below,
          more,
          memcpy-ok bs db.offset sz (omega arith),
          drop-append db.offset bs (bytes xs) inside,
          take-append sz (drop db.offset bs) (bytes xs) short,
        ),
        Chained-of_ends c refl refl,
        omega arith,
        sym (drop-drop db.offset sz (bs ++ bytes xs)),
        refl,
        refl,
        refl,
        (omega arith, λ b h f l. (refl, h, f)),
        λ b. refl,
        ([], refl, refl, inr (omega arith)),
      )

  length-part : length (unread db bs) ≡ length bs - db.offset
  unfolding unread
  length-part = length-drop db.offset bs

  pending-part : pending db ((a, bs) ∷ xs) ≡ unread db bs ++ bytes xs
  unfolding unread
  pending-part = drop-append db.offset bs (bytes xs) inside

  -- What the bytes pending come to once `m` more than the first message holds are wanted.
  take-pending :
      (m : ℕ)
      → sz ≡ length (unread db bs) + m
      → take sz (pending db ((a, bs) ∷ xs)) ≡ unread db bs ++ take m (bytes xs)
  take-pending m e = rw (e, pending-part) (take-append_past m (unread db bs) (bytes xs))

  drop-pending :
      (m : ℕ)
      → sz ≡ length (unread db bs) + m
      → drop sz (pending db ((a, bs) ∷ xs)) ≡ drop m (bytes xs)
  drop-pending m e = rw (e, pending-part) (drop-append_past m (unread db bs) (bytes xs))

  copied : memcpy (some bs) db.offset (length bs - db.offset) ≡ ok (unread db bs)
  unfolding unread
  copied =
      memcpy-ok bs db.offset (length bs - db.offset) (omega arith)
      ∙ ap ok (ap (λ n. take n (unread db bs)) (sym length-part) ∙ take_all (unread db bs))

  -- It holds just what is wanted.
  read_exactly :
      sz ≡ length bs - db.offset → Reads db mp ((a, bs) ∷ xs) fs sz (read_loop (suc k) db mp sz)
  unfolding read_loop
  read_exactly equal =
      let whole : sz ≡ length (unread db bs) + 0 = omega (arith, length-part) in
      let below : leb db.offset (length bs) ≡ true = ground arith in
      let no_more : ltb sz (length bs - db.offset) ≡ false = ground arith in
      let same : (length bs - db.offset == sz) ≡ true = ground arith in
      let c' : Chained (record db { offset = 0 }) mp ((a, bs) ∷ xs) fs =
        Chained-of_ends c refl refl in
      (
        shorter (record db { offset = 0 }) xs,
        returned mp a,
        xs,
        a ∷ fs,
        rw
            (
              take-pending 0 whole,
              load-first a bs xs c,
              below,
              no_more,
              same,
              equal,
              copied,
              return_message-run a bs xs c',
              append-nil,
            )
            refl,
        return_message-Chained a bs xs c',
        omega arith,
        sym (drop-pending 0 whole),
        refl,
        refl,
        refl,
        return_message-Untouched a bs xs c,
        λ b. ground arith,
        ((a, bs) ∷ [], refl, refl, inl refl),
      )

  -- It holds less: the rest comes from the messages behind it.
  abbrev rest : ℕ
  rest = sz - (length bs - db.offset)

  abbrev db_rest : DataBuffer
  db_rest = record (shorter db xs) { offset = 0 }

  read_further :
      length bs - db.offset < sz
      → Reads db_rest (returned mp a) xs (a ∷ fs) rest (read_loop k db_rest (returned mp a) rest)
      → Reads db mp ((a, bs) ∷ xs) fs sz (read_loop (suc k) db mp sz)
  unfolding read_loop
  read_further less
        (
          db',
          mp',
          xs',
          fs',
          run,
          c',
          inside',
          left,
          size,
          header,
          pool,
          same,
          cells,
          (front, split, back, rest_left),
        ) =
      let more : sz ≡ length (unread db bs) + rest = omega (arith, length-part) in
      let below : leb db.offset (length bs) ≡ true = ground arith in
      let no_more : ltb sz (length bs - db.offset) ≡ false = ground arith in
      let unequal : (length bs - db.offset == sz) ≡ false = ground arith in
      (
        db',
        mp',
        xs',
        fs',
        rw
            (
              take-pending rest more,
              load-first a bs xs c,
              below,
              no_more,
              unequal,
              copied,
              return_message-run a bs xs c,
              run,
            )
            refl,
        c',
        inside',
        left ∙ sym (drop-pending rest more),
        size,
        header,
        pool,
        Untouched-trans mp (returned mp a) mp' ((a, bs) ∷ xs) xs xs' fs (a ∷ fs) fs'
            (return_message-Untouched a bs xs c) same,
        λ b. ground (arith, cells b),
        ((a, bs) ∷ front, ap (λ (t : Cells). (a, bs) ∷ t) split, back, rest_left),
      )

pub read_loop-Reads :
    (k : ℕ) {db : DataBuffer} {mp : MessagePool} {fs : List ℕ} (sz : ℕ) (xs : Cells)
    → Chained db mp xs fs
    → db.offset ≤ first_length xs
    → length xs < k
    → 0 < sz
    → sz + db.offset ≤ length (bytes xs)
    → Reads db mp xs fs sz (read_loop k db mp sz)
read_loop-Reads zero sz xs c inside fuel some_bytes enough = absurd (omega arith)
read_loop-Reads (suc k) sz [] c inside fuel some_bytes enough = absurd (omega arith)
read_loop-Reads (suc k) {db} sz ((a, bs) ∷ xs) c inside fuel some_bytes enough =
    elim (Bool-cases (ltb sz (length bs - db.offset))) [
      | inl less ↦ read_within k sz a bs xs c inside (ground arith)
      | inr not_less ↦ elim (Bool-cases (length bs - db.offset == sz)) [
        | inl same ↦ read_exactly k sz a bs xs c inside (ground arith)
        | inr unequal ↦ read_further k sz a bs xs c inside (ground arith) (
            read_loop-Reads k (sz - (length bs - db.offset)) xs
              (Chained-of_ends (return_message-Chained a bs xs c) refl refl) (omega arith)
              (omega arith) (ground arith) (ground (arith, length-append bs (bytes xs))))
      ]
    ]
