-- ===== src/DataBuffer/Pushing.antt =====
-- databuffer_push on a buffer that is well formed.
use myprogram.Prelude.{
  ℕ, ◌+◌, ◌*◌, ◌^◌, ◌≤◌, ◌<◌, ◌≡◌, sym, ap, ◌∙◌, ◌⊎◌, inl, inr, true, false, none, some, List, [],
  ◌∷◌, ◌++◌, arith, ltb, ◌==◌, has, length, Run, ok, drop-append, length-append, has-append,
  ==_refl,
}
use myprogram.DataBuffer.{message, DataBuffer, MessagePool, message_pool, store, databuffer_push}
use myprogram.DataBuffer.Invariant.{
  Cells, first, addresses, bytes, first_length, Linked, Chained, Holds, pending, Untouched,
  Linked-same, Free-same, has-addresses_append,
}
use myprogram.DataBuffer.Push.{
  Ready, Unused, Links, take_message-Ready, link_tail-Links, last-append, Distinct-append,
  bytes-append,
}
use myprogram.DataBuffer.Reading.{first_length-le}

first_length-append :
    (n : ℕ) (xs : Cells) (a : ℕ) (bs : List ℕ)
    → n ≤ first_length xs
    → n ≤ first_length (xs ++ (a, bs) ∷ [])
first_length-append n [] a bs h = omega arith
first_length-append n ((c, cs) ∷ xs) a bs h = h

split_has :
    (b : ℕ) (xs : Cells) (a : ℕ) (bs : List ℕ)
    → has b (addresses (xs ++ (a, bs) ∷ [])) ≡ true
    → (has b (addresses xs) ≡ true) ⊎ (b ≡ a)
split_has b xs a bs h =
    ground (arith, has-addresses_append b xs a bs, has-append b (addresses xs) (a ∷ []))

not_taken :
    (mp : MessagePool) (a b : ℕ) (fs : List ℕ)
    → Unused mp a fs
    → has b fs ≡ false
    → b < message_pool * mp.pool
    → (b == a) ≡ false
not_taken mp a b [] u h l = ground arith
not_taken mp a b (f ∷ fs) u h l = ground arith

module _ {db : DataBuffer} {mp : MessagePool} {xs : Cells} {fs : List ℕ}
    (v : Holds db mp xs fs) where
  grown : ℕ → DataBuffer
  grown n = record db { size = db.size + n }

  filled : List ℕ → ℕ → MessagePool → MessagePool
  filled bs a mp1 = store mp1 a (message (some bs) (length bs) none)

  filled-Linked :
      (bs : List ℕ) (a : ℕ) (mp1 : MessagePool) (fs' : List ℕ)
      → Ready mp mp1 a xs fs'
      → Linked (filled bs a mp1).cell xs
  unfolding filled
  filled-Linked bs a mp1 fs' r =
      Linked-same {f = mp1.cell} {g = (filled bs a mp1).cell} xs (λ b h. ground (arith, r.new))
        r.linked

  assembled :
      (bs : List ℕ) (a : ℕ) (fs' : List ℕ) (mp1 mp2 : MessagePool) (db2 : DataBuffer)
      → Ready mp mp1 a xs fs'
      → Linked mp2.cell (xs ++ (a, bs) ∷ [])
      → db2.head ≡ first (xs ++ (a, bs) ∷ [])
      → db2.tail ≡ some a
      → mp2.pool ≡ mp1.pool
      → mp2.freelist ≡ mp1.freelist
      → ((b : ℕ) → has b fs' ≡ true → mp2.cell b ≡ mp1.cell b)
      → Chained db2 mp2 (xs ++ (a, bs) ∷ []) fs'
  assembled bs a fs' mp1 mp2 db2 r linked head tail pool free same = record {
    linked = linked;
    free = Free-same {f = mp1.cell} {g = mp2.cell} fs' same r.free;
    head = head;
    tail = tail ∙ sym (last-append none xs a bs);
    freelist = free ∙ r.freelist;
    distinct = Distinct-append xs a bs v.chained.distinct r.new;
    free_distinct = r.distinct;
    apart =
        λ b h. elim (split_has b xs a bs h) [ inl old ↦ r.apart b old | inr e ↦ rw e r.new_free ];
    below = λ b h. elim (split_has b xs a bs h) [
      | inl old ↦ omega (arith, v.chained.below b old, r.pool)
      | inr e ↦ omega (arith, r.new_below)
    ];
    free_below = λ b h. rw pool (r.free_below b h);
  }

  Pushed : List ℕ → Run (DataBuffer × MessagePool) → Type 0
  Pushed bs run =
      (db' : DataBuffer) × (mp' : MessagePool) × (xs' : Cells) × (fs' : List ℕ) × (run
        ≡ ok (db', mp'))
      × Holds db' mp' xs' fs'
      × (pending db' xs' ≡ pending db xs ++ bs)
      × (db'.header ≡ db.header)
      × Untouched mp mp' xs fs xs' fs'

  linked_Pushed :
      (bs : List ℕ) (a : ℕ) (mp1 : MessagePool) (fs' : List ℕ)
      (run : Run (DataBuffer × MessagePool))
      → db.size + length bs < 2 ^ 31
      → Ready mp mp1 a xs fs'
      → Unused mp a fs
      → ((b : ℕ) → has b fs ≡ false → b < message_pool * mp.pool → has b fs' ≡ false)
      → Links (grown (length bs)) (filled bs a mp1) xs fs' a bs run
      → Pushed bs run
  unfolding Pushed grown filled
  linked_Pushed bs a mp1 fs' run small r unused spared
        (db2, mp2, e, linked, head, tail, size, offset, header, pool, free, same) =
      (
        db2,
        mp2,
        xs ++ (a, bs) ∷ [],
        fs',
        e,
        record {
          chained =
              assembled bs a fs' mp1 mp2 db2 r linked head tail pool free
                (λ b h. ground (arith, same b, r.apart b, r.new_free));
          offset_le = rw offset (first_length-append db.offset xs a bs v.offset_le);
          size =
              omega (arith, v.size, ap length (bytes-append xs a bs), length-append (bytes xs) bs);
          fits = omega (arith, size);
        },
        rw (offset, bytes-append xs a bs)
            (drop-append db.offset (bytes xs) bs (omega (arith, v.offset_le, first_length-le xs))),
        header,
        (
          omega (arith, r.pool, pool),
          λ b h f l.
              let apart = not_taken mp a b fs unused f l in
              (
                ground (arith, same b, apart, r.same b),
                ground
                    (arith, has-addresses_append b xs a bs, has-append b (addresses xs) (a ∷ [])),
                spared b f l,
              ),
        ),
      )

  -- databuffer_push of bytes with which the size still fits an int: it succeeds, the bytes are
  -- pending behind those that were, and the buffer stays well formed. It keeps the header and changes
  -- no cell of the pool outside the buffer and the free list.
  pub databuffer_push-Holds :
      (bs : List ℕ)
      → db.size + length bs < 2 ^ 31
      → (db' : DataBuffer) × (mp' : MessagePool) × (xs' : Cells) × (fs' : List ℕ) × (databuffer_push
            db mp bs
            (length bs)
          ≡ ok (db', mp'))
        × Holds db' mp' xs' fs'
        × (pending db' xs' ≡ pending db xs ++ bs)
        × (db'.header ≡ db.header)
        × Untouched mp mp' xs fs xs' fs'
  unfolding databuffer_push Pushed grown filled
  databuffer_push-Holds bs fits =
      let (a, mp1, fs', take, r, unused, spared) = take_message-Ready fs v.chained in
      let small : ltb (db.size + length bs) (2 ^ 31) ≡ true = ground arith in
      rw (take, small)
        (linked_Pushed bs a mp1 fs' _ fits r unused spared (
          link_tail-Links (grown (length bs)) (filled bs a mp1) xs fs' a bs v.chained.head
            v.chained.tail (filled-Linked bs a mp1 fs' r) v.chained.distinct r.new
            (ground (arith, ==_refl a))))
