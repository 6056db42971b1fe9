-- ===== src/DataBuffer/Push.antt =====
-- databuffer_push: the new bytes come behind those that are pending.
use myprogram.Prelude.{
  ℕ, suc, ◌-◌, ◌*◌, ◌≤◌, ◌<◌, ◌≡◌, refl, sym, true, false, Option, none, some, List, [], ◌∷◌, ◌++◌,
  arith, head?, has, length, ok, update, Distinct, Run, has-append, apart_of_has, append-nil,
  append_assoc,
}
use myprogram.DataBuffer.{
  Message, message, DataBuffer, MessagePool, message_pool, load, store, take_message, new_block,
  link_tail,
}
use myprogram.DataBuffer.Invariant.{
  Cells, first, last, last_or, addresses, bytes, Linked, Free, Chained, Linked-same,
  has-addresses_append,
}
use myprogram.DataBuffer.Return.{load-ok}
use myprogram.DataBuffer.Block.{up, has-up, head?-up, up-Distinct, new_block-Free, new_block-below}

-- The pool once a cell `a` has been taken from it.
pub record Ready (mp mp' : MessagePool) (a : ℕ) (xs : Cells) (fs : List ℕ) : Type 0 where
  pub linked : Linked mp'.cell xs
  pub free : Free mp'.cell fs
  pub freelist : mp'.freelist ≡ head? fs
  pub distinct : Distinct fs
  pub apart : (b : ℕ) → has b (addresses xs) ≡ true → has b fs ≡ false
  pub free_below : (b : ℕ) → has b fs ≡ true → b < message_pool * mp'.pool
  pub new : has a (addresses xs) ≡ false
  pub new_free : has a fs ≡ false
  pub new_below : a < message_pool * mp'.pool
  pub pool : mp.pool ≤ mp'.pool
  pub same : (b : ℕ) → b < message_pool * mp.pool → mp'.cell b ≡ mp.cell b

-- The cell is the first of the free list, or that list is empty and the cell is in no use.
abbrev pub Unused : MessagePool → ℕ → List ℕ → Type 0
Unused mp a [] = message_pool * mp.pool ≤ a
Unused mp a (f ∷ fs) = a ≡ f

module _ {db : DataBuffer} {mp : MessagePool} {xs : Cells} where
  reuse :
      (a : ℕ) (fs : List ℕ)
      → Chained db mp xs (a ∷ fs)
      → Ready mp (record mp { freelist = head? fs }) a xs fs
  reuse a fs c = record {
    linked = c.linked;
    free = c.free.1;
    freelist = refl;
    distinct = c.free_distinct.1;
    apart = λ b h. ground (arith, c.apart b);
    free_below = λ b h. c.free_below b (ground arith);
    new = ground (arith, c.apart a);
    new_free = c.free_distinct.0;
    new_below = c.free_below a (ground arith);
    pool = omega arith;
    same = λ b l. refl;
  }

  fresh :
      Chained db mp xs []
      → Ready mp
          (new_block mp).1
          (new_block mp).0
          xs
          (up (message_pool - 1) (suc (message_pool * mp.pool)))
  unfolding new_block
  fresh c =
      let base = message_pool * mp.pool in
      record {
        linked =
            Linked-same {f = mp.cell} {g = (new_block mp).1.cell} xs
              (λ b h. new_block-below mp b (c.below b h)) c.linked;
        free = new_block-Free mp;
        freelist = sym (head?-up (message_pool - 2) (suc base));
        distinct = up-Distinct (message_pool - 1) (suc base);
        apart = λ b h. ground (arith, c.below b h, has-up (message_pool - 1) (suc base) b);
        free_below = λ b h. omega (arith, has-up (message_pool - 1) (suc base) b h);
        new = ground (arith, c.below base);
        new_free = ground (arith, has-up (message_pool - 1) (suc base) base);
        new_below = omega arith;
        pool = omega arith;
        same = λ b l. new_block-below mp b l;
      }

  pub take_message-Ready :
      (fs : List ℕ)
      → Chained db mp xs fs
      → (a : ℕ) × (mp' : MessagePool) × (fs' : List ℕ) × (take_message mp ≡ ok (a, mp'))
        × Ready mp mp' a xs fs'
        × Unused mp a fs
        × ((b : ℕ) → has b fs ≡ false → b < message_pool * mp.pool → has b fs' ≡ false)
  unfolding take_message load
  take_message-Ready [] c = (
    _,
    _,
    _,
    rw c.freelist refl,
    fresh c,
    unfold new_block in omega arith,
    λ b h l. ground (arith, has-up (message_pool - 1) (suc (message_pool * mp.pool)) b),
  )
  take_message-Ready (f ∷ fs) c =
      (f, _, fs, rw (c.freelist, c.free.0) refl, reuse f fs c, refl, λ b h l. ground arith)

-- The last message of a list that is not empty is set to point to `a`.
link-append :
    (f : ℕ → Option Message) (d : Option ℕ) (c : ℕ) (cs : List ℕ) (xs : Cells) (a : ℕ) (bs : List ℕ)
    → Linked f ((c, cs) ∷ xs)
    → Distinct (addresses ((c, cs) ∷ xs))
    → has a (addresses ((c, cs) ∷ xs)) ≡ false
    → f a ≡ some (message (some bs) (length bs) none)
    → (t : ℕ) × (m : Message) × (last_or d ((c, cs) ∷ xs) ≡ some t)
      × (f t ≡ some m)
      × (has t (addresses ((c, cs) ∷ xs)) ≡ true)
      × Linked (update f t (some (record m { next = some a }))) ((c, cs) ∷ xs ++ (a, bs) ∷ [])
link-append f d c cs [] a bs l dist new e = (
  c,
  message (some cs) (length cs) none,
  refl,
  l.0,
  ground arith,
  (ground arith, (ground arith, tt)),
)
link-append f d c cs ((c', cs') ∷ xs) a bs l dist new e =
    let (t, m, at_last, holds, there, linked) =
      link-append f (some c) c' cs' xs a bs l.1 dist.1 (ground arith) e in
    (
      t,
      m,
      at_last,
      holds,
      ground arith,
      (rw (apart_of_has c t (addresses ((c', cs') ∷ xs)) dist.0 there) l.0, linked),
    )

pub last-append :
    (d : Option ℕ) (xs : Cells) (a : ℕ) (bs : List ℕ) → last_or d (xs ++ (a, bs) ∷ []) ≡ some a
last-append d [] a bs = refl
last-append d ((c, cs) ∷ xs) a bs = last-append (some c) xs a bs

pub Distinct-append :
    (xs : Cells) (a : ℕ) (bs : List ℕ)
    → Distinct (addresses xs)
    → has a (addresses xs) ≡ false
    → Distinct (addresses (xs ++ (a, bs) ∷ []))
Distinct-append [] a bs d new = (refl, tt)
Distinct-append ((c, cs) ∷ xs) a bs d new = (
  ground (arith, has-addresses_append c xs a bs, has-append c (addresses xs) (a ∷ [])),
  Distinct-append xs a bs d.1 (ground arith),
)

pub bytes-append : (xs : Cells) (a : ℕ) (bs : List ℕ) → bytes (xs ++ (a, bs) ∷ []) ≡ bytes xs ++ bs
bytes-append [] a bs = append-nil bs
bytes-append ((c, cs) ∷ xs) a bs = rw (bytes-append xs a bs) (sym (append_assoc cs (bytes xs) bs))

-- The buffer and the pool after the new message has been linked.
abbrev pub Links :
    DataBuffer → MessagePool → Cells → List ℕ → ℕ → List ℕ → Run (DataBuffer × MessagePool) → Type 0
Links db mp xs fs a bs run =
    (db' : DataBuffer) × (mp' : MessagePool) × (run ≡ ok (db', mp'))
    × Linked mp'.cell (xs ++ (a, bs) ∷ [])
    × (db'.head ≡ first (xs ++ (a, bs) ∷ []))
    × (db'.tail ≡ some a)
    × (db'.size ≡ db.size)
    × (db'.offset ≡ db.offset)
    × (db'.header ≡ db.header)
    × (mp'.pool ≡ mp.pool)
    × (mp'.freelist ≡ mp.freelist)
    × ((b : ℕ) → has b (addresses xs) ≡ false → mp'.cell b ≡ mp.cell b)

pub link_tail-Links :
    (db : DataBuffer) (mp : MessagePool) (xs : Cells) (fs : List ℕ) (a : ℕ) (bs : List ℕ)
    → db.head ≡ first xs
    → db.tail ≡ last xs
    → Linked mp.cell xs
    → Distinct (addresses xs)
    → has a (addresses xs) ≡ false
    → mp.cell a ≡ some (message (some bs) (length bs) none)
    → Links db mp xs fs a bs (link_tail db mp a)
unfolding link_tail
link_tail-Links db mp [] fs a bs head tail l d new e = (
  record db { head = some a; tail = some a },
  mp,
  rw (head, tail) refl,
  (e, tt),
  refl,
  refl,
  refl,
  refl,
  refl,
  refl,
  refl,
  λ b h. refl,
)
link_tail-Links db mp ((c, cs) ∷ xs) fs a bs head tail l d new e =
    let (t, m, at_last, holds, there, linked) = link-append mp.cell none c cs xs a bs l d new e in
    (
      record db { tail = some a },
      store mp t (record m { next = some a }),
      rw (head, tail, at_last, load-ok mp t m holds) refl,
      linked,
      head,
      refl,
      refl,
      refl,
      refl,
      refl,
      refl,
      λ b h. rw (apart_of_has b t (addresses ((c, cs) ∷ xs)) h there) refl,
    )
