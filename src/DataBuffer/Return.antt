-- ===== src/DataBuffer/Return.antt =====
-- _return_message: the first message leaves the buffer for the free list.
use myprogram.Prelude.{
  ℕ, ◌≡◌, refl, false, none, some, List, [], ◌∷◌, arith, has, ok, length, ==_refl,
}
use myprogram.DataBuffer.{
  Message, message, DataBuffer, MessagePool, load, store, drop_head, return_message,
}
use myprogram.DataBuffer.Invariant.{
  Cells, first, last, last_or, Chained, Untouched, Linked-same, Free-same,
}

abbrev pub shorter : DataBuffer → Cells → DataBuffer
shorter db xs = record db { head = first xs; tail = last xs }

abbrev pub returned : MessagePool → ℕ → MessagePool
returned mp a = record (store mp a (message none 0 mp.freelist)) { freelist = some a }

pub load-ok :
    (mp : MessagePool) (a : ℕ) (m : Message) → mp.cell a ≡ some m → load mp (some a) ≡ ok (a, m)
unfolding load
load-ok mp a m e = rw (e, load)

pub load-first :
    {db : DataBuffer} {mp : MessagePool} {fs : List ℕ} (a : ℕ) (bs : List ℕ) (xs : Cells)
    → Chained db mp ((a, bs) ∷ xs) fs
    → load mp db.head ≡ ok (a, message (some bs) (length bs) (first xs))
unfolding load
load-first a bs xs c = rw (c.head, c.linked.0)

drop_head-shorter :
    (db : DataBuffer) (a : ℕ) (xs : Cells)
    → db.tail ≡ last_or (some a) xs
    → drop_head db a (first xs) ≡ ok (shorter db xs)
unfolding drop_head
drop_head-shorter db a [] e = rw (e, ==_refl a)
drop_head-shorter db a ((c, cs) ∷ xs) e = rw (← e) refl

module _ {db : DataBuffer} {mp : MessagePool} {fs : List ℕ} (a : ℕ) (bs : List ℕ) (xs : Cells)
    (c : Chained db mp ((a, bs) ∷ xs) fs) where
  pub return_message-run : return_message db mp ≡ ok (shorter db xs, returned mp a)
  unfolding return_message
  return_message-run = rw (load-first a bs xs c, drop_head-shorter db a xs c.tail)

  pub return_message-Chained : Chained (shorter db xs) (returned mp a) xs (a ∷ fs)
  return_message-Chained =
      let new : has a fs ≡ false = c.apart a (ground arith) in
      record {
        linked =
            Linked-same {f = mp.cell} {g = (returned mp a).cell} xs
              (λ b h. ground (arith, c.distinct)) c.linked.1;
        free = (
          ground (arith, c.freelist),
          Free-same {f = mp.cell} {g = (returned mp a).cell} fs (λ b h. ground arith) c.free,
        );
        head = refl;
        tail = refl;
        freelist = refl;
        distinct = c.distinct.1;
        free_distinct = (new, c.free_distinct);
        apart = λ b h. ground (arith, c.distinct, c.apart b);
        below = λ b h. c.below b (ground arith);
        free_below = λ b h. ground (arith, c.free_below b, c.below a);
      }

  pub return_message-Untouched : Untouched mp (returned mp a) ((a, bs) ∷ xs) fs xs (a ∷ fs)
  return_message-Untouched = (omega arith, λ b h free l. (ground arith, ground arith, ground arith))
