-- ===== src/DataBuffer/Reading.antt =====
-- databuffer_read on a buffer that is well formed.
use myprogram.Prelude.{
  ℕ, suc, ◌+◌, ◌-◌, ◌*◌, ◌≤◌, ◌<◌, ◌≡◌, refl, ap, true, ◌||◌, List, [], ◌∷◌, arith, leb, ok, take,
  drop, length, has, length-append, length-drop, length-le_of_Below, Below-of_has,
}
use myprogram.DataBuffer.{DataBuffer, MessagePool, message_pool, databuffer_read}
use myprogram.DataBuffer.Invariant.{
  Cells, addresses, bytes, first_length, Chained, Chained-of_ends, Holds, pending, Untouched,
  GivenBack,
}
use myprogram.DataBuffer.Read.{read_loop-Reads}

length-addresses : (xs : Cells) → length (addresses xs) ≡ length xs
length-addresses [] = refl
length-addresses ((a, bs) ∷ xs) = omega (arith, length-addresses xs)

pub first_length-le : (xs : Cells) → first_length xs ≤ length (bytes xs)
first_length-le [] = omega arith
first_length-le ((a, bs) ∷ xs) = omega (arith, length-append bs (bytes xs))

size_after :
    (sz size size' : ℕ) (db db' : DataBuffer) (xs xs' : Cells)
    → db'.offset ≤ first_length xs'
    → pending db' xs' ≡ drop sz (pending db xs)
    → size' ≡ size - sz
    → sz ≤ size
    → size + db.offset ≡ length (bytes xs)
    → size' + db'.offset ≡ length (bytes xs')
size_after sz size size' db db' xs xs' inside left e enough total = omega (
  arith,
  ap length left,
  length-drop db'.offset (bytes xs'),
  length-drop sz (pending db xs),
  length-drop db.offset (bytes xs),
  first_length-le xs',
)

module _ {db : DataBuffer} {mp : MessagePool} {xs : Cells} {fs : List ℕ} where
  pub chain_length : Chained db mp xs fs → length xs < suc (message_pool * mp.pool)
  chain_length c = omega (
    arith,
    length-addresses xs,
    length-le_of_Below (message_pool * mp.pool) (addresses xs) c.distinct
        (Below-of_has (message_pool * mp.pool) (addresses xs) c.below),
  )

  pub length-pending : Holds db mp xs fs → length (pending db xs) ≡ db.size
  length-pending v = omega (arith, length-drop db.offset (bytes xs), v.size)

  -- databuffer_read of at least one byte and no more than the buffer has: it ends, yields the first
  -- bytes that are pending and leaves the others pending, in a buffer that is well formed. It keeps
  -- the header and takes no block; the buffer and the free list have the same cells together as
  -- before, and no other cell of the pool changes. Messages leave the front of the buffer for the
  -- front of the free list, in their order; of the first message that stays nothing has been read,
  -- or a byte is left.
  pub databuffer_read-Holds :
      (sz : ℕ)
      → Holds db mp xs fs
      → 0 < sz
      → sz ≤ db.size
      → (db' : DataBuffer) × (mp' : MessagePool) × (xs' : Cells) × (fs' : List ℕ) × (databuffer_read
            db mp sz
          ≡ ok (db', mp', take sz (pending db xs)))
        × Holds db' mp' xs' fs'
        × (pending db' xs' ≡ drop sz (pending db xs))
        × (db'.header ≡ db.header)
        × (mp'.pool ≡ mp.pool)
        × Untouched mp mp' xs fs xs' fs'
        × ((b : ℕ) → (has b (addresses xs') || has b fs') ≡ (has b (addresses xs) || has b fs))
        × GivenBack db'.offset xs fs xs' fs'
  unfolding databuffer_read
  databuffer_read-Holds sz v some_bytes enough =
      let c = Chained-of_ends {db' = record db { size = db.size - sz }} v.chained refl refl in
      let (db', mp', xs', fs', run, c', inside, left, size, header, pool, same, cells, back) =
        read_loop-Reads (suc (message_pool * mp.pool)) sz xs c v.offset_le (chain_length v.chained)
          some_bytes (omega (arith, v.size)) in
      let ready : leb sz db.size ≡ true = ground arith in
      (
        db',
        mp',
        xs',
        fs',
        rw ready run,
        record {
          chained = c';
          offset_le = inside;
          size = size_after sz db.size db'.size db db' xs xs' inside left size enough v.size;
          fits = omega (arith, size, v.fits);
        },
        left,
        header,
        pool,
        same,
        cells,
        back,
      )
