-- ===== src/DataBuffer/Clear.antt =====
-- databuffer_clear: every message goes back to the free list.
use myprogram.Prelude.{
  ℕ, zero, suc, ◌*◌, ◌<◌, ◌≡◌, refl, sym, true, false, ◌||◌, List, [], ◌∷◌, arith, has, is_null,
  length, Run, ok,
}
use myprogram.DataBuffer.{
  DataBuffer, MessagePool, message_pool, empty_buffer, clear_loop, databuffer_clear,
}
use myprogram.DataBuffer.Invariant.{
  Cells, addresses, Chained, Chained-of_ends, Holds, Untouched, Untouched-trans,
}
use myprogram.DataBuffer.Return.{
  returned, return_message-run, return_message-Chained, return_message-Untouched,
}
use myprogram.DataBuffer.Reading.{chain_length}

abbrev Cleared : MessagePool → Cells → List ℕ → Run (DataBuffer × MessagePool) → Type 0
Cleared mp xs fs run =
    (db' : DataBuffer) × (mp' : MessagePool) × (fs' : List ℕ) × (run ≡ ok (db', mp'))
    × Chained empty_buffer mp' [] fs'
    × ((b : ℕ) → has b fs' ≡ (has b (addresses xs) || has b fs))
    × (mp'.pool ≡ mp.pool)
    × Untouched mp mp' xs fs [] fs'

null :
    {db : DataBuffer} {mp : MessagePool} {fs : List ℕ}
    → Chained db mp [] fs
    → is_null db.head ≡ true
null c = ground (arith, c.head)

not_null :
    {db : DataBuffer} {mp : MessagePool} {fs : List ℕ} {a : ℕ} {bs : List ℕ} {xs : Cells}
    → Chained db mp ((a, bs) ∷ xs) fs
    → is_null db.head ≡ false
not_null c = ground (arith, c.head)

clear_loop-Cleared :
    (k : ℕ) {db : DataBuffer} {mp : MessagePool} {fs : List ℕ} (xs : Cells)
    → Chained db mp xs fs
    → length xs < k
    → Cleared mp xs fs (clear_loop k db mp)
unfolding clear_loop
clear_loop-Cleared zero xs c fuel = absurd (omega arith)
clear_loop-Cleared (suc k) {db} {mp} {fs} [] c fuel = (
  db,
  mp,
  fs,
  rw (null c) refl,
  Chained-of_ends c (sym c.head) (sym c.tail),
  λ b. refl,
  refl,
  (omega arith, λ b h f l. (refl, refl, f)),
)
clear_loop-Cleared (suc k) {db} {mp} {fs} ((a, bs) ∷ xs) c fuel =
    let (db', mp', fs', run, c', all, pool, same) =
      clear_loop-Cleared k xs (return_message-Chained a bs xs c) (omega arith) in
    (
      db',
      mp',
      fs',
      rw (not_null c, return_message-run a bs xs c) run,
      c',
      λ b. ground (arith, all b),
      pool,
      Untouched-trans mp (returned mp a) mp' ((a, bs) ∷ xs) xs [] fs (a ∷ fs) fs'
          (return_message-Untouched a bs xs c) same,
    )

-- databuffer_clear of a well-formed buffer ends, leaves it empty, and makes the free list hold just
-- the cells that it held and those of the buffer. It takes no block and changes no other cell.
pub databuffer_clear-Holds :
    {db : DataBuffer} {mp : MessagePool} {xs : Cells} {fs : List ℕ}
    → Holds db mp xs fs
    → (mp' : MessagePool) × (fs' : List ℕ) × (databuffer_clear db mp ≡ ok (empty_buffer, mp'))
      × Holds empty_buffer mp' [] fs'
      × ((b : ℕ) → has b fs' ≡ (has b (addresses xs) || has b fs))
      × (mp'.pool ≡ mp.pool)
      × Untouched mp mp' xs fs [] fs'
unfolding databuffer_clear
databuffer_clear-Holds {mp} {xs} v =
    let (db', mp', fs', run, c', all, pool, same) =
      clear_loop-Cleared (suc (message_pool * mp.pool)) xs v.chained (chain_length v.chained) in
    (
      mp',
      fs',
      rw run refl,
      record { chained = c'; offset_le = omega arith; size = omega arith; fits = omega arith },
      all,
      pool,
      same,
    )
