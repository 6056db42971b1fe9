-- ===== src/DataBuffer.antt =====
-- skynet_test/skynet/mytest/gate/databuffer.h: the bytes received from a connection, as a list of
-- messages that come from a pool. An address names a cell of the pool: `1023 * k + i` is entry i of
-- the k-th block that the pool has taken from skynet_malloc, so a pointer is an `Option ℕ` with
-- `none` for NULL. An int is its 32-bit pattern.
pub mod Invariant
pub mod Return
pub mod Read
pub mod Block
pub mod Push
pub mod Pushing
pub mod Clear
pub mod Reading
use myprogram.Prelude.{
  ℕ, zero, suc, ◌+◌, ◌-◌, ◌*◌, ◌/◌, ◌%◌, ◌^◌, Bool, true, false, Option, none, some, List, [], ◌∷◌,
  ◌++◌, ltb, leb, ◌==◌, if◌then◌else◌, is_null, Run, ok, fault, out_of_fuel, ◌>>=◌, ◌>>◌, assert,
  update, take, drop, length,
}

abbrev pub message_pool : ℕ
message_pool = 1023

pub record Message : Type 0 where
  pub buffer : Option (List ℕ)
  pub size : ℕ
  pub next : Option ℕ

abbrev pub message : Option (List ℕ) → ℕ → Option ℕ → Message
message bs n q = record { buffer = bs; size = n; next = q }

pub record DataBuffer : Type 0 where
  pub header : ℕ
  pub offset : ℕ
  pub size : ℕ
  pub head : Option ℕ
  pub tail : Option ℕ

-- `pool` counts the blocks, `cell` is what they hold.
pub record MessagePool : Type 0 where
  pub pool : ℕ
  pub freelist : Option ℕ
  pub cell : ℕ → Option Message

abbrev pub empty_buffer : DataBuffer
empty_buffer = record { header = 0; offset = 0; size = 0; head = none; tail = none }

abbrev pub empty_pool : MessagePool
empty_pool = record { pool = 0; freelist = none; cell = λ _. none }

-- `*p`
unfoldable pub load : MessagePool → Option ℕ → Run (ℕ × Message)
load mp none = fault
load mp (some a) = elim (mp.cell a) [ none ↦ fault | some m ↦ ok (a, m) ]

abbrev pub store : MessagePool → ℕ → Message → MessagePool
store mp a m = record mp { cell = update mp.cell a (some m) }

-- skynet_free of the k-th block.
abbrev pub free_block : ℕ → (ℕ → Option Message) → ℕ → Option Message
free_block k f a = if a / message_pool == k then none else f a

-- The loop of messagepool_free over the `n` blocks that are left, the last one taken first.
unfoldable pub free_blocks : ℕ → (ℕ → Option Message) → ℕ → Option Message
free_blocks zero f = f
free_blocks (suc n) f = free_blocks n (free_block n f)

unfoldable pub messagepool_free : MessagePool → MessagePool
messagepool_free mp = record { pool = 0; freelist = none; cell = free_blocks mp.pool mp.cell }

abbrev pub is_at : ℕ → Option ℕ → Bool
is_at a none = false
is_at a (some b) = a == b

-- `m->next == NULL` or not.
unfoldable pub drop_head : DataBuffer → ℕ → Option ℕ → Run DataBuffer
drop_head db a none = assert (is_at a db.tail) >> ok (record db { head = none; tail = none })
drop_head db a (some q) = ok (record db { head = some q })

unfoldable pub return_message : DataBuffer → MessagePool → Run (DataBuffer × MessagePool)
return_message db mp = do
  (a, m) ← load mp db.head
  db' ← drop_head db a m.next
  ok (db', record (store mp a (message none 0 mp.freelist)) { freelist = some a })

-- `memcpy(buffer, p + offset, n)` as the bytes that it copies.
unfoldable pub memcpy : Option (List ℕ) → ℕ → ℕ → Run (List ℕ)
memcpy none offset n = fault
memcpy (some bs) offset n = assert (leb (offset + n) (length bs)) >> ok (take n (drop offset bs))

-- The loop of databuffer_read. A message whose size is below the offset would make `bsz` negative,
-- and memcpy would be called with that length.
unfoldable pub read_loop :
    ℕ → DataBuffer → MessagePool → ℕ → Run (DataBuffer × MessagePool × List ℕ)
read_loop zero db mp sz = out_of_fuel
read_loop (suc k) db mp sz = do
  (_, m) ← load mp db.head
  assert (leb db.offset m.size)
  let bsz = m.size - db.offset
  if ltb sz bsz
      then (do
        part ← memcpy m.buffer db.offset sz
        ok (record db { offset = db.offset + sz }, mp, part))
      else (if bsz == sz
          then (do
            part ← memcpy m.buffer db.offset sz
            (db', mp') ← return_message (record db { offset = 0 }) mp
            ok (db', mp', part))
          else (do
            part ← memcpy m.buffer db.offset bsz
            (db', mp') ← return_message db mp
            (db'', mp'', rest) ← read_loop k (record db' { offset = 0 }) mp' (sz - bsz)
            ok (db'', mp'', part ++ rest)))

-- A list of messages holds a cell at most once, so a round for each cell and one more are enough.
unfoldable pub databuffer_read :
    DataBuffer → MessagePool → ℕ → Run (DataBuffer × MessagePool × List ℕ)
databuffer_read db mp sz = do
  assert (leb sz db.size)
  read_loop (suc (message_pool * mp.pool)) (record db { size = db.size - sz }) mp sz

-- The loop over the cells of a block, `n` rounds from the cell `a` on.
unfoldable pub fill : ℕ → ℕ → (ℕ → Option Message) → ℕ → Option Message
fill zero a f = f
fill (suc n) a f = fill n (suc a) (update f a (some (message none 0 (some (suc a)))))

-- A block of its own: entry 0 is the message that is used, the others become the free list.
unfoldable pub new_block : MessagePool → ℕ × MessagePool
new_block mp =
    let base = message_pool * mp.pool in
    let cells = fill (message_pool - 1) (suc base) mp.cell in
    let last = base + (message_pool - 1) in
    (
      base,
      record {
        pool = mp.pool + 1;
        freelist = some (suc base);
        cell = update cells last (some (message none 0 none));
      },
    )

unfoldable pub take_message : MessagePool → Run (ℕ × MessagePool)
take_message mp = elim mp.freelist [
  | none ↦ ok (new_block mp)
  | some a ↦ do (_, m) ← load mp (some a); ok (a, record mp { freelist = m.next })
]

-- The new message `a` goes behind the last one.
unfoldable pub link_tail : DataBuffer → MessagePool → ℕ → Run (DataBuffer × MessagePool)
link_tail db mp a = elim db.head [
  | none ↦ elim db.tail [
    | none ↦ ok (record db { head = some a; tail = some a }, mp)
    | some _ ↦ fault
  ]
  | some _ ↦ do
    (t, m) ← load mp db.tail
    ok (record db { tail = some a }, store mp t (record m { next = some a }))
]

-- `db->size + sz` must fit an int.
unfoldable pub databuffer_push :
    DataBuffer → MessagePool → List ℕ → ℕ → Run (DataBuffer × MessagePool)
databuffer_push db mp bytes sz = do
  (a, mp') ← take_message mp
  assert (ltb (db.size + sz) (2 ^ 31))
  link_tail (record db { size = db.size + sz }) (store mp' a (message (some bytes) sz none)) a

-- A signed order between two 32-bit patterns.
abbrev pub int_lt : ℕ → ℕ → Bool
int_lt a b = ltb ((a + 2 ^ 31) % 2 ^ 32) ((b + 2 ^ 31) % 2 ^ 32)

-- `plen`, of which `header_size` bytes have been read; others would be read uninitialised. A first
-- byte from 0x80 on is shifted into the sign of the int, as GCC defines it.
unfoldable pub decode : ℕ → List ℕ → Run ℕ
decode header_size (b0 ∷ b1 ∷ []) = if header_size == 2 then ok (b0 * 2 ^ 8 + b1) else fault
decode header_size (b0 ∷ b1 ∷ b2 ∷ b3 ∷ []) =
    if header_size == 4 then ok (b0 * 2 ^ 24 + b1 * 2 ^ 16 + b2 * 2 ^ 8 + b3) else fault
decode header_size _ = fault

-- Whether the message that the header announces is there; -1 is its pattern.
unfoldable pub announced : DataBuffer → ℕ
announced db = if int_lt db.size db.header then 2 ^ 32 - 1 else db.header

unfoldable pub databuffer_readheader :
    DataBuffer → MessagePool → ℕ → Run (DataBuffer × MessagePool × ℕ)
databuffer_readheader db mp header_size =
    if db.header == 0
    then (if ltb db.size header_size then ok (db, mp, 2 ^ 32 - 1) else (do
      (db', mp', plen) ← databuffer_read db mp header_size
      header ← decode header_size plen
      let db'' = record db' { header = header }
      ok (db'', mp', announced db'')))
    else ok (db, mp, announced db)

unfoldable pub databuffer_reset : DataBuffer → DataBuffer
databuffer_reset db = record db { header = 0 }

unfoldable pub clear_loop : ℕ → DataBuffer → MessagePool → Run (DataBuffer × MessagePool)
clear_loop zero db mp = out_of_fuel
clear_loop (suc k) db mp =
    let rest = (do (db', mp') ← return_message db mp; clear_loop k db' mp') in
    if is_null db.head then ok (db, mp) else rest

unfoldable pub databuffer_clear : DataBuffer → MessagePool → Run (DataBuffer × MessagePool)
databuffer_clear db mp = do
  (_, mp') ← clear_loop (suc (message_pool * mp.pool)) db mp
  ok (empty_buffer, mp')
