-- ===== src/Examples/Buffer.antt =====
-- A buffer of databuffer.h with the messages 1 2 3, of which the 1 has been read, and 4 5.
use myprogram.Prelude.{
  ℕ, ◌≡◌, refl, ◌||◌, none, some, List, [], ◌∷◌, arith, ◌==◌, if◌then◌else◌, ok, has,
}
use myprogram.DataBuffer.{DataBuffer, MessagePool, message, databuffer_read, databuffer_push}
use myprogram.DataBuffer.Invariant.{Cells, addresses, Chained, Holds, pending, Untouched, GivenBack}
use myprogram.DataBuffer.Reading.{databuffer_read-Holds}
use myprogram.DataBuffer.Pushing.{databuffer_push-Holds}

abbrev pub two_messages : MessagePool
two_messages = record {
  pool = 1;
  freelist = some 2;
  cell = λ b.
      if b == 0
      then some (message (some (1 ∷ 2 ∷ 3 ∷ [])) 3 (some 1))
      else (if b == 1
          then some (message (some (4 ∷ 5 ∷ [])) 2 none)
          else some (message none 0 none));
}

abbrev pub buffer : DataBuffer
buffer = record { header = 0; offset = 1; size = 4; head = some 0; tail = some 1 }

abbrev pub cells : Cells
cells = (0, 1 ∷ 2 ∷ 3 ∷ []) ∷ (1, 4 ∷ 5 ∷ []) ∷ []

buffer-Chained : Chained buffer two_messages cells (2 ∷ [])
buffer-Chained = record {
  linked = (refl, (refl, tt));
  free = (refl, tt);
  head = refl;
  tail = refl;
  freelist = refl;
  distinct = (refl, (refl, tt));
  free_distinct = (refl, tt);
  apart = λ b h. ground arith;
  below = λ b h. ground arith;
  free_below = λ b h. ground arith;
}

pub buffer-Holds : Holds buffer two_messages cells (2 ∷ [])
buffer-Holds = record {
  chained = buffer-Chained;
  offset_le = omega arith;
  size = refl;
  fits = omega arith;
}

databuffer_read-Holds_example :
    (db' : DataBuffer) × (mp' : MessagePool) × (xs' : Cells) × (fs' : List ℕ) × (databuffer_read
        buffer two_messages 3
      ≡ ok (db', mp', 2 ∷ 3 ∷ 4 ∷ []))
    × Holds db' mp' xs' fs'
    × (pending db' xs' ≡ 5 ∷ [])
    × (db'.header ≡ 0)
    × (mp'.pool ≡ 1)
    × Untouched two_messages mp' cells (2 ∷ []) xs' fs'
    × ((b : ℕ) → (has b (addresses xs') || has b fs') ≡ (has b (addresses cells) || has b (2 ∷ [])))
    × GivenBack db'.offset cells (2 ∷ []) xs' fs'
databuffer_read-Holds_example = databuffer_read-Holds 3 buffer-Holds (omega arith) (omega arith)

databuffer_push-Holds_example :
    (db' : DataBuffer) × (mp' : MessagePool) × (xs' : Cells) × (fs' : List ℕ) × (databuffer_push
        buffer two_messages
        (6 ∷ 7 ∷ [])
        2
      ≡ ok (db', mp'))
    × Holds db' mp' xs' fs'
    × (pending db' xs' ≡ 2 ∷ 3 ∷ 4 ∷ 5 ∷ 6 ∷ 7 ∷ [])
    × (db'.header ≡ 0)
    × Untouched two_messages mp' cells (2 ∷ []) xs' fs'
databuffer_push-Holds_example = databuffer_push-Holds buffer-Holds (6 ∷ 7 ∷ []) (omega arith)
