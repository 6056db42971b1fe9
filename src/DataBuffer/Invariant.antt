-- ===== src/DataBuffer/Invariant.antt =====
-- The lists that the pointers of databuffer.h make: the messages of a buffer, and the free cells.
use myprogram.Prelude.{
  ℕ, ◌+◌, ◌*◌, ◌^◌, ◌≤◌, ◌<◌, ◌≡◌, ◌⊎◌, refl, ◌∙◌, true, false, Option, none, some, List, [], ◌∷◌,
  ◌++◌, arith, head?, has, length, drop, Distinct,
}
use myprogram.DataBuffer.{
  Message, message, DataBuffer, MessagePool, message_pool, empty_buffer, empty_pool,
}

-- A message: the address of its cell, and its bytes.
abbrev pub Cells : Type 0
Cells = List (ℕ × List ℕ)

abbrev pub first : Cells → Option ℕ
first [] = none
first ((a, _) ∷ xs) = some a

abbrev pub last_or : Option ℕ → Cells → Option ℕ
last_or d [] = d
last_or d ((a, _) ∷ xs) = last_or (some a) xs

abbrev pub last : Cells → Option ℕ
last xs = last_or none xs

abbrev pub addresses : Cells → List ℕ
addresses [] = []
addresses ((a, _) ∷ xs) = a ∷ addresses xs

abbrev pub bytes : Cells → List ℕ
bytes [] = []
bytes ((_, bs) ∷ xs) = bs ++ bytes xs

abbrev pub first_length : Cells → ℕ
first_length [] = 0
first_length ((_, bs) ∷ xs) = length bs

abbrev pub Linked : (ℕ → Option Message) → Cells → Type 0
Linked f [] = Unit {0}
Linked f ((a, bs) ∷ xs) = (f a ≡ some (message (some bs) (length bs) (first xs))) × Linked f xs

abbrev pub Free : (ℕ → Option Message) → List ℕ → Type 0
Free f [] = Unit {0}
Free f (a ∷ is) = (f a ≡ some (message none 0 (head? is))) × Free f is

pub record Chained (db : DataBuffer) (mp : MessagePool) (xs : Cells) (fs : List ℕ) : Type 0 where
  pub linked : Linked mp.cell xs
  pub free : Free mp.cell fs
  pub head : db.head ≡ first xs
  pub tail : db.tail ≡ last xs
  pub freelist : mp.freelist ≡ head? fs
  pub distinct : Distinct (addresses xs)
  pub free_distinct : Distinct fs
  pub apart : (b : ℕ) → has b (addresses xs) ≡ true → has b fs ≡ false
  pub below : (b : ℕ) → has b (addresses xs) ≡ true → b < message_pool * mp.pool
  pub free_below : (b : ℕ) → has b fs ≡ true → b < message_pool * mp.pool

-- The bytes that have been received and not read.
abbrev pub pending : DataBuffer → Cells → List ℕ
pending db xs = drop db.offset (bytes xs)

pub record Holds (db : DataBuffer) (mp : MessagePool) (xs : Cells) (fs : List ℕ) : Type 0 where
  pub chained : Chained db mp xs fs
  pub offset_le : db.offset ≤ first_length xs
  pub size : db.size + db.offset ≡ length (bytes xs)
  pub fits : db.size < 2 ^ 31

-- From a buffer `xs` with the free list `fs` to `xs'` with `fs'`: cells of the pool that belong to
-- neither stay as they are and come to belong to neither. The pool gives no block back.
abbrev pub Untouched : MessagePool → MessagePool → Cells → List ℕ → Cells → List ℕ → Type 0
Untouched mp mp' xs fs xs' fs' =
    (mp.pool ≤ mp'.pool)
    × ((b : ℕ)
        → has b (addresses xs) ≡ false
        → has b fs ≡ false
        → b < message_pool * mp.pool
        → (mp'.cell b ≡ mp.cell b) × (has b (addresses xs') ≡ false) × (has b fs' ≡ false))

-- The free list once cells have been put in front of it, one after the other.
abbrev pub put_back : List ℕ → List ℕ → List ℕ
put_back [] fs = fs
put_back (a ∷ is) fs = put_back is (a ∷ fs)

-- From the messages `xs` those in front have left for the free list; of the first of the others
-- nothing has been read, or there is a byte left.
abbrev pub GivenBack : ℕ → Cells → List ℕ → Cells → List ℕ → Type 0
GivenBack offset xs fs xs' fs' =
    (front : Cells) × (xs ≡ front ++ xs')
    × (fs' ≡ put_back (addresses front) fs)
    × ((offset ≡ 0) ⊎ (offset < first_length xs'))

pub Untouched-trans :
    (mp0 mp1 mp2 : MessagePool) (xs0 xs1 xs2 : Cells) (fs0 fs1 fs2 : List ℕ)
    → Untouched mp0 mp1 xs0 fs0 xs1 fs1
    → Untouched mp1 mp2 xs1 fs1 xs2 fs2
    → Untouched mp0 mp2 xs0 fs0 xs2 fs2
Untouched-trans mp0 mp1 mp2 xs0 xs1 xs2 fs0 fs1 fs2 u v = (
  omega (arith, u.0, v.0),
  λ b h f l.
      let (e, h', f') = u.1 b h f l in
      let (e', h'', f'') = v.1 b h' f' (omega (arith, u.0)) in (e' ∙ e, h'', f''),
)

pub Linked-same :
    {f g : ℕ → Option Message} (xs : Cells)
    → ((b : ℕ) → has b (addresses xs) ≡ true → g b ≡ f b)
    → Linked f xs
    → Linked g xs
Linked-same [] same l = tt
Linked-same ((a, bs) ∷ xs) same l =
    (ground (arith, same a), Linked-same xs (λ b h. same b (ground arith)) l.1)

pub Free-same :
    {f g : ℕ → Option Message} (is : List ℕ)
    → ((b : ℕ) → has b is ≡ true → g b ≡ f b)
    → Free f is
    → Free g is
Free-same [] same l = tt
Free-same (a ∷ is) same l =
    (ground (arith, same a), Free-same is (λ b h. same b (ground arith)) l.1)

pub has-addresses_append :
    (b : ℕ) (xs : Cells) (a : ℕ) (bs : List ℕ)
    → has b (addresses (xs ++ (a, bs) ∷ [])) ≡ has b (addresses xs ++ a ∷ [])
has-addresses_append b [] a bs = refl
has-addresses_append b ((c, cs) ∷ xs) a bs = ground (arith, has-addresses_append b xs a bs)

-- Only the two ends of a buffer matter to its chain.
pub Chained-of_ends :
    {db db' : DataBuffer} {mp : MessagePool} {xs : Cells} {fs : List ℕ}
    → Chained db mp xs fs
    → db'.head ≡ db.head
    → db'.tail ≡ db.tail
    → Chained db' mp xs fs
Chained-of_ends c h t = record {
  linked = c.linked;
  free = c.free;
  head = h ∙ c.head;
  tail = t ∙ c.tail;
  freelist = c.freelist;
  distinct = c.distinct;
  free_distinct = c.free_distinct;
  apart = c.apart;
  below = c.below;
  free_below = c.free_below;
}

pub Holds-of_header :
    {db : DataBuffer} {mp : MessagePool} {xs : Cells} {fs : List ℕ} (h : ℕ)
    → Holds db mp xs fs
    → Holds (record db { header = h }) mp xs fs
Holds-of_header h v = record {
  chained = Chained-of_ends v.chained refl refl;
  offset_le = v.offset_le;
  size = v.size;
  fits = v.fits;
}

-- An empty buffer over a pool that has no block.
pub empty_buffer-Holds : Holds empty_buffer empty_pool [] []
empty_buffer-Holds = record {
  chained = record {
    linked = tt;
    free = tt;
    head = refl;
    tail = refl;
    freelist = refl;
    distinct = tt;
    free_distinct = tt;
    apart = λ b h. refl;
    below = λ b h. absurd (cc h);
    free_below = λ b h. absurd (cc h);
  };
  offset_le = omega arith;
  size = refl;
  fits = omega arith;
}
