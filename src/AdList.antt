-- ===== src/AdList.antt =====
-- redis3.0_learn/adlist/adlist.c and adlist.h: a doubly linked list of values. A pointer to a node
-- is an `Option ℕ`, `none` for NULL; a value is the number of its pointer. malloc is a parameter:
-- from a heap, the address that it hands out, `none` if it has no memory.
pub mod Chain
pub mod Head
pub mod Search
pub mod Segment
pub mod Link
pub mod Ends
pub mod Insertion
pub mod Tail
pub mod Removal
pub mod Rotation
pub mod Iteration
pub mod Purge
pub mod Access
pub mod Release
pub mod Copy
pub mod Copied
pub mod Copying
pub mod Duplicate
use myprogram.Prelude.{
  ℕ, zero, suc, ◌+◌, ◌-◌, Bool, true, false, Option, none, some, List, [], ◌∷◌, ◌^◌, ltb, assert,
  leb, ◌==◌, if◌then◌else◌, Run, ok, fault, out_of_fuel, ◌>>=◌, ◌>>◌, update,
}

pub record ListNode : Type 0 where
  pub prev : Option ℕ
  pub next : Option ℕ
  pub value : ℕ

-- The method `free` is there or not; `match` is the test that a search uses; `dup` copies a value,
-- or returns NULL.
pub record AdList : Type 0 where
  pub head : Option ℕ
  pub tail : Option ℕ
  pub len : ℕ
  pub dup : Option (ℕ → Option ℕ)
  pub has_free : Bool
  pub matches : Option (ℕ → ℕ → Bool)

-- AL_START_HEAD and AL_START_TAIL.
pub data Direction : Type 0 where
  start_head start_tail : Direction

pub record ListIter : Type 0 where
  pub next : Option ℕ
  pub direction : Direction

abbrev pub Heap : Type 0
Heap = ℕ → Option ListNode

abbrev pub node : Option ℕ → Option ℕ → ℕ → ListNode
node p q v = record { prev = p; next = q; value = v }

-- `*p`
unfoldable pub load : Heap → Option ℕ → Run (ℕ × ListNode)
load h none = fault
load h (some a) = elim (h a) [ none ↦ fault | some n ↦ ok (a, n) ]

abbrev pub store : Heap → ℕ → ListNode → Heap
store h a n = update h a (some n)

-- `if (p) p->prev = q;` and `if (p) p->next = q;`
unfoldable pub set_prev : Heap → Option ℕ → Option ℕ → Run Heap
set_prev h none q = ok h
set_prev h (some a) q = do (b, n) ← load h (some a); ok (store h b (record n { prev = q }))

unfoldable pub set_next : Heap → Option ℕ → Option ℕ → Run Heap
set_next h none q = ok h
set_next h (some a) q = do (b, n) ← load h (some a); ok (store h b (record n { next = q }))

-- The list once malloc has given it memory.
unfoldable pub list_create : AdList
list_create = record {
  head = none;
  tail = none;
  len = 0;
  dup = none;
  has_free = false;
  matches = none;
}

-- The values that have been given to `free`.
abbrev pub freed : AdList → ℕ → List ℕ → List ℕ
freed l v vs = if l.has_free then v ∷ vs else vs

unfoldable pub release_loop : ℕ → Heap → AdList → Option ℕ → Run (Heap × List ℕ)
release_loop zero h l current = ok (h, [])
release_loop (suc len) h l current = do
  (a, n) ← load h current
  (h', vs) ← release_loop len (update h a none) l n.next
  ok (h', freed l n.value vs)

unfoldable pub list_release : Heap → AdList → Run (Heap × List ℕ)
list_release h l = release_loop l.len h l l.head

-- A node at an end: the result is NULL if malloc fails.
unfoldable pub list_add_node_head :
    (Heap → Option ℕ) → Heap → AdList → ℕ → Run (Option (Heap × AdList))
list_add_node_head malloc h l value = elim (malloc h) [
  | none ↦ ok none
  | some a ↦
      let alone : Heap × AdList = (
        store h a (node none none value),
        record l { head = some a; tail = some a; len = l.len + 1 },
      ) in
      let join = (do
        let h1 = store h a (node none l.head value)
        (b, n) ← load h1 l.head
        let h' = store h1 b (record n { prev = some a })
        ok (some (h', record l { head = some a; len = l.len + 1 }))) in
      if l.len == 0 then ok (some alone) else join
]

unfoldable pub list_add_node_tail :
    (Heap → Option ℕ) → Heap → AdList → ℕ → Run (Option (Heap × AdList))
list_add_node_tail malloc h l value = elim (malloc h) [
  | none ↦ ok none
  | some a ↦
      let alone : Heap × AdList = (
        store h a (node none none value),
        record l { head = some a; tail = some a; len = l.len + 1 },
      ) in
      let join = (do
        let h1 = store h a (node l.tail none value)
        (b, n) ← load h1 l.tail
        let h' = store h1 b (record n { next = some a })
        ok (some (h', record l { tail = some a; len = l.len + 1 }))) in
      if l.len == 0 then ok (some alone) else join
]

abbrev pub points : Option ℕ → ℕ → Bool
points none a = false
points (some b) a = b == a

-- The neighbours of the new node, and the list whose end it may be, behind or in front of `old`.
unfoldable pub list_insert_node :
    (Heap → Option ℕ) → Heap → AdList → ℕ → ℕ → Bool → Run (Option (Heap × AdList))
list_insert_node malloc h l old value after = elim (malloc h) [
  | none ↦ ok none
  | some a ↦ do
    (_, o) ← load h (some old)
    let p = if after then some old else o.prev
    let q = if after then o.next else some old
    let tail = if after then (if points l.tail old then some a else l.tail) else l.tail
    let head = if after then l.head else (if points l.head old then some a else l.head)
    h1 ← set_next (store h a (node p q value)) p (some a)
    h2 ← set_prev h1 q (some a)
    ok (some (h2, record l { head = head; tail = tail; len = l.len + 1 }))
]

abbrev pub or_else : Option ℕ → Option ℕ → Option ℕ → Option ℕ
or_else none e f = e
or_else (some _) e f = f

unfoldable pub list_del_node : Heap → AdList → ℕ → Run (Heap × AdList × List ℕ)
list_del_node h l a = do
  (_, n) ← load h (some a)
  h1 ← set_next h n.prev n.next
  h2 ← set_prev h1 n.next n.prev
  let l' = record l {
    head = or_else n.prev n.next l.head;
    tail = or_else n.next n.prev l.tail;
    len = l.len - 1;
  }
  ok (update h2 a none, l', freed l n.value [])

unfoldable pub list_get_iterator : AdList → Direction → ListIter
list_get_iterator l start_head = record { next = l.head; direction = start_head }
list_get_iterator l start_tail = record { next = l.tail; direction = start_tail }

abbrev pub neighbour : Direction → ListNode → Option ℕ
neighbour start_head n = n.next
neighbour start_tail n = n.prev

unfoldable pub list_next : Heap → ListIter → Run (ListIter × Option ℕ)
list_next h iter = elim iter.next [
  | none ↦ ok (iter, none)
  | some a ↦ do
    (_, n) ← load h (some a)
    ok (record iter { next = neighbour iter.direction n }, some a)
]

-- `match(value, key)`, or the same pointer.
abbrev pub is_match : AdList → ℕ → ℕ → Bool
is_match l value key = elim l.matches [ none ↦ key == value | some test ↦ test value key ]

unfoldable pub search_loop : ℕ → Heap → AdList → ℕ → ListIter → Run (Option ℕ)
search_loop zero h l key iter = out_of_fuel
search_loop (suc k) h l key iter = do
  (iter', current) ← list_next h iter
  elim current [
    | none ↦ ok none
    | some a ↦ do
      (_, n) ← load h (some a)
      let rest = search_loop k h l key iter'
      if is_match l n.value key then ok (some a) else rest
  ]

-- A round for each node of the list, and one for its end.
unfoldable pub list_search_key : Heap → AdList → ℕ → Run (Option ℕ)
list_search_key h l key = search_loop (suc l.len) h l key (list_get_iterator l start_head)

-- `while (index-- && n)`
unfoldable pub step_on : ℕ → Heap → Direction → Option ℕ → Run (Option ℕ)
step_on zero h d p = ok p
step_on (suc index) h d none = ok none
step_on (suc index) h d (some a) = do (_, n) ← load h (some a); step_on index h d (neighbour d n)

-- The index is a long, as its 64-bit pattern: it is negative from 2 ^ 63 on. `-index` is no long for
-- the least one.
unfoldable pub list_index : Heap → AdList → ℕ → Run (Option ℕ)
list_index h l index =
    if ltb index (2 ^ 63)
    then step_on index h start_head l.head
    else (assert (ltb (2 ^ 63) index)
        >> (let back = 2 ^ 64 - index - 1 in step_on back h start_tail l.tail))

unfoldable pub list_rewind : AdList → ListIter
list_rewind l = record { next = l.head; direction = start_head }

unfoldable pub list_rewind_tail : AdList → ListIter
list_rewind_tail l = record { next = l.tail; direction = start_tail }

unfoldable pub list_rotate : Heap → AdList → Run (Heap × AdList)
list_rotate h l =
    let turn = (do
      (a, t) ← load h l.tail
      (p, m) ← load h t.prev
      let h1 = store h p (record m { next = none })
      (_, t1) ← load h1 (some a)
      let h2 = store h1 a (record t1 { next = l.head; prev = none })
      (b, n) ← load h2 l.head
      ok (store h2 b (record n { prev = some a }), record l { head = some a; tail = t.prev })) in
    if leb l.len 1 then ok (h, l) else turn
