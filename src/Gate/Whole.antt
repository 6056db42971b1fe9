-- ===== src/Gate/Whole.antt =====
-- What holds of the gate between two messages: the id table, and the buffers of all connections over
-- the one pool that they share.
use myprogram.Prelude.{
  ℕ, ◌<◌, ◌≡◌, ◌≢◌, sym, ◌∙◌, inl, inr, true, false, some, List, arith, ◌==◌, ok, has, update,
  ==_ne, ==-cases, Bool-cases,
}
use myprogram.HashId.{lookup}
use myprogram.HashId.Invariant.{Inv}
use myprogram.DataBuffer.{DataBuffer, MessagePool, empty_buffer}
use myprogram.DataBuffer.Invariant.{Cells, addresses, Holds, Untouched, Linked-same}
use myprogram.Gate.{Gate, Connection}

-- Each of the first `n` connections holds its bytes, in cells that no other one has.
pub record Buffers (conn : ℕ → Connection) (n : ℕ) (mp : MessagePool) (xs : ℕ → Cells) (fs : List ℕ)
    : Type 0 where
  pub holds : (s : ℕ) → s < n → Holds (conn s).buffer mp (xs s) fs
  pub apart :
      (s u b : ℕ)
      → s < n
      → u < n
      → s ≢ u
      → has b (addresses (xs s)) ≡ true
      → has b (addresses (xs u)) ≡ false

pub record GateInv (g : Gate) (chain : ℕ → List ℕ) (xs : ℕ → Cells) (fs : List ℕ) : Type 0 where
  pub table : Inv g.hash chain
  pub len : g.conn.len ≡ g.hash.cap
  pub size : g.max_connection ≡ g.conn.len
  pub header_size : g.header_size ≡ 4
  pub buffers : Buffers g.conn.cell g.conn.len g.mp xs fs
  pub idle :
      (s : ℕ)
      → s < g.conn.len
      → ((j : ℕ) → lookup g.hash j ≢ ok (some s))
      → (g.conn.cell s).buffer ≡ empty_buffer

abbrev pub IsWhole : Gate → Type 0
IsWhole g = (chain : ℕ → List ℕ) × (xs : ℕ → Cells) × (fs : List ℕ) × GateInv g chain xs fs

-- A buffer keeps its bytes when another one that shares the pool changes.
Holds-frame :
    (db db' : DataBuffer) (mp mp' : MessagePool) (xs ys ys' : Cells) (fs fs' : List ℕ)
    → Holds db mp xs fs
    → Holds db' mp' ys' fs'
    → Untouched mp mp' ys fs ys' fs'
    → ((b : ℕ) → has b (addresses xs) ≡ true → has b (addresses ys) ≡ false)
    → Holds db mp' xs fs'
Holds-frame db db' mp mp' xs ys ys' fs fs' v w (more, u) apart =
    let c = v.chained in
    let d = w.chained in
    let kept = λ (b : ℕ) (there : has b (addresses xs) ≡ true).
      u b (apart b there) (c.apart b there) (c.below b there) in
    record {
      chained = record {
        linked = Linked-same {f = mp.cell} {g = mp'.cell} xs (λ b there. (kept b there).0) c.linked;
        free = d.free;
        head = c.head;
        tail = c.tail;
        freelist = d.freelist;
        distinct = c.distinct;
        free_distinct = d.free_distinct;
        apart = λ b there. (kept b there).2;
        below = λ b there. omega (arith, c.below b there, more);
        free_below = d.free_below;
      };
      offset_le = v.offset_le;
      size = v.size;
      fits = v.fits;
    }

module _ {conn : ℕ → Connection} {n : ℕ} {mp : MessagePool} {xs : ℕ → Cells} {fs : List ℕ}
    (w : Buffers conn n mp xs fs) (s : ℕ) (at : s < n) (c' : Connection) (mp' : MessagePool)
    (ys : Cells) (fs' : List ℕ) (w_held : Holds c'.buffer mp' ys fs')
    (u : Untouched mp mp' (xs s) fs ys fs') where
  -- A cell of another connection is none of those that the one in slot `s` comes to have.
  other_apart :
      (t b : ℕ) → t < n → t ≢ s → has b (addresses (xs t)) ≡ true → has b (addresses ys) ≡ false
  other_apart t b below ne there =
      let c = (w.holds t below).chained in
      (u.1 b (w.apart t s b below at ne there) (c.apart b there) (c.below b there)).1

  other_apart_sym :
      (t b : ℕ) → t < n → t ≢ s → has b (addresses ys) ≡ true → has b (addresses (xs t)) ≡ false
  other_apart_sym t b below ne there = elim (Bool-cases (has b (addresses (xs t)))) [
    | inl held ↦ absurd (cc (there, other_apart t b below ne held))
    | inr out ↦ out
  ]

  updated_apart :
      (t v b : ℕ)
      → t < n
      → v < n
      → t ≢ v
      → has b (addresses (update xs s ys t)) ≡ true
      → has b (addresses (update xs s ys v)) ≡ false
  updated_apart t v b bt bv ne = elim (==-cases t s) [
    | inl e ↦
        let other : v ≢ s = λ q. ne (e ∙ sym q) in
        let same : (t == s) ≡ true = ground (arith, e) in
        rw (same, ==_ne v s other) (other_apart_sym v b bv other)
    | inr nt ↦ elim (==-cases v s) [
      | inl e ↦
          let same : (v == s) ≡ true = ground (arith, e) in
          rw (==_ne t s nt, same) (other_apart t b bt nt)
      | inr nv ↦ rw (==_ne t s nt, ==_ne v s nv) (w.apart t v b bt bv ne)
    ]
  ]

  pub Buffers-update : Buffers (update conn s c') n mp' (update xs s ys) fs'
  Buffers-update = record {
    holds = λ t below. elim (==-cases t s) [
      | inl e ↦ let same : (t == s) ≡ true = ground (arith, e) in rw same w_held
      | inr ne ↦ rw (==_ne t s ne) (
          Holds-frame (conn t).buffer c'.buffer mp mp' (xs t) (xs s) ys fs fs' (w.holds t below)
            w_held u (λ b there. w.apart t s b below at ne there))
    ];
    apart = updated_apart;
  }
