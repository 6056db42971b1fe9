-- ===== src/Gate/Step.antt =====
-- The bytes of a connection come in pieces: one call of dispatch_message (service_gate.c), and what
-- the pieces behind it begin with.
use myprogram.Prelude.{
  ℕ, zero, suc, ◌+◌, ◌*◌, ◌^◌, ◌≤◌, ◌<◌, ◌≡◌, refl, sym, ap, ◌∙◌, inl, inr, true, false, List, [],
  ◌∷◌, ◌++◌, arith, Run, ok, fault, out_of_fuel, ◌>>=◌, length, Bool-cases, length-append,
  append_assoc, update, ==_refl, subst,
}
use myprogram.DataBuffer.{DataBuffer, MessagePool}
use myprogram.DataBuffer.Invariant.{Cells, Holds, pending}
use myprogram.DataBuffer.Reading.{length-pending}
use myprogram.Gate.{Gate, Connection, Action, dispatch_message}
use myprogram.Gate.Stream.{Drained, after, drain, closes, continue, read_header, left_after}
use myprogram.Gate.Refinement.{weight}
use myprogram.Gate.Delivery.{with_buffer, dispatch_message-at}
use myprogram.Gate.Chunks.{closes-append}
use myprogram.Gate.Pieces.{drain-append}
use myprogram.Gate.Fuel.{LeavesAtMost, drain-le}

abbrev pub joined : List (List ℕ) → List ℕ
joined [] = []
joined (bs ∷ pieces) = bs ++ joined pieces

-- The buffer and the pool do not matter to what is sent.
pub drain-same :
    (k : ℕ) (g : Gate) (s : ℕ) (c : Connection) (db : DataBuffer) (mp : MessagePool) (id h : ℕ)
    (bs : List ℕ)
    → drain k (with_buffer g s c db mp) (record c { buffer = db }) id h bs ≡ drain k g c id h bs
unfolding drain
drain-same zero g s c db mp id h bs = refl
drain-same (suc k) g s c db mp id h bs =
    let (size, h1, bs1) = read_header h bs in
    rw (drain-same k g s c db mp id h1 bs1, drain-same k g s c db mp id 0 (left_after g c bs1 size))
      refl

-- What comes after the sends of the first piece.
pub after-inv :
    (sent1 : List Action) (r : Run Drained) (sent : List Action)
    → after sent1 r ≡ ok (0, [], sent)
    → (sent2 : List Action) × (r ≡ ok (0, [], sent2)) × (sent ≡ sent1 ++ sent2)
after-inv sent1 (ok (h, bs, sent2)) sent e = (sent2, cc e, cc e)
after-inv sent1 fault sent e = absurd (cc e)
after-inv sent1 out_of_fuel sent e = absurd (cc e)

pub update-same : {A : Type 0} (f : ℕ → A) (a : ℕ) (v : A) → update f a v a ≡ v
update-same f a v = rw (==_refl a) refl

-- The call for the first piece sends `sent1`, which is no refusal; what comes with the others is
-- what draining the rest would send.
first_piece :
    (g : Gate) (c : Connection) (id h : ℕ) (bs more left : List ℕ) (h1 : ℕ)
    (sent1 sent : List Action) (k k2 : ℕ)
    → drain k g c id h bs ≡ ok (h1, left, sent1)
    → drain k2 g c id h (bs ++ more) ≡ ok (0, [], sent)
    → drain k2 g c id h (bs ++ more) ≡ (drain k g c id h bs >>= continue g c id more)
    → closes sent ≡ false
    → (sent2 : List Action) × (drain (2 * length (left ++ more) + 2) g c id h1 (left ++ more)
        ≡ ok (0, [], sent2))
      × (sent ≡ sent1 ++ sent2)
first_piece g c id h bs more left h1 sent1 sent k k2 first whole both kept =
    let e : continue g c id more (h1, left, sent1) ≡ ok (0, [], sent) =
      sym (ap (λ r. r >>= continue g c id more) first) ∙ sym both ∙ whole in
    let refused : closes sent1 ≡ true
        → ◌≡◌ {A = Run Drained} (ok (0, [], sent1)) (ok (0, [], sent))
        → ⊥ =
      λ y f. (cc (y, f, kept)) in
    elim (Bool-cases (closes sent1)) [
      | inl y ↦ absurd (refused y (rw y at e))
      | inr n ↦ after-inv sent1 _ sent (rw n at e)
    ]

rest_kept :
    (sent1 sent2 sent : List Action)
    → sent ≡ sent1 ++ sent2
    → closes sent ≡ false
    → closes sent2 ≡ false
rest_kept sent1 sent2 sent e kept = ground (arith, closes-append sent1 sent2, ap closes e)

-- One piece more: the call for it leaves what the others begin with.
abbrev pub Step : Gate → ℕ → Connection → ℕ → List ℕ → List (List ℕ) → Cells → List Action → Type 0
Step g s c id bs pieces xs sent =
    (db' : DataBuffer) × (mp' : MessagePool) × (xs' : Cells) × (fs' : List ℕ) × (sent1 : List
      Action)
    × (sent2 : List Action) × (dispatch_message g s id bs (length bs)
        ≡ ok (with_buffer g s c db' mp', sent1))
    × Holds db' mp' xs' fs'
    × (length (pending db' xs' ++ joined pieces) < 2 ^ 31)
    × (drain (2 * length (pending db' xs' ++ joined pieces) + 2) g c id db'.header
          (pending db' xs' ++ joined pieces)
        ≡ ok (0, [], sent2))
    × (sent ≡ sent1 ++ sent2)
    × (closes sent2 ≡ false)

pub feed-Step :
    (g : Gate) (s : ℕ) (c : Connection) (id : ℕ) (bs : List ℕ) (pieces : List (List ℕ)) (xs : Cells)
    (fs : List ℕ) (sent : List Action) (k : ℕ)
    → g.conn.cell s ≡ c
    → s < g.conn.len
    → g.header_size ≡ 4
    → Holds c.buffer g.mp xs fs
    → length (pending c.buffer xs ++ (bs ++ joined pieces)) < 2 ^ 31
    → weight c.buffer.header (pending c.buffer xs ++ (bs ++ joined pieces)) < k
    → drain k g c id c.buffer.header (pending c.buffer xs ++ (bs ++ joined pieces))
      ≡ ok (0, [], sent)
    → closes sent ≡ false
    → Step g s c id bs pieces xs sent
feed-Step g s c id bs pieces xs fs sent k at there hs v small small_weight whole kept =
    let more = joined pieces in
    let now = pending c.buffer xs ++ bs in
    let shift : pending c.buffer xs ++ (bs ++ more) ≡ now ++ more =
      sym (append_assoc (pending c.buffer xs) bs more) in
    let len : length (now ++ more) ≡ length now + length more = length-append now more in
    let (db', mp', xs', fs', sent1, run, spec, v', u) =
      dispatch_message-at g s c id bs xs fs at there hs v (
        omega (
          arith,
          length-pending v,
          len,
          ap length shift,
          length-append (pending c.buffer xs) bs,
        )) in
    let (sent2, rest, e) =
      first_piece g c id c.buffer.header now more (pending db' xs') db'.header sent1 sent
        (2 * length now + 2) k spec (rw (sym shift) whole)
        (drain-append g c id more (2 * length now + 2) k c.buffer.header now
          (omega (arith, ap length shift), ground arith)
          (omega (arith, ap length shift), rw (sym shift) small_weight))
        kept in
    let left : length (pending db' xs') ≤ length now =
      subst (LeavesAtMost (length now)) spec
        (drain-le (2 * length now + 2) g c id c.buffer.header now) in
    let small_left : length (pending db' xs' ++ more) < 2 ^ 31 =
      omega (arith, length-append (pending db' xs') more, ap length shift) in
    let kept_rest : closes sent2 ≡ false = rest_kept sent1 sent2 sent e kept in
    (db', mp', xs', fs', sent1, sent2, run, v', small_left, rest, e, kept_rest)
