-- ===== src/Gate/Released.antt =====
-- gate_release of service_gate.c.
use mathlib.Core.List.{filter_map, filter_map-append, filter_map-cons-none, filter_map-cons-some}
use myprogram.Prelude.{
  ℕ, zero, suc, ◌+◌, ◌*◌, ◌≤◌, ◌≡◌, refl, sym, ap, ◌∙◌, ◌⊎◌, ◌<◌, ◌↔◌, inl, inr, false, subst,
  ==-cases, Option, none, some, List, [], ◌∷◌, ◌++◌, arith, ltb, if◌then◌else◌, ok, get-ok,
  Bool-cases,
}
use myprogram.HashId.{clear}
use myprogram.DataBuffer.{
  Message, MessagePool, message_pool, free_block, free_blocks, messagepool_free,
}
use myprogram.Gate.{Gate, Connection, Action, is_negative, socket_close}
use myprogram.Gate.Service.{close_all, gate_release}
use myprogram.Gate.Whole.{IsWhole}

-- The ids of the next `n` connections.
abbrev pub ids : ℕ → ℕ → (ℕ → Connection) → List ℕ
ids zero i conn = []
ids (suc n) i conn = (conn i).id ∷ ids n (i + 1) conn

-- `skynet_socket_close`, if the id is no negative int.
abbrev pub to_close : ℕ → Option Action
to_close id = if is_negative id then none else some (socket_close id)

abbrev pub closes : List ℕ → List Action
closes sockets = filter_map to_close sockets

closes-cons :
    (id : ℕ) (sockets : List ℕ)
    → closes (id ∷ sockets)
      ≡ (if is_negative id then closes sockets else socket_close id ∷ closes sockets)
closes-cons id sockets = elim (Bool-cases (is_negative id)) [
  | inl e ↦ rw e (filter_map-cons-none to_close id sockets (rw e refl))
  | inr e ↦ rw e (filter_map-cons-some to_close id sockets (rw e refl))
]

close_all-closes :
    (n i : ℕ) (g : Gate) → i + n ≤ g.conn.len → close_all n i g ≡ ok (closes (ids n i g.conn.cell))
unfolding close_all filter_map
close_all-closes zero i g inside = refl
close_all-closes (suc n) i g inside =
    let rest = close_all-closes n (i + 1) g (omega arith) in
    rw (get-ok g.conn i (omega arith), rest)
      (ap ok (sym (closes-cons (g.conn.cell i).id (ids n (i + 1) g.conn.cell))))

listener-closes :
    (id : ℕ) → (if is_negative id then [] else socket_close id ∷ []) ≡ closes (id ∷ [])
unfolding filter_map
listener-closes id = sym (closes-cons id [])

pub free_blocks-cell :
    (n : ℕ) (f : ℕ → Option Message) (a : ℕ)
    → free_blocks n f a ≡ (if ltb a (message_pool * n) then none else f a)
unfolding free_blocks
free_blocks-cell zero f a = ground arith
free_blocks-cell (suc n) f a = free_blocks-cell n (free_block n f) a ∙ ground arith

-- One of the calls closes the socket.
abbrev pub Asks : ℕ → List Action → Type 0
Asks id [] = ⊥
Asks id (a ∷ acts) = (a ≡ socket_close id) ⊎ Asks id acts

abbrev Among : ℕ → List ℕ → Type 0
Among id [] = ⊥
Among id (x ∷ xs) = (x ≡ id) ⊎ Among id xs

closes-Among : (id : ℕ) (xs : List ℕ) → Asks id (closes xs) → (is_negative id ≡ false) × Among id xs
unfolding filter_map
closes-Among id [] there = absurd there
closes-Among id (x ∷ xs) there = elim (Bool-cases (is_negative x)) [
  | inl e ↦
      let (valid, among) = closes-Among id xs (
        subst (Asks id)
          (closes-cons x xs ∙ ap (λ b. if b then closes xs else socket_close x ∷ closes xs) e)
          there) in
      (valid, inr among)
  | inr e ↦
      let there' : Asks id (socket_close x ∷ closes xs) =
        subst (Asks id)
          (closes-cons x xs ∙ ap (λ b. if b then closes xs else socket_close x ∷ closes xs) e)
          there in
      elim there' [
        | inl same ↦
            let equal : x ≡ id = cc same in (subst (λ y. is_negative y ≡ false) equal e, inl equal)
        | inr later ↦ let (valid, among) = closes-Among id xs later in (valid, inr among)
      ]
]

Among-closes : (id : ℕ) (xs : List ℕ) → is_negative id ≡ false → Among id xs → Asks id (closes xs)
unfolding filter_map
Among-closes id [] valid among = absurd among
Among-closes id (x ∷ xs) valid (inl same) =
    subst (Asks id)
      (sym (
        closes-cons x xs
        ∙ ap (λ b. if b then closes xs else socket_close x ∷ closes xs)
            (ap is_negative same ∙ valid)))
      (inl (ap socket_close same))
Among-closes id (x ∷ xs) valid (inr among) =
    let later = Among-closes id xs valid among in
    elim (Bool-cases (is_negative x)) [
      | inl e ↦
          subst (Asks id)
            (sym
              (closes-cons x xs ∙ ap (λ b. if b then closes xs else socket_close x ∷ closes xs) e))
            later
      | inr e ↦
          subst (Asks id)
            (sym
              (closes-cons x xs ∙ ap (λ b. if b then closes xs else socket_close x ∷ closes xs) e))
            (inr later)
    ]

-- The id of one of the first `n` connections, or the listener's.
abbrev pub Kept : Gate → ℕ → ℕ → Type 0
Kept g n id = ((s : ℕ) × (s < n) × ((g.conn.cell s).id ≡ id)) ⊎ (g.listen_id ≡ id)

Among-Kept :
    (g : Gate) (n i id : ℕ) → Among id (ids n i g.conn.cell ++ g.listen_id ∷ []) → Kept g (i + n) id
Among-Kept g zero i id (inl same) = inr same
Among-Kept g zero i id (inr later) = absurd later
Among-Kept g (suc n) i id (inl same) = inl (i, omega arith, same)
Among-Kept g (suc n) i id (inr later) = elim (Among-Kept g n (i + 1) id later) [
  | inl (s, below, same) ↦ inl (s, omega arith, same)
  | inr same ↦ inr same
]

Kept-Among :
    (g : Gate) (n i id s : ℕ)
    → i ≤ s
    → s < i + n
    → (g.conn.cell s).id ≡ id
    → Among id (ids n i g.conn.cell ++ g.listen_id ∷ [])
Kept-Among g zero i id s above below same = absurd (omega arith)
Kept-Among g (suc n) i id s above below same = elim (==-cases s i) [
  | inl e ↦ inl (ap (λ t. (g.conn.cell t).id) (sym e) ∙ same)
  | inr ne ↦ inr (Kept-Among g n (i + 1) id s (omega arith) (omega arith) same)
]

listener-Among :
    (g : Gate) (n i id : ℕ) → g.listen_id ≡ id → Among id (ids n i g.conn.cell ++ g.listen_id ∷ [])
listener-Among g zero i id same = inl same
listener-Among g (suc n) i id same = inr (listener-Among g n (i + 1) id same)

release-Asks :
    (g : Gate) (id : ℕ)
    → Asks id (closes (ids g.conn.len 0 g.conn.cell ++ g.listen_id ∷ []))
      ↔ ((is_negative id ≡ false) × Kept g g.conn.len id)
release-Asks g id =
    let all = ids g.conn.len 0 g.conn.cell ++ g.listen_id ∷ [] in
    (
      λ there.
          let (valid, among) = closes-Among id all there in
          (valid, subst (λ n. Kept g n id) (omega arith) (Among-Kept g g.conn.len 0 id among)),
      λ (valid, kept). Among-closes id all valid (elim kept [
        | inl (s, below, same) ↦ Kept-Among g g.conn.len 0 id s (omega arith) (omega arith) same
        | inr same ↦ listener-Among g g.conn.len 0 id same
      ]),
    )

pub gate_release-run :
    (g : Gate)
    → IsWhole g
    → gate_release g
      ≡ ok (
        closes (ids g.conn.len 0 g.conn.cell ++ g.listen_id ∷ []),
        messagepool_free g.mp,
        clear g.hash,
      )
unfolding gate_release
gate_release-run g (chain, xs, fs, v) =
    let sockets = ids g.conn.len 0 g.conn.cell in
    let run = ap (λ n. close_all n 0 g) v.size ∙ close_all-closes g.conn.len 0 g (omega arith) in
    let all : closes sockets
          ++ (if is_negative g.listen_id then [] else socket_close g.listen_id ∷ [])
        ≡ closes (sockets ++ g.listen_id ∷ []) =
      ap (λ (t : List Action). closes sockets ++ t) (listener-closes g.listen_id)
      ∙ sym (filter_map-append to_close sockets (g.listen_id ∷ [])) in
    rw (run, gate_release) (ap (λ acts. ok (acts, messagepool_free g.mp, clear g.hash)) all)

-- gate_release of a gate that is whole ends. It asks for the close of a socket exactly if the id is no
-- negative int and stands in a connection or is the listener's; the calls are these closes alone,
-- one for each such connection in the order of the slots and then the listener's. Every cell of the
-- pool's blocks is freed and no other memory of messages, and the table is cleared.
pub gate_release-closes :
    (g : Gate)
    → IsWhole g
    → (mp : MessagePool) × (acts : List Action) × (gate_release g ≡ ok (acts, mp, clear g.hash))
      × ((id : ℕ) → Asks id acts ↔ ((is_negative id ≡ false) × Kept g g.conn.len id))
      × (acts ≡ closes (ids g.conn.len 0 g.conn.cell ++ g.listen_id ∷ []))
      × (mp.pool ≡ 0)
      × (mp.freelist ≡ none)
      × ((a : ℕ) → mp.cell a ≡ (if ltb a (message_pool * g.mp.pool) then none else g.mp.cell a))
unfolding messagepool_free
gate_release-closes g whole = (
  messagepool_free g.mp,
  closes (ids g.conn.len 0 g.conn.cell ++ g.listen_id ∷ []),
  gate_release-run g whole,
  release-Asks g,
  refl,
  refl,
  refl,
  free_blocks-cell g.mp.pool g.mp.cell,
)
