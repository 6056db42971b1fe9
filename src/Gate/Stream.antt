-- ===== src/Gate/Stream.antt =====
-- What dispatch_message of service_gate.c does, told on the bytes that are pending: no pool, no
-- messages and no pointers. The header is that of the buffer, 0 if none has been read.
use myprogram.Prelude.{
  ℕ, zero, suc, ◌+◌, ◌-◌, ◌*◌, ◌^◌, Bool, true, false, ◌||◌, List, [], ◌∷◌, ◌++◌, ltb, ◌==◌,
  if◌then◌else◌, Run, ok, out_of_fuel, ◌>>=◌, take, drop, length,
}
use myprogram.DataBuffer.{int_lt}
use myprogram.Gate.{Gate, Connection, Action, is_negative, forwarded, has_receiver, socket_close}

-- The four bytes in front, the high byte first.
abbrev pub header_value : List ℕ → ℕ
header_value (b0 ∷ b1 ∷ b2 ∷ b3 ∷ bs) = b0 * 2 ^ 24 + b1 * 2 ^ 16 + b2 * 2 ^ 8 + b3
header_value _ = 0

abbrev pub announce : ℕ → ℕ → ℕ
announce header size = if int_lt size header then 2 ^ 32 - 1 else header

-- What databuffer_readheader returns, with the header and the bytes that it leaves.
unfoldable pub read_header : ℕ → List ℕ → ℕ × ℕ × List ℕ
read_header h bs =
    if h == 0
    then (if ltb (length bs) 4
        then (2 ^ 32 - 1, h, bs)
        else (announce (header_value bs) (length (drop 4 bs)), header_value bs, drop 4 bs))
    else (announce h (length bs), h, bs)

abbrev pub left_after : Gate → Connection → List ℕ → ℕ → List ℕ
left_after g c bs size = if has_receiver g c then drop size bs else bs

abbrev pub sent_after : Gate → Connection → List ℕ → ℕ → List Action
sent_after g c bs size = if has_receiver g c then forwarded g c (take size bs) ∷ [] else []

-- The header and the bytes that are left, and what has been sent.
abbrev pub Drained : Type 0
Drained = ℕ × List ℕ × List Action

abbrev pub after : List Action → Run Drained → Run Drained
after sent r = r >>= λ (h, bs, rest). ok (h, bs, sent ++ rest)

unfoldable pub drain : ℕ → Gate → Connection → ℕ → ℕ → List ℕ → Run Drained
drain zero g c id h bs = out_of_fuel
drain (suc k) g c id h bs =
    let (size, h1, bs1) = read_header h bs in
    let again = drain k g c id h1 bs1 in
    let pass = after (sent_after g c bs1 size) (drain k g c id 0 (left_after g c bs1 size)) in
    if is_negative size
    then ok (h1, bs1, [])
    else (if size == 0
        then again
        else (if ltb size 0x1000000 then pass else ok (0, [], socket_close id ∷ [])))

abbrev pub is_close : Action → Bool
is_close (socket_close id) = true
is_close _ = false

-- Whether the connection has been refused.
abbrev pub closes : List Action → Bool
closes [] = false
closes (a ∷ rest) = is_close a || closes rest

-- More bytes arrive after a run; a buffer that has been cleared gets none of those that belong to
-- its connection.
abbrev pub continue : Gate → Connection → ℕ → List ℕ → Drained → Run Drained
continue g c id more (h, left, sent) =
    if closes sent
    then ok (0, [], sent)
    else after sent (drain (2 * length (left ++ more) + 2) g c id h (left ++ more))
