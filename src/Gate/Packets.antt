-- ===== src/Gate/Packets.antt =====
-- The packets that a peer writes: four bytes of length, the high byte first, and the payload.
use myprogram.Prelude.{
  ℕ, zero, suc, ◌+◌, ◌*◌, ◌%◌, ◌/◌, ◌^◌, ◌≤◌, ◌<◌, ◌≡◌, refl, true, false, List, [], ◌∷◌, ◌++◌,
  arith, ltb, ◌==◌, ok, drop, length, length-append, take-append, take_all, ltb-eq_false,
}
use myprogram.Gate.{Gate, Connection, Action, is_negative, forwarded, has_receiver}
use myprogram.Gate.Stream.{announce, read_header, after, drain}

abbrev pub encode : List ℕ → List ℕ
encode p = let n = length p in n / 2 ^ 24 % 256 ∷ n / 2 ^ 16 % 256 ∷ n / 2 ^ 8 % 256 ∷ n % 256 ∷ p

abbrev pub encode_all : List (List ℕ) → List ℕ
encode_all [] = []
encode_all (p ∷ ps) = encode p ++ encode_all ps

-- A payload that the gate passes on: not empty, and below 16 MB.
abbrev pub Packets : List (List ℕ) → Type 0
Packets [] = Unit {0}
Packets (p ∷ ps) = (0 < length p) × (length p < 2 ^ 24) × Packets ps

abbrev pub sent_all : Gate → Connection → List (List ℕ) → List Action
sent_all g c [] = []
sent_all g c (p ∷ ps) = forwarded g c p ∷ sent_all g c ps

four_bytes :
    (n : ℕ)
    → n < 2 ^ 24
    → n / 2 ^ 24 % 256 * 2 ^ 24 + n / 2 ^ 16 % 256 * 2 ^ 16 + n / 2 ^ 8 % 256 * 2 ^ 8 + n % 256 ≡ n
four_bytes n small = omega arith

announce_there : (n m : ℕ) → n ≤ m → m < 2 ^ 31 → announce n m ≡ n
announce_there n m le small = ground arith

read_header-encode :
    (p more : List ℕ)
    → length p < 2 ^ 24
    → length (encode p ++ more) < 2 ^ 31
    → read_header 0 (encode p ++ more) ≡ (length p, length p, p ++ more)
unfolding read_header
read_header-encode p more small fits =
    let many : ltb (length (encode p ++ more)) 4 ≡ false = ltb-eq_false _ 4 (omega arith) in
    rw
      (
        many,
        four_bytes (length p) small,
        announce_there (length p) (length (p ++ more)) (omega (arith, length-append p more))
            (omega arith),
      )
      refl

drop_first : (p more : List ℕ) → drop (length p) (p ++ more) ≡ more
drop_first [] more = refl
drop_first (b ∷ p) more = drop_first p more

drain-packet :
    (k : ℕ) (g : Gate) (c : Connection) (id : ℕ) (p more : List ℕ)
    → has_receiver g c ≡ true
    → 0 < length p
    → length p < 2 ^ 24
    → length (encode p ++ more) < 2 ^ 31
    → drain (suc k) g c id 0 (encode p ++ more)
      ≡ after (forwarded g c p ∷ []) (drain k g c id 0 more)
unfolding drain
drain-packet k g c id p more receiver nonempty small fits =
    let positive : is_negative (length p) ≡ false = ground arith in
    let nonzero : (length p == 0) ≡ false = ground arith in
    let below : ltb (length p) 0x1000000 ≡ true = ground arith in
    rw
      (
        read_header-encode p more small fits,
        positive,
        nonzero,
        below,
        receiver,
        take-append (length p) p more (omega arith),
        take_all p,
        drop_first p more,
      )
      refl

pub drain-Packets :
    (k : ℕ) (g : Gate) (c : Connection) (id : ℕ) (ps : List (List ℕ))
    → has_receiver g c ≡ true
    → Packets ps
    → length (encode_all ps) < 2 ^ 31
    → 2 * length (encode_all ps) < k
    → drain k g c id 0 (encode_all ps) ≡ ok (0, [], sent_all g c ps)
unfolding drain read_header
drain-Packets zero g c id ps receiver sized fits light = absurd (omega arith)
drain-Packets (suc k) g c id [] receiver sized fits light = refl
drain-Packets (suc k) g c id (p ∷ ps) receiver (nonempty, small, rest) fits light =
    rw
      (
        drain-packet k g c id p (encode_all ps) receiver nonempty small fits,
        drain-Packets k g c id ps receiver rest
            (omega (arith, length-append (encode p) (encode_all ps)))
            (omega (arith, length-append (encode p) (encode_all ps))),
      )
      refl
