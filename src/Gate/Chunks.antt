-- ===== src/Gate/Chunks.antt =====
-- The bytes of a connection may come in any pieces: `drain` of the bytes of one piece, and then of
-- what it leaves with the next behind it, is `drain` of both pieces at once.
use myprogram.Prelude.{
  ℕ, ◌+◌, ◌*◌, ◌^◌, ◌≤◌, ◌<◌, ◌≡◌, refl, sym, ap, inl, inr, true, false, ◌||◌, List, [], ◌∷◌, ◌++◌,
  arith, ltb, ◌==◌, Run, ok, fault, out_of_fuel, ◌>>=◌, take, drop, length, length-drop, Bool-cases,
  length-append, drop-append, append_assoc,
}
use myprogram.Gate.{Gate, Connection, Action, is_negative, forwarded, has_receiver}
use myprogram.Gate.Stream.{
  header_value, announce, read_header, sent_after, Drained, after, drain, is_close, closes,
  continue,
}

pub after-nil : (r : Run Drained) → after [] r ≡ r
after-nil (ok _) = refl
after-nil fault = refl
after-nil out_of_fuel = refl

pub after-append :
    (xs ys : List Action) (r : Run Drained) → after xs (after ys r) ≡ after (xs ++ ys) r
after-append xs ys (ok (h, bs, zs)) = ap (λ s. ok (h, bs, s)) (sym (append_assoc xs ys zs))
after-append xs ys fault = refl
after-append xs ys out_of_fuel = refl

pub closes-append : (xs ys : List Action) → closes (xs ++ ys) ≡ (closes xs || closes ys)
closes-append [] ys = refl
closes-append (x ∷ xs) ys = ground (arith, closes-append xs ys)

pub forwarded-not_close :
    (g : Gate) (c : Connection) (bs : List ℕ) → is_close (forwarded g c bs) ≡ false
forwarded-not_close g c bs = elim (Bool-cases (g.broker == 0)) [
  | inr e ↦ rw e refl
  | inl e ↦ elim (Bool-cases (c.agent == 0)) [ inr f ↦ rw (e, f) refl | inl f ↦ rw (e, f) refl ]
]

pub sent_after-not_close :
    (g : Gate) (c : Connection) (bs : List ℕ) (size : ℕ) → closes (sent_after g c bs size) ≡ false
sent_after-not_close g c bs size = elim (Bool-cases (has_receiver g c)) [
  | inl e ↦ rw (e, forwarded-not_close g c (take size bs)) refl
  | inr e ↦ rw e refl
]

pub after-continue :
    (g : Gate) (c : Connection) (id : ℕ) (more : List ℕ) (xs : List Action) (r : Run Drained)
    → closes xs ≡ false
    → after xs (r >>= continue g c id more) ≡ (after xs r >>= continue g c id more)
after-continue g c id more xs fault e = refl
after-continue g c id more xs out_of_fuel e = refl
after-continue g c id more xs (ok (h, left, sent)) e = elim (Bool-cases (closes sent)) [
  | inl f ↦ rw (closes-append xs sent, e, f) refl
  | inr f ↦
      rw (closes-append xs sent, e, f)
        (after-append xs sent (drain (2 * length (left ++ more) + 2) g c id h (left ++ more)))
]

-- The size that readheader returns is below the header that it leaves only when there is no header.
announce-stays :
    (h n m : ℕ)
    → n ≤ m
    → m < 2 ^ 31
    → is_negative (announce h n) ≡ false
    → announce h m ≡ announce h n
announce-stays h n m le small nonneg = ground arith

header_value-append :
    (bs more : List ℕ) → 4 ≤ length bs → header_value (bs ++ more) ≡ header_value bs
header_value-append [] more h = absurd (omega arith)
header_value-append (b0 ∷ []) more h = absurd (omega arith)
header_value-append (b0 ∷ b1 ∷ []) more h = absurd (omega arith)
header_value-append (b0 ∷ b1 ∷ b2 ∷ []) more h = absurd (omega arith)
header_value-append (b0 ∷ b1 ∷ b2 ∷ b3 ∷ bs) more h = refl

-- A header of zero is never negative.
negative-header : (h n : ℕ) → n < 2 ^ 31 → is_negative (announce h n) ≡ true → (h == 0) ≡ false
negative-header h n small neg = ground arith

module _ (h : ℕ) (bs more : List ℕ) (small : length (bs ++ more) < 2 ^ 31) where
  longer : length (bs ++ more) ≡ length bs + length more
  longer = length-append bs more

  -- The header of the first piece is not complete, or its message is not: with the second piece
  -- behind, what the first has left reads the same.
  pub read_header-negative :
      is_negative (read_header h bs).0 ≡ true
      → read_header h (bs ++ more) ≡ read_header (read_header h bs).1 ((read_header h bs).2 ++ more)
  unfolding read_header
  read_header-negative = elim (Bool-cases (h == 0)) [
    | inr e ↦ rw e λ neg. rw e refl
    | inl e ↦ elim (Bool-cases (ltb (length bs) 4)) [
      | inl few ↦ rw (e, few) λ neg. rw e refl
      | inr many ↦
          let enough : 4 ≤ length bs = ground arith in
          let many' : ltb (length (bs ++ more)) 4 ≡ false = ground (arith, longer) in
          rw (e, many, many')
            λ neg.
              rw
                (
                  negative-header (header_value bs) (length (drop 4 bs))
                      (omega (arith, longer, length-drop 4 bs)) neg,
                  header_value-append bs more enough,
                  drop-append 4 bs more enough,
                )
                refl
    ]
  ]

  pub read_header-nonneg :
      is_negative (read_header h bs).0 ≡ false
      → read_header h (bs ++ more)
        ≡ ((read_header h bs).0, (read_header h bs).1, (read_header h bs).2 ++ more)
  unfolding read_header
  read_header-nonneg = elim (Bool-cases (h == 0)) [
    | inr e ↦ rw e λ nonneg.
        rw (announce-stays h (length bs) (length (bs ++ more)) (omega (arith, longer)) small nonneg)
          refl
    | inl e ↦ elim (Bool-cases (ltb (length bs) 4)) [
      | inl few ↦ rw (e, few) λ nonneg. absurd (cc nonneg)
      | inr many ↦
          let enough : 4 ≤ length bs = ground arith in
          let many' : ltb (length (bs ++ more)) 4 ≡ false = ground (arith, longer) in
          rw (e, many, many')
            λ nonneg.
              rw
                (
                  header_value-append bs more enough,
                  drop-append 4 bs more enough,
                  announce-stays (header_value bs) (length (drop 4 bs)) (length (drop 4 bs ++ more))
                      (omega (arith, length-append (drop 4 bs) more))
                      (omega (arith, length-append (drop 4 bs) more, longer, length-drop 4 bs))
                      nonneg,
                )
                refl
    ]
  ]
