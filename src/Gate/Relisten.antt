-- ===== src/Gate/Relisten.antt =====
-- The commands `listen` and `close` of service_gate.c, one after the other.
use myprogram.Prelude.{
  ℕ, ◌≡◌, refl, sym, ap, ◌∙◌, inl, inr, true, false, Option, none, some, List, [], ◌∷◌, ◌==◌,
  Bool-cases,
}
use myprogram.CText.{strchr, strtol}
use myprogram.Gate.{Gate, Skynet, is_negative}
use myprogram.Gate.Control.{listen, close, start_listen, listen_at, bad_port}

longer : ℕ → Option (List ℕ × List ℕ) → Option (List ℕ × List ℕ)
longer c none = none
longer c (some (front, back)) = some (c ∷ front, back)

longer-none : (c : ℕ) → longer c none ≡ none
unfolding longer
longer-none c = refl

longer-inv :
    (c : ℕ) (r : Option (List ℕ × List ℕ)) (front back : List ℕ)
    → longer c r ≡ some (front, back)
    → (rest : List ℕ) × (r ≡ some (rest, back)) × (front ≡ c ∷ rest)
unfolding longer
longer-inv c none front back e = absurd (cc e)
longer-inv c (some (rest, b)) front back e = (rest, cc e, cc e)

longer-elim :
    (c : ℕ) (r : Option (List ℕ × List ℕ))
    → (elim r [ none ↦ none | some (front, back) ↦ some (c ∷ front, back) ]) ≡ longer c r
unfolding longer
longer-elim c none = refl
longer-elim c (some (front, back)) = refl

strchr-past :
    (d c : ℕ) (cs : List ℕ)
    → (c == 0) ≡ false
    → (c == d) ≡ false
    → strchr d (c ∷ cs) ≡ longer c (strchr d cs)
unfolding strchr
strchr-past d c cs nz past = rw (nz, past) (longer-elim c (strchr d cs))

strchr-here :
    (d c : ℕ) (cs : List ℕ) → (c == 0) ≡ false → (c == d) ≡ true → strchr d (c ∷ cs) ≡ some ([], cs)
unfolding strchr
strchr-here d c cs nz here = rw (nz, here) refl

strchr-end : (d c : ℕ) (cs : List ℕ) → (c == 0) ≡ true → strchr d (c ∷ cs) ≡ none
unfolding strchr
strchr-end d c cs z = rw z refl

-- The string in front of the first `d` has no `d`.
strchr-front :
    (d : ℕ) (cs front back : List ℕ) → strchr d cs ≡ some (front, back) → strchr d front ≡ none
unfolding strchr
strchr-front d [] front back e = absurd (cc e)
strchr-front d (c ∷ cs) front back e = elim (Bool-cases (c == 0)) [
  | inl z ↦ absurd (cc (e, strchr-end d c cs z))
  | inr nz ↦ elim (Bool-cases (c == d)) [
    | inl here ↦ let empty : front ≡ [] = cc (e, strchr-here d c cs nz here) in ap (strchr d) empty
    | inr past ↦
        let (rest, split, same) =
          longer-inv c (strchr d cs) front back (sym (strchr-past d c cs nz past) ∙ e) in
        ap (strchr d) same
        ∙ strchr-past d c rest nz past
        ∙ ap (longer c) (strchr-front d cs rest back split)
        ∙ longer-none c
  ]
]

listen-bind :
    (sk : Skynet) (g : Gate) (host portstr : List ℕ)
    → strchr b':' g.bind ≡ some (host, portstr)
    → bad_port (strtol portstr) ≡ false
    → (listen sk g).0.bind ≡ host
unfolding listen start_listen listen_at
listen-bind sk g host portstr split good = rw (listen, start_listen, split, good) refl

listen-refused :
    (sk : Skynet) (g : Gate)
    → strchr b':' g.bind ≡ none
    → bad_port (strtol g.bind) ≡ true
    → listen sk g ≡ (g, [])
unfolding listen start_listen listen_at
listen-refused sk g whole bad = rw (listen, start_listen, whole, bad) refl

close-bind : (g : Gate) → (close g).0.bind ≡ g.bind
unfolding close
close-bind g = elim (Bool-cases (is_negative g.listen_id)) [ inl e ↦ rw e refl | inr e ↦ rw e refl ]

-- With an address `host:port` whose host is no number above 0, the gate listens once: after
-- `listen` and `close`, another `listen` changes nothing and asks skynet for nothing.
pub listen-close_again :
    (sk : Skynet) (g : Gate) (host portstr : List ℕ)
    → strchr b':' g.bind ≡ some (host, portstr)
    → bad_port (strtol portstr) ≡ false
    → bad_port (strtol host) ≡ true
    → listen sk (close (listen sk g).0).0 ≡ ((close (listen sk g).0).0, [])
listen-close_again sk g host portstr split good bad =
    let kept : (close (listen sk g).0).0.bind ≡ host =
      close-bind (listen sk g).0 ∙ listen-bind sk g host portstr split good in
    listen-refused sk (close (listen sk g).0).0
      (ap (strchr b':') kept ∙ strchr-front b':' g.bind host portstr split)
      (ap (λ cs. bad_port (strtol cs)) kept ∙ bad)
