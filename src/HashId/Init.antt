-- ===== src/HashId/Init.antt =====
-- hashid_init and hashid_clear.
use myprogram.Prelude.{
  ℕ, zero, suc, ◌-◌, ◌*◌, ◌^◌, ◌≤◌, ◌≡◌, refl, sym, ap, true, none, [], arith, ltb, ok, Bool-cases,
  inl, inr,
}
use native.Mathlib.Nat.{pow-suc, one-le-pow}
use myprogram.HashId.{HashId, grow, blank, init, lookup}
use myprogram.HashId.Invariant.{Inv, used-zero}
use myprogram.HashId.Lookup.{lookup_of_Located}

-- From a power of two the loop reaches one that is not below `max`.
grow-power :
    (k e c max : ℕ)
    → c ≡ 2 ^ e
    → max ≤ 2 ^ 30
    → max ≤ c * 2 ^ k
    → (d : ℕ) × (grow (suc k) c max ≡ ok (2 ^ d)) × (max ≤ 2 ^ d)
unfolding grow
grow-power zero e c max p small enough = (e, ground arith, omega arith)
grow-power (suc k) e c max p small enough = elim (Bool-cases (ltb c max)) [
  | inr done ↦ (e, rw done (ap ok p), ground arith)
  | inl more ↦
      let fits : ltb (c * 2) (2 ^ 31) ≡ true = ground arith in
      let (d, run, reached) =
        grow-power k (suc e) (c * 2) max (omega (arith, pow-suc 2 e)) small
          (omega (arith, ap (λ (t : ℕ). c * t) (pow-suc 2 k))) in
      (d, rw (more, fits) run, reached)
]

pub blank-Inv : (max d : ℕ) → suc (2 ^ d - 1) ≡ 2 ^ d → Inv (blank max (2 ^ d)) (λ _. [])
blank-Inv max d positive = record {
  id_len = refl;
  hash_len = sym positive;
  heads = λ h l. refl;
  nexts = λ h. tt;
  distinct = λ h. tt;
  sound = λ h i m. cc;
  complete = λ i l filled. absurd (filled refl);
  idle = λ i l e. refl;
  count = sym (used-zero max _ (λ i l. refl));
  unique = λ i j l l' filled. absurd (filled refl);
}

-- For a size up to 2 ^ 30 hashid_init ends and gives a well-formed table of that size with no id in
-- it, whose hash array is a power of two that is not smaller.
pub init-Inv :
    (max : ℕ)
    → max ≤ 2 ^ 30
    → (t : HashId) × (d : ℕ) × (init max ≡ ok t)
      × Inv t (λ _. [])
      × (t.cap ≡ max)
      × (suc t.hashmod ≡ 2 ^ d)
      × (max ≤ suc t.hashmod)
      × ((id : ℕ) → lookup t id ≡ ok none)
unfolding init
init-Inv max small =
    let (d, run, enough) = grow-power 31 4 16 max refl small (omega arith) in
    let positive : suc (2 ^ d - 1) ≡ 2 ^ d = omega (arith, one-le-pow d 2 (omega arith)) in
    let v = blank-Inv max d positive in
    (
      blank max (2 ^ d),
      d,
      rw run,
      v,
      refl,
      positive,
      omega arith,
      λ id. lookup_of_Located v id none (λ i l filled. absurd (filled refl)),
    )
