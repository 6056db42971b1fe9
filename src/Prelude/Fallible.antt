-- ===== src/Prelude/Fallible.antt =====
-- What a run of C code comes to, and arrays with checked access.
use Prim.Native.Nat.{ℕ, ◌<◌}
use mathlib.Core.Path.{◌≡◌}
use mathlib.Core.Bool.{Bool, true, false}
use native.Mathlib.Omega.{arith}
use myprogram.Prelude.Tests.{ltb, ◌==◌, if◌then◌else◌}

-- `fault` is a failed assert or undefined behaviour: a null or wild pointer, an index outside its
-- array, an overflow of a signed int. `out_of_fuel` is a loop that its fuel does not finish.
pub data Run {ℓ} (A : Type ℓ) : Type ℓ where
  ok : A → Run A
  fault : Run A
  out_of_fuel : Run A

infixl 5 ◌>>=◌ ◌>>◌
abbrev pub ◌>>=◌ {ℓ κ} : {A : Type ℓ} {B : Type κ} → Run A → (A → Run B) → Run B
ok a >>= f = f a
fault >>= f = fault
out_of_fuel >>= f = out_of_fuel

abbrev pub ◌>>◌ {ℓ} : {B : Type ℓ} → Run (Unit {0}) → Run B → Run B
m >> k = m >>= λ _. k

-- `assert(b)`, and any other condition without which the code has no behaviour.
abbrev pub assert : Bool → Run (Unit {0})
assert true = ok tt
assert false = fault

pub record Array {ℓ} (A : Type ℓ) : Type ℓ where
  pub len : ℕ
  pub cell : ℕ → A

module _ {ℓ} {A : Type ℓ} where
  -- `a[i]`
  unfoldable pub get : Array A → ℕ → Run A
  get a i = if ltb i a.len then ok (a.cell i) else fault

  abbrev pub update : (ℕ → A) → ℕ → A → ℕ → A
  update f i v j = if j == i then v else f j

  abbrev pub written : Array A → ℕ → A → Array A
  written a i v = record { len = a.len; cell = update a.cell i v }

  -- `a[i] = v`
  unfoldable pub put : Array A → ℕ → A → Run (Array A)
  put a i v = if ltb i a.len then ok (written a i v) else fault

  pub get-ok : (a : Array A) (i : ℕ) → i < a.len → get a i ≡ ok (a.cell i)
  unfolding get
  get-ok a i h = ground arith

  pub put-ok : (a : Array A) (i : ℕ) (v : A) → i < a.len → put a i v ≡ ok (written a i v)
  unfolding put
  put-ok a i v h = ground arith
