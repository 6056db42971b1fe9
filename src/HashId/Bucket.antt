-- ===== src/HashId/Bucket.antt =====
-- hashid.h: the bucket of an id lies in the hash array.
use Prim.Native.Nat.{min, digits, bit_and, bit_and-bitwise}
use myprogram.Prelude.{ℕ, zero, suc, ◌/◌, ◌≤◌, ◌<◌, arith}
use myprogram.HashId.{bucket}

masked-le : (n a b : ℕ) → digits (λ _. zero) min n a b ≤ b
masked-le zero a b = omega arith
masked-le (suc n) zero b = omega arith
masked-le (suc n) (suc a) b = omega (arith, masked-le n (suc a / 2) (b / 2))

bit_and-le : (a b : ℕ) → bit_and a b ≤ b
bit_and-le a b = omega (arith, bit_and-bitwise a b, masked-le a a b)

pub bucket-lt : (hashmod id : ℕ) → bucket hashmod id < suc hashmod
unfolding bucket
bucket-lt hashmod id = omega (arith, bit_and-le id hashmod)
