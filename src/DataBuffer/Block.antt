-- ===== src/DataBuffer/Block.antt =====
-- A new block of databuffer.h: its cells but the first make a free list.
use myprogram.Prelude.{
  ℕ, zero, suc, ◌+◌, ◌-◌, ◌*◌, ◌≤◌, ◌<◌, ◌≡◌, refl, true, Option, none, some, List, [], ◌∷◌, arith,
  ◌==◌, if◌then◌else◌, head?, has, update, Distinct,
}
use myprogram.DataBuffer.{Message, message, MessagePool, message_pool, fill, new_block}
use myprogram.DataBuffer.Invariant.{Free}

-- `n` addresses from `a` on.
pub up : ℕ → ℕ → List ℕ
up zero a = []
up (suc n) a = a ∷ up n (suc a)

pub has-up : (n a b : ℕ) → has b (up n a) ≡ true → (a ≤ b) × (b < a + n)
unfolding up
has-up zero a b h = cc
has-up (suc n) a b h = ground (arith, has-up n (suc a) b)

pub head?-up : (n a : ℕ) → head? (up (suc n) a) ≡ some a
unfolding up
head?-up n a = refl

pub up-Distinct : (n a : ℕ) → Distinct (up n a)
unfolding up
up-Distinct zero a = tt
up-Distinct (suc n) a = (ground (arith, has-up n (suc a) a), up-Distinct n (suc a))

fill-outside : (n a b : ℕ) (f : ℕ → Option Message) → b < a → fill n a f b ≡ f b
unfolding fill
fill-outside zero a b f h = refl
fill-outside (suc n) a b f h =
    ground (arith, fill-outside n (suc a) b (update f a (some (message none 0 (some (suc a))))))

fill-inside :
    (n a b : ℕ) (f : ℕ → Option Message)
    → a ≤ b
    → b < a + n
    → fill n a f b ≡ some (message none 0 (some (suc b)))
unfolding fill
fill-inside zero a b f p q = absurd (omega arith)
fill-inside (suc n) a b f p q =
    let g = update f a (some (message none 0 (some (suc a)))) in
    ground (arith, fill-outside n (suc a) b g, fill-inside n (suc a) b g)

up-Free :
    (n a : ℕ) (g : ℕ → Option Message)
    → ((b : ℕ)
        → a ≤ b
        → b < a + n
        → g b ≡ some (message none 0 (if suc b == a + n then none else some (suc b))))
    → Free g (up n a)
unfolding up
up-Free zero a g h = tt
up-Free (suc zero) a g h = (ground (arith, h a), tt)
up-Free (suc (suc n)) a g h =
    (ground (arith, h a), up-Free (suc n) (suc a) g (λ b p q. ground (arith, h b)))

module _ (mp : MessagePool) where
  abbrev pub base : ℕ
  base = message_pool * mp.pool

  pub new_block-Free : Free (new_block mp).1.cell (up (message_pool - 1) (suc base))
  unfolding new_block
  new_block-Free =
      up-Free (message_pool - 1) (suc base) _
        (λ b p q. ground (arith, fill-inside (message_pool - 1) (suc base) b mp.cell p q))

  pub new_block-below : (b : ℕ) → b < base → (new_block mp).1.cell b ≡ mp.cell b
  unfolding new_block
  new_block-below b h = ground (arith, fill-outside (message_pool - 1) (suc base) b mp.cell)
