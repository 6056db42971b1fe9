-- ===== src/Examples/Lines.antt =====
-- The function `error` of log.cpp with the arguments `a` and `b`.
use myprogram.Prelude.{◌≡◌, refl, true, false, none, some, [], ◌∷◌, arith, if◌then◌else◌, ok}
use myprogram.CText.{ascii, c_string}
use myprogram.Log.{join, lerror}
use myprogram.Log.Logged.{lerror-logged}

lerror-logged_example :
    (lerror (λ n. true) false (ascii "a" ∷ ascii "b" ∷ []) 3
      ≡ ok ((if false then none else some (c_string (join (ascii "a" ∷ ascii "b" ∷ [])))), 3))
    × (lerror (λ n. true) false [] 3 ≡ ok (none, 3))
unfolding join c_string
lerror-logged_example =
    lerror-logged (λ n. true) false (ascii "a") (ascii "b" ∷ []) 3 (λ n small. refl) (omega arith)
