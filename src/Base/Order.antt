-- ===== src/Base/Order.antt =====
-- The byte order of strings is a strict total order.
use mathlib.Core.Path.{◌≡◌, refl, ap}
use mathlib.Core.Bool.{true, false}
use mathlib.Core.Logic.{◌≢◌}
use mathlib.Core.List.{[], ◌∷◌}
use native.Mathlib.Omega.{arith}
use notification_manager.Base.Text.{Str, str_lt}

pub str_lt_irrefl : (s : Str) → str_lt s s ≡ false
unfolding str_lt
str_lt_irrefl [] = refl
str_lt_irrefl (x ∷ xs) = ground (arith, str_lt_irrefl xs)

pub str_lt_trans : (r s t : Str) → str_lt r s ≡ true → str_lt s t ≡ true → str_lt r t ≡ true
unfolding str_lt
str_lt_trans [] [] t h k = cc
str_lt_trans [] (y ∷ ys) [] h k = cc
str_lt_trans [] (y ∷ ys) (z ∷ zs) h k = refl
str_lt_trans (x ∷ xs) [] t h k = cc
str_lt_trans (x ∷ xs) (y ∷ ys) [] h k = cc
str_lt_trans (x ∷ xs) (y ∷ ys) (z ∷ zs) h k = ground (arith, str_lt_trans xs ys zs)

pub str_lt_total : (s t : Str) → s ≢ t → str_lt s t ≡ false → str_lt t s ≡ true
unfolding str_lt
str_lt_total [] [] n h = absurd (n refl)
str_lt_total [] (y ∷ ys) n h = cc
str_lt_total (x ∷ xs) [] n h = refl
str_lt_total (x ∷ xs) (y ∷ ys) n h = ground (arith, str_lt_total xs ys)

pub str_lt_ne : (s t : Str) → str_lt s t ≡ true → s ≢ t
str_lt_ne s t h e = cc (str_lt_irrefl t, ap (λ r. str_lt r t) e)
