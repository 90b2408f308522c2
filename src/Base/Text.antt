-- ===== src/Base/Text.antt =====
-- Go strings and byte slices, as lists of bytes, with equality and the order of bytes.Compare.
use Prim.Native.Nat.{ℕ}
use Prim.Native.Char.{code}
use Prim.Native.String.{String}
use mathlib.Core.Path.{refl, ap₂}
use mathlib.Core.Bool.{Bool, true, false, ◌||◌}
use mathlib.Core.List.{List, [], ◌∷◌}
use native.Mathlib.Decide.{ℕ_discrete}
use notification_manager.Base.Tests.{ltb, if◌then◌else◌}

abbrev pub Str : Type 0
Str = List ℕ

unfoldable pub dec_str : Discrete Str
unfolding ℕ_discrete
dec_str [] [] = yes refl
dec_str [] (y ∷ ys) = no (λ e. cc)
dec_str (x ∷ xs) [] = no (λ e. cc)
dec_str (x ∷ xs) (y ∷ ys) = elim (ℕ_discrete x y) [
  | yes p ↦ elim (dec_str xs ys) [ yes q ↦ yes (ap₂ ◌∷◌ p q) | no q ↦ no (λ e. q (cc)) ]
  | no p ↦ no (λ e. p (cc))
]

abbrev pub str_eq : Str → Str → Bool
str_eq s t = elim (dec_str s t) [ yes _ ↦ true | no _ ↦ false ]

-- A string literal of the source: its bytes.
abbrev pub lit : String → Str
lit String.[] = []
lit (String.◌∷◌ c s) = code c ∷ lit s

abbrev pub is_empty : Str → Bool
is_empty [] = true
is_empty (c ∷ s) = false

-- s comes before t in the byte order.
unfoldable pub str_lt : Str → Str → Bool
str_lt [] [] = false
str_lt [] (y ∷ ys) = true
str_lt (x ∷ xs) [] = false
str_lt (x ∷ xs) (y ∷ ys) =
    let rest = str_lt xs ys in if ltb x y then true else if ltb y x then false else rest

-- Membership in a set of strings that is kept as a list.
unfoldable pub contains : List Str → Str → Bool
contains [] s = false
contains (x ∷ xs) s = str_eq x s || contains xs s
