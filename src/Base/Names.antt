-- ===== src/Base/Names.antt =====
-- Names, as C strings without their NUL, paths of names, and `strcmp` as a test.
use Prim.Native.Nat.{ℕ}
use mathlib.Core.Path.{◌≡◌, refl}
use mathlib.Core.Bool.{Bool, true, false, ◌&&◌}
use mathlib.Core.List.{List, [], ◌∷◌}
use native.Mathlib.Omega.{arith}
use rbus.Base.Tests.{◌==◌}

abbrev pub Name : Type 0
Name = List ℕ

-- `strcmp` is 0.
unfoldable pub same : Name → Name → Bool
same [] [] = true
same [] (b ∷ bs) = false
same (a ∷ cs) [] = false
same (a ∷ cs) (b ∷ bs) = (a == b) && same cs bs

pub same_refl : (a : Name) → same a a ≡ true
unfolding same
same_refl [] = refl
same_refl (c ∷ a) = ground (arith, same_refl a)

pub eq_of_same : (a b : Name) → same a b ≡ true → a ≡ b
unfolding same
eq_of_same [] [] h = refl
eq_of_same [] (d ∷ b) h = cc
eq_of_same (c ∷ a) [] h = cc
eq_of_same (c ∷ a) (d ∷ b) h = ground (arith, eq_of_same a b)

-- Two names that are both the same as a third one.
pub same-same : (a b c : Name) → same a c ≡ true → same b c ≡ true → same a b ≡ true
same-same a b c h k = rw (eq_of_same a c h, eq_of_same b c k) (same_refl c)
