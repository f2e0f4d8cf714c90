-- ===== src/Common/Counts.antt =====
-- How many elements of a list pass a test. Lists on which every test counts the same hold the same
-- items, each as often.
use Prim.Native.Nat.{ℕ, zero, suc, ◌+◌}
use mathlib.Core.Path.{◌≡◌, refl}
use mathlib.Core.Bool.{Bool, true}
use mathlib.Core.Option.{some}
use mathlib.Core.List.{List, [], ◌∷◌, ◌++◌}
use native.Mathlib.Omega.{arith}
use playground_cpp.Common.Tests.{if◌then◌else◌}
use playground_cpp.Common.Lists.{length, get_elem?, set}

module _ {ℓ} {A : Type ℓ} where
  abbrev pub weight : (A → Bool) → A → ℕ
  weight f x = if f x then 1 else 0

  abbrev pub count : (A → Bool) → List A → ℕ
  count f [] = 0
  count f (x ∷ xs) = weight f x + count f xs

  pub count-append : (f : A → Bool) (xs ys : List A) → count f (xs ++ ys) ≡ count f xs + count f ys
  count-append f [] ys = omega arith
  count-append f (x ∷ xs) ys = omega (arith, count-append f xs ys)

  pub count-set :
      (f : A → Bool) (xs : List A) (i : ℕ) (x y : A)
      → get_elem? xs i ≡ some x
      → count f (set xs i y) + weight f x ≡ count f xs + weight f y
  count-set f [] i x y e = cc
  count-set f (z ∷ xs) zero x y e = ground arith
  count-set f (z ∷ xs) (suc i) x y e = omega (arith, count-set f xs i x y e)

  pub count_all : (xs : List A) → count (λ x. true) xs ≡ length xs
  count_all [] = refl
  count_all (x ∷ xs) = omega (arith, count_all xs)

  -- A test that passes less often.
  pub count-none :
      (f g : A → Bool) (xs : List A)
      → ((x : A) → g x ≡ true → f x ≡ true)
      → count f xs ≡ 0
      → count g xs ≡ 0
  count-none f g [] h e = refl
  count-none f g (x ∷ xs) h e =
      let ih = count-none f g xs h (omega arith) in let hx = h x in ground arith

  abbrev pub SameItems : List A → List A → Type ℓ
  SameItems xs ys = (f : A → Bool) → count f xs ≡ count f ys
