-- ===== src/Common/Tally.antt =====
-- How many numbers below a bound have a property.
use Prim.Native.Nat.{ℕ, zero, suc, ◌+◌, ◌≤◌, ◌<◌}
use mathlib.Core.Path.{◌≡◌, refl, sym, ap, ◌∙◌}
use mathlib.Core.Logic.{◌≢◌}
use mathlib.Core.Bool.{Bool, true, false}
use native.Mathlib.Omega.{arith}
use native.Mathlib.Decide.{ℕ_discrete}
use playground_cpp.Common.Tests.{if◌then◌else◌}
use playground_cpp.Common.Maps.{update, update_self, update-ne}

abbrev pub tally : ℕ → (ℕ → Bool) → ℕ
tally zero f = 0
tally (suc n) f = tally n f + (if f n then 1 else 0)

abbrev pub one : Bool → ℕ
one b = if b then 1 else 0

pub tally-le : (n : ℕ) (f : ℕ → Bool) → tally n f ≤ n
tally-le zero f = omega arith
tally-le (suc n) f = let ih = tally-le n f in ground arith

tally_same : (n : ℕ) (f g : ℕ → Bool) → ((u : ℕ) → u < n → f u ≡ g u) → tally n f ≡ tally n g
tally_same zero f g h = refl
tally_same (suc n) f g h =
    let ih = tally_same n f g (λ u lt. h u (omega arith)) in
    let e = h n (omega arith) in ground arith

pub tally-update :
    (n t : ℕ) (f g : ℕ → Bool)
    → t < n
    → ((u : ℕ) → t ≢ u → f u ≡ g u)
    → tally n f + one (g t) ≡ tally n g + one (f t)
tally-update zero t f g lt h = absurd (omega arith)
tally-update (suc n) t f g lt h = elim (ℕ_discrete t n) [
  | yes e ↦
      let same = tally_same n f g (λ u le. h u (λ x. omega arith)) in
      let ef = ap f e in let eg = ap g e in ground arith
  | no ne ↦ let ih = tally-update n t f g (omega arith) h in let last = h n ne in ground arith
]

pub tally_positive : (n u : ℕ) (f : ℕ → Bool) → u < n → f u ≡ true → 1 ≤ tally n f
tally_positive zero u f lt e = absurd (omega arith)
tally_positive (suc n) u f lt e = elim (ℕ_discrete u n) [
  | yes same ↦ let ef = ap f same in ground arith
  | no ne ↦ let ih = tally_positive n u f (omega arith) e in ground arith
]

-- It is more than one when two have the property.
pub tally_two :
    (n t u : ℕ) (f : ℕ → Bool) → t < n → u < n → t ≢ u → f t ≡ true → f u ≡ true → 2 ≤ tally n f
tally_two n t u f lt lu ne et eu =
    let less = tally-update n t f (update f t false) lt (λ v ne. sym (update-ne f t false v ne)) in
    let rest = tally_positive n u (update f t false) lu (update-ne f t false u ne ∙ eu) in
    let gone = update_self f t false in ground arith
