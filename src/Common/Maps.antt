-- ===== src/Common/Maps.antt =====
-- Tables indexed by a number (threads, addresses), and membership by recursion.
use Prim.Native.Nat.{ℕ}
use mathlib.Core.Path.{◌≡◌, refl, subst, sym, ◌∙◌}
use mathlib.Core.Logic.{◌≢◌, ◌⊎◌, inl, inr}
use mathlib.Core.List.{List, [], ◌∷◌, ◌++◌}
use native.Mathlib.Omega.{arith}
use native.Mathlib.Decide.{ℕ_discrete}
use mathlib.Core.Bool.{Bool, true, false}
use playground_cpp.Common.Tests.{if◌then◌else◌, ◌==◌, Bool-cases}

module _ {ℓ} {A : Type ℓ} where
  abbrev pub update : (ℕ → A) → ℕ → A → ℕ → A
  update f i a j = if i == j then a else f j

  pub update_self : (f : ℕ → A) (i : ℕ) (a : A) → update f i a i ≡ a
  update_self f i a = ground arith

  pub update-ne : (f : ℕ → A) (i : ℕ) (a : A) (j : ℕ) → i ≢ j → update f i a j ≡ f j
  update-ne f i a j h = ground arith

  -- An entry is given the value that it has.
  pub update-same : (f : ℕ → A) (i : ℕ) (a : A) → f i ≡ a → update f i a ≡ f
  update-same f i a e =
      let each : (j : ℕ) → update f i a j ≡ f j = λ j. elim (ℕ_discrete i j) [
        | yes same ↦ subst (λ k. update f i a k ≡ f k) same (update_self f i a ∙ sym e)
        | no ne ↦ update-ne f i a j ne
      ] in
      λ k j. each j k

-- `a` stands in the list.
abbrev pub In : ℕ → List ℕ → Type 0
In a [] = ⊥
In a (x ∷ xs) = (x ≡ a) ⊎ In a xs

abbrev pub Distinct : List ℕ → Type 0
Distinct [] = Unit
Distinct (x ∷ xs) = (In x xs → ⊥) × Distinct xs

abbrev pub member : ℕ → List ℕ → Bool
member a [] = false
member a (x ∷ xs) = let rest = member a xs in if x == a then true else rest

pub member-In : (a : ℕ) (xs : List ℕ) → In a xs → member a xs ≡ true
member-In a [] i = absurd i
member-In a (x ∷ xs) (inl e) = ground arith
member-In a (x ∷ xs) (inr i) = let ih = member-In a xs i in ground arith

pub In-member : (a : ℕ) (xs : List ℕ) → member a xs ≡ true → In a xs
In-member a [] e = absurd (cc e)
In-member a (x ∷ xs) e = elim (Bool-cases (x == a)) [
  | inl same ↦ inl (ground arith)
  | inr ne ↦ inr (In-member a xs (ground arith))
]

-- A property of every entry after the update of one.
pub at_each {ℓ ℓ'} :
    {A : Type ℓ} (P : ℕ → A → Type ℓ') (i : ℕ) (f : ℕ → A) (a : A)
    → P i a
    → ((j : ℕ) → i ≢ j → P j (f j))
    → (j : ℕ) → P j (update f i a j)
at_each P i f a own others j = elim (ℕ_discrete i j) [
  | yes e ↦ subst (λ k. P k (update f i a k)) e (rw (update_self f i a) own)
  | no ne ↦ rw (update-ne f i a j ne) (others j ne)
]

pub In-append : (a : ℕ) (xs ys : List ℕ) → In a ys → In a (xs ++ ys)
In-append a [] ys i = i
In-append a (x ∷ xs) ys i = inr (In-append a xs ys i)

pub append-In : (a : ℕ) (xs ys : List ℕ) → In a (xs ++ ys) → In a xs ⊎ In a ys
append-In a [] ys i = inr i
append-In a (x ∷ xs) ys (inl e) = inl (inl e)
append-In a (x ∷ xs) ys (inr i) = elim (append-In a xs ys i) [ inl h ↦ inl (inr h) | inr h ↦ inr h ]

pub Distinct-append :
    (xs ys : List ℕ)
    → Distinct xs
    → Distinct ys
    → ((a : ℕ) → In a xs → In a ys → ⊥)
    → Distinct (xs ++ ys)
Distinct-append [] ys dx dy apart = dy
Distinct-append (x ∷ xs) ys dx dy apart =
    let out : In x (xs ++ ys) → ⊥ =
      λ i. elim (append-In x xs ys i) [ inl h ↦ dx.0 h | inr h ↦ apart x (inl refl) h ] in
    (out, Distinct-append xs ys dx.1 dy (λ a i j. apart a (inr i) j))
