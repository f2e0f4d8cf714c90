-- ===== src/Containers/DeleteListStack/Hands.antt =====
-- What a thread of lockfree_statck_delete_list.hpp has in its hands.
use playground_cpp.Common.{
  ℕ, ◌≡◌, ◌≢◌, refl, sym, ◌∙◌, ap, subst, inl, inr, ◌⊎◌, Option, none, some, List, ◌∷◌, In,
  Distinct,
}
use playground_cpp.Containers.DeleteListStack.Invariant.{with_own}

-- A node in the hands of a thread is its own or in its chain.
pub own-or-chain :
    (a : ℕ) (o : Option ℕ) (chain : List ℕ) → In a (with_own o chain) → (o ≡ some a) ⊎ In a chain
own-or-chain a none chain i = inr i
own-or-chain a (some b) chain (inl e) = inl (ap some e)
own-or-chain a (some b) chain (inr i) = inr i

pub Distinct-own :
    (o : Option ℕ) (chain : List ℕ)
    → Distinct chain
    → ((a : ℕ) → o ≡ some a → In a chain → ⊥)
    → Distinct (with_own o chain)
Distinct-own none chain d out = d
Distinct-own (some a) chain d out = (out a refl, d)

pub own-Distinct :
    (o : Option ℕ) (chain : List ℕ)
    → Distinct (with_own o chain)
    → Distinct chain × ((a : ℕ) → o ≡ some a → In a chain → ⊥)
own-Distinct none chain d = (d, λ a e. absurd (cc e))
own-Distinct (some b) chain (out, d) = (d, λ a e i. out (subst (λ c. In c chain) (cc e) i))

-- The hands without the first node of the chain.
pub without_first :
    (o : Option ℕ) (a : ℕ) (chain : List ℕ)
    → Distinct (with_own o (a ∷ chain))
    → Distinct (with_own o chain)
      × ((b : ℕ) → In b (with_own o chain) → In b (with_own o (a ∷ chain)) × (a ≢ b))
without_first none a chain (out, d) =
    (d, λ b i. (inr i, λ e. out (subst (λ c. In c chain) (sym e) i)))
without_first (some x) a chain (out, (out', d)) = (
  (λ i. out (inr i), d),
  λ b i. elim i [
    | inl e ↦ (inl e, λ same. out (inl (same ∙ sym e)))
    | inr j ↦ (inr (inr j), λ e. out' (subst (λ c. In c chain) (sym e) j))
  ],
)
