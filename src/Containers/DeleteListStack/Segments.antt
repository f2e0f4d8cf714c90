-- ===== src/Containers/DeleteListStack/Segments.antt =====
-- Chains of nodes through `next_`, of lockfree_statck_delete_list.hpp.
use playground_cpp.Common.{
  ℕ, ◌≡◌, ◌≢◌, refl, sym, ap, subst, inl, inr, Option, none, some, List, [], ◌∷◌, ◌++◌, update,
  update_self, update-ne, In, In-append, Distinct,
}
use playground_cpp.Containers.SharedStack.{Node}

module _ {ℓ} {T : Type ℓ} where
  -- From pointer `p` the addresses `xs` follow each other, and the last one points to `q`.
  abbrev pub Segment : (ℕ → Node T) → Option ℕ → List ℕ → Option ℕ → Type 0
  Segment nodes p [] q = p ≡ q
  Segment nodes p (x ∷ xs) q = (p ≡ some x) × Segment nodes ((nodes x).next_) xs q

  pub Segment-same :
      (nodes nodes' : ℕ → Node T) (p q : Option ℕ) (xs : List ℕ)
      → ((a : ℕ) → In a xs → (nodes' a).next_ ≡ (nodes a).next_)
      → Segment nodes p xs q
      → Segment nodes' p xs q
  Segment-same nodes nodes' p q [] h s = s
  Segment-same nodes nodes' p q (x ∷ xs) h (e, s) = (
    e,
    subst (λ n. Segment nodes' n xs q) (sym (h x (inl refl)))
        (Segment-same nodes nodes' ((nodes x).next_) q xs (λ a i. h a (inr i)) s),
  )

  pub Segment-append :
      (nodes : ℕ → Node T) (p q r : Option ℕ) (xs ys : List ℕ)
      → Segment nodes p xs q
      → Segment nodes q ys r
      → Segment nodes p (xs ++ ys) r
  Segment-append nodes p q r [] ys s t = subst (λ n. Segment nodes n ys r) (sym s) t
  Segment-append nodes p q r (x ∷ xs) ys (e, s) t =
      (e, Segment-append nodes ((nodes x).next_) q r xs ys s t)

  -- What follows an address of a segment.
  pub Segment-after :
      (nodes : ℕ → Node T) (p q : Option ℕ) (xs : List ℕ) (a : ℕ) (ys : List ℕ)
      → Segment nodes p (xs ++ a ∷ ys) q
      → Segment nodes ((nodes a).next_) ys q
  Segment-after nodes p q [] a ys s = s.1
  Segment-after nodes p q (x ∷ xs) a ys s = Segment-after nodes ((nodes x).next_) q xs a ys s.1

  -- The last address of a segment, which stands in it once, is given a new `next_`.
  pub Segment-set :
      (nodes : ℕ → Node T) (p q r : Option ℕ) (xs : List ℕ) (a : ℕ)
      → Distinct (xs ++ a ∷ [])
      → Segment nodes p (xs ++ a ∷ []) q
      → Segment (update nodes a (record (nodes a) { next_ = r })) p (xs ++ a ∷ []) r
  Segment-set nodes p q r [] a d (e, s) =
      (e, ap (λ n. n.next_) (update_self nodes a (record (nodes a) { next_ = r })))
  Segment-set nodes p q r (x ∷ xs) a (out, d) (e, s) =
      let ne : a ≢ x = λ same. out (In-append x xs (a ∷ []) (inl same)) in
      (
        e,
        subst
            (λ n.
              Segment (update nodes a (record (nodes a) { next_ = r })) (n.next_) (xs ++ a ∷ []) r)
            (sym (update-ne nodes a (record (nodes a) { next_ = r }) x ne))
            (Segment-set nodes ((nodes x).next_) q r xs a d s),
      )

  -- A null pointer leads through no address.
  pub Segment-none :
      (nodes : ℕ → Node T) (q : Option ℕ) (xs : List ℕ) → Segment nodes none xs q → xs ≡ []
  Segment-none nodes q [] s = refl
  Segment-none nodes q (x ∷ xs) (e, s) = absurd (cc e)

  pub Segment-some :
      (nodes : ℕ → Node T) (a : ℕ) (xs : List ℕ)
      → Segment nodes (some a) xs none
      → (ys : List ℕ) × ((xs ≡ a ∷ ys) × Segment nodes ((nodes a).next_) ys none)
  Segment-some nodes a [] e = absurd (cc e)
  Segment-some nodes a (x ∷ xs) (e, s) =
      let same : x ≡ a = cc e in
      (xs, (ap (λ y. y ∷ xs) same, subst (λ y. Segment nodes ((nodes y).next_) xs none) same s))
