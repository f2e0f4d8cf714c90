-- ===== src/Algorithms/FindRecursive/Answer.antt =====
-- What FindRecursive of find.hpp returns.
use playground_cpp.Common.{
  subst, ℕ, zero, suc, ◌+◌, ◌-◌, ◌/◌, ◌<◌, ◌≤◌, ◌≡◌, ◌⊎◌, inl, inr, refl, Bool, true, false, ◌||◌,
  ltb, ◌==◌, if◌then◌else◌, arith, Bool-cases, ℕ_discrete, dec_lt,
}
use playground_cpp.Algorithms.FindRecursive.{
  search, search_stores, find_core, core_stores, find_recursive,
}

below : (r mid : ℕ) → r < mid → (r == mid) ≡ false
below r mid h = ground arith

at_end : (r mid : ℕ) → r ≡ mid → (r == mid) ≡ true
at_end r mid h = ground arith

halves : (begin length : ℕ) → begin + length / 2 + (length - length / 2) ≡ begin + length
halves begin length = omega arith

module _ (matches sees : ℕ → Bool) where
  -- A result for the positions from `begin` to `end`: a match, or `end` if nothing is
  -- stored, and then no position matches unless `done` was seen.
  data Right (begin end r : ℕ) (stores : Bool) : Type 0 where
    found : begin ≤ r → r < end → matches r ≡ true → stores ≡ true → Right begin end r stores
    missed :
        r ≡ end
        → stores ≡ false
        → ((i : ℕ) → begin ≤ i → i < end → matches i ≡ true → (j : ℕ) × (sees j ≡ true))
        → Right begin end r stores

  later :
      (begin end : ℕ) {r : ℕ} {stores : Bool}
      → matches begin ≡ false
      → Right (begin + 1) end r stores
      → Right begin end r stores
  later begin end m (found a b c d) = found (omega arith) b c d
  later begin end m (missed a b c) = missed a b λ i lo hi e. elim (ℕ_discrete begin i) [
    | yes same ↦ ground arith
    | no other ↦ c i (omega arith) hi e
  ]

  join :
      (begin mid end r r' : ℕ) (stores stores' : Bool)
      → begin ≤ mid
      → mid ≤ end
      → Right begin mid r stores
      → Right mid end r' stores'
      → Right begin end (if r == mid then r' else r) (stores || stores')
  join begin mid end r r' stores stores' lo hi (found a b c d) right =
      rw (below r mid b, d) (found (omega arith) (omega arith) c refl)
  join begin mid end r r' stores stores' lo hi (missed a b c) (found e f g h) =
      rw (at_end r mid a, b) (found (omega arith) (omega arith) g h)
  join begin mid end r r' stores stores' lo hi (missed a b c) (missed e f g) =
      rw (at_end r mid a, b)
        (missed e f λ i from below_end m. elim (dec_lt i mid) [
          | yes h ↦ c i from h m
          | no h ↦ g i (omega arith) below_end m
        ])

  search-Right :
      (n begin end : ℕ)
      → begin + n ≡ end
      → Right begin end (search matches sees n begin end) (search_stores matches sees n begin)
  unfolding search search_stores
  search-Right zero begin end e = missed refl refl (λ i a b c. absurd (omega arith))
  search-Right (suc n) begin end e = elim (Bool-cases (sees begin)) [
    | inl s ↦ rw (s) (missed refl refl (λ i a b c. (begin, s)))
    | inr s ↦ elim (Bool-cases (matches begin)) [
      | inl m ↦ rw (s, m) (found (omega arith) (omega arith) m refl)
      | inr m ↦ rw (s, m) (later begin end m (search-Right n (begin + 1) end (omega arith)))
    ]
  ]

  find_core-Right :
      (fuel begin length : ℕ)
      → length ≤ fuel
      → Right begin
          (begin + length)
          (find_core matches sees fuel begin length)
          (core_stores matches sees fuel begin length)
  unfolding find_core core_stores
  find_core-Right zero begin length le = missed refl refl (λ i a b c. absurd (omega arith))
  find_core-Right (suc fuel) begin length le =
      let mid = begin + length / 2 in
      elim (Bool-cases (length == 0)) [
        | inl z ↦ rw (z) (missed refl refl (λ i a b c. absurd (ground arith)))
        | inr nz ↦ elim (Bool-cases (ltb length 50)) [
          | inl s ↦ rw (nz, s) (search-Right length begin (begin + length) refl)
          | inr s ↦
              let left = find_core-Right fuel begin (length / 2) (ground arith) in
              let right =
                subst
                  (λ e.
                    Right mid e (find_core matches sees fuel mid (length - length / 2))
                      (core_stores matches sees fuel mid (length - length / 2)))
                  (halves begin length)
                  (find_core-Right fuel mid (length - length / 2) (ground arith)) in
              rw (nz, s)
                (join begin mid (begin + length) (find_core matches sees fuel begin (length / 2))
                  (find_core matches sees fuel mid (length - length / 2))
                  (core_stores matches sees fuel begin (length / 2))
                  (core_stores matches sees fuel mid (length - length / 2)) (omega arith)
                  (omega arith) left right)
        ]
      ]

  -- In every interleaving in which `done` is seen only if one of the loops stores it, FindRecursive
  -- returns a position that matches, or else `last`, and then no position matches.
  pub find_recursive_finds :
      (length : ℕ)
      → ((j : ℕ) → sees j ≡ true → core_stores matches sees length 0 length ≡ true)
      → (find_recursive matches sees length < length)
          × (matches (find_recursive matches sees length) ≡ true)
        ⊎ (find_recursive matches sees length ≡ length) × ((i : ℕ) → i < length → matches i ≡ false)
  unfolding find_recursive
  find_recursive_finds length honest = elim (find_core-Right length 0 length (omega arith)) [
    | found a b c d ↦ inl (omega arith, c)
    | missed a b c ↦ inr (
      omega arith,
      λ i lt. elim (Bool-cases (matches i)) [
        | inl m ↦
            let (j, s) = c i (omega arith) (omega arith) m in let h = honest j s in ground arith
        | inr m ↦ m
      ],
    )
  ]
