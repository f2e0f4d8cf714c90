-- ===== src/Containers/LookupTable/Snapshot.antt =====
-- GetMap of threadsafe_lookup_table.hpp.
use playground_cpp.Common.{
  ℕ, zero, suc, ◌%◌, ◌≡◌, ◌≢◌, refl, Option, none, some, List, [], ◌∷◌, arith, length, get_elem?,
  or_else, ◌∙◌, ap, sym, Option-cases, inl, inr,
}
use playground_cpp.Containers.LookupTable.{find_entry, copy_bucket, copy_buckets, get_map}
use playground_cpp.Containers.LookupTable.Bucket.{Unique, copy_bucket-find_entry}
use playground_cpp.Containers.LookupTable.Laws.{Inv, contents, in_bucket}

module _ {ℓ} {K V : Type ℓ} (dec : Discrete K) where
  abbrev AllUnique : List (List (K × V)) → Type ℓ
  AllUnique bs = (i : ℕ) (b : List (K × V)) → get_elem? bs i ≡ some b → Unique dec b

  -- Buckets other than number `m` do not have the key.
  abbrev OnlyAt : ℕ → K → List (List (K × V)) → Type ℓ
  OnlyAt m j bs =
      (i : ℕ) (b : List (K × V)) → get_elem? bs i ≡ some b → i ≢ m → find_entry dec j b ≡ none

  abbrev Nowhere : K → List (List (K × V)) → Type ℓ
  Nowhere j bs = (i : ℕ) (b : List (K × V)) → get_elem? bs i ≡ some b → find_entry dec j b ≡ none

  copy_buckets-Nowhere :
      (j : K) (bs : List (List (K × V))) (res : K → Option V)
      → AllUnique bs
      → Nowhere j bs
      → copy_buckets dec bs res j ≡ res j
  unfolding copy_buckets
  copy_buckets-Nowhere j [] res u out = refl
  copy_buckets-Nowhere j (b ∷ bs) res u out =
      copy_buckets-Nowhere j bs (copy_bucket dec b res) (λ i c e. u (suc i) c e)
        (λ i c e. out (suc i) c e)
      ∙ (copy_bucket-find_entry dec j b res (u 0 b refl)
          ∙ ap (λ o. or_else o (res j)) (out 0 b refl))

  copy_buckets-at :
      (m : ℕ) (j : K) (bs : List (List (K × V))) (res : K → Option V)
      → AllUnique bs
      → OnlyAt m j bs
      → copy_buckets dec bs res j ≡ or_else (in_bucket dec j (get_elem? bs m)) (res j)
  unfolding copy_buckets
  copy_buckets-at m j [] res u only = refl
  copy_buckets-at zero j (b ∷ bs) res u only =
      copy_buckets-Nowhere j bs (copy_bucket dec b res) (λ i c e. u (suc i) c e)
        (λ i c e. only (suc i) c e (omega arith))
      ∙ copy_bucket-find_entry dec j b res (u 0 b refl)
  copy_buckets-at (suc m) j (b ∷ bs) res u only =
      copy_buckets-at m j bs (copy_bucket dec b res) (λ i c e. u (suc i) c e)
        (λ i c e ne. only (suc i) c e (omega arith))
      ∙ ap (or_else (in_bucket dec j (get_elem? bs m))) (
          copy_bucket-find_entry dec j b res (u 0 b refl)
          ∙ ap (λ o. or_else o (res j)) (only 0 b refl (omega arith)))

or_else-none {ℓ} : {A : Type ℓ} (o : Option A) → or_else o none ≡ o
or_else-none none = refl
or_else-none (some a) = refl

-- The map that GetMap builds has, for every key, what the table says of it.
pub get_map-contents {ℓ} :
    {K V : Type ℓ} (dec : Discrete K) (hasher : K → ℕ) (bs : List (List (K × V))) (j : K)
    → Inv dec hasher bs
    → get_map dec bs j ≡ contents dec hasher bs j
unfolding get_map
get_map-contents {K = K} {V = V} dec hasher bs j inv =
    copy_buckets-at dec (hasher j % length bs) j bs (λ k. none) inv.unique elsewhere
    ∙ or_else-none (contents dec hasher bs j)
  where
    elsewhere :
        (i : ℕ) (b : List (K × V))
        → get_elem? bs i ≡ some b
        → i ≢ hasher j % length bs
        → find_entry dec j b ≡ none
    elsewhere i b e ne = elim (Option-cases (find_entry dec j b)) [
      | inl q ↦ q
      | inr (v, q) ↦ absurd (ne (sym (inv.placed i b j v e q)))
    ]
