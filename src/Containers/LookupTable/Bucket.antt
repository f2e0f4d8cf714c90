-- ===== src/Containers/LookupTable/Bucket.antt =====
-- One bucket: lookups after a write and after a removal.
use mathlib.Core.Logic.{ite}
use playground_cpp.Common.{◌≡◌, refl, Option, none, some, List, [], ◌∷◌, arith, or_else}
use playground_cpp.Containers.LookupTable.{
  find_entry, bucket_add_or_update, bucket_remove, copy_bucket,
}

module _ {ℓ} {K V : Type ℓ} (dec : Discrete K) where
  -- No two entries of a bucket have one key.
  abbrev pub Unique : List (K × V) → Type ℓ
  Unique [] = Unit
  Unique ((k, v) ∷ b) = (find_entry dec k b ≡ none) × Unique b

  pub find_entry-add :
      (j k : K) (v : V) (b : List (K × V))
      → find_entry dec j (bucket_add_or_update dec k v b)
        ≡ ite (dec k j) (some v) (find_entry dec j b)
  unfolding find_entry bucket_add_or_update
  find_entry-add j k v [] = refl
  find_entry-add j k v ((i, w) ∷ b) = ground (arith, find_entry-add j k v b)

  pub find_entry-remove :
      (j k : K) (b : List (K × V))
      → Unique b
      → find_entry dec j (bucket_remove dec k b) ≡ ite (dec k j) none (find_entry dec j b)
  unfolding find_entry bucket_remove
  find_entry-remove j k [] u = ground arith
  find_entry-remove j k ((i, w) ∷ b) u = ground (arith, find_entry-remove j k b u.1)

  pub add-Unique :
      (k : K) (v : V) (b : List (K × V)) → Unique b → Unique (bucket_add_or_update dec k v b)
  unfolding find_entry bucket_add_or_update
  add-Unique k v [] u = (refl, tt)
  add-Unique k v ((i, w) ∷ b) u = ground (arith, add-Unique k v b u.1, find_entry-add i k v b)

  pub remove-Unique : (k : K) (b : List (K × V)) → Unique b → Unique (bucket_remove dec k b)
  unfolding bucket_remove
  remove-Unique k [] u = tt
  remove-Unique k ((i, w) ∷ b) u =
      ground (arith, remove-Unique k b u.1, find_entry-remove i k b u.1)

  -- Copying a bucket into a map puts its entries over those of the map.
  pub copy_bucket-find_entry :
      (j : K) (b : List (K × V)) (res : K → Option V)
      → Unique b
      → copy_bucket dec b res j ≡ or_else (find_entry dec j b) (res j)
  unfolding copy_bucket find_entry
  copy_bucket-find_entry j [] res u = refl
  copy_bucket-find_entry j ((i, w) ∷ b) res u =
      ground (arith, copy_bucket-find_entry j b (λ k. ite (dec i k) (some w) (res k)) u.1)
