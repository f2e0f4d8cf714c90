-- ===== src/Containers/LookupTable.antt =====
-- include/playground/threading/threadsafe_lookup_table.hpp: a hash table with a list for each
-- bucket. A method holds the lock of its one bucket, and GetMap holds all of them, so each
-- function is one critical section. The hash function is a parameter, as std::hash is.
pub mod Bucket
pub mod Laws
pub mod Snapshot
mod Tests
use mathlib.Core.Logic.{ite}
use playground_cpp.Common.{
  ℕ, zero, suc, ◌%◌, Option, none, some, List, [], ◌∷◌, length, get_elem?, set, replicate, ◌==◌,
  if◌then◌else◌,
}

module _ {ℓ} {K V : Type ℓ} (dec : Discrete K) where
  -- `FindEntryFor`, with the entry's value for the iterator.
  unfoldable pub find_entry : K → List (K × V) → Option V
  find_entry key [] = none
  find_entry key ((k, v) ∷ b) = ite (dec k key) (some v) (find_entry key b)

  unfoldable pub bucket_value_for : K → V → List (K × V) → V
  unfolding find_entry
  bucket_value_for key default b = elim (find_entry key b) [ none ↦ default | some v ↦ v ]

  -- Writes the entry found, or appends a new one.
  unfoldable pub bucket_add_or_update : K → V → List (K × V) → List (K × V)
  bucket_add_or_update key val [] = (key, val) ∷ []
  bucket_add_or_update key val ((k, v) ∷ b) =
      ite (dec k key) ((k, val) ∷ b) ((k, v) ∷ bucket_add_or_update key val b)

  unfoldable pub bucket_remove : K → List (K × V) → List (K × V)
  bucket_remove key [] = []
  bucket_remove key ((k, v) ∷ b) = ite (dec k key) b ((k, v) ∷ bucket_remove key b)

module _ {ℓ} {K V : Type ℓ} (dec : Discrete K) (hasher : K → ℕ) where
  abbrev pub init : ℕ → List (List (K × V))
  init bucket_num = replicate bucket_num []

  -- `FindBucket`; the remainder by zero is undefined, `none`.
  unfoldable pub find_bucket : K → List (List (K × V)) → Option (ℕ × List (K × V))
  find_bucket key buckets =
      if length buckets == 0
      then none
      else let index = hasher key % length buckets in
        elim (get_elem? buckets index) [ none ↦ none | some b ↦ some (index, b) ]

  unfoldable pub value_for : K → V → List (List (K × V)) → Option V
  unfolding find_bucket bucket_value_for
  value_for key default buckets = elim (find_bucket key buckets) [
    | none ↦ none
    | some (_, b) ↦ some (bucket_value_for dec key default b)
  ]

  unfoldable pub add_or_update : K → V → List (List (K × V)) → Option (List (List (K × V)))
  unfolding find_bucket bucket_add_or_update
  add_or_update key val buckets = elim (find_bucket key buckets) [
    | none ↦ none
    | some (i, b) ↦ some (set buckets i (bucket_add_or_update dec key val b))
  ]

  unfoldable pub remove : K → List (List (K × V)) → Option (List (List (K × V)))
  unfolding find_bucket bucket_remove
  remove key buckets = elim (find_bucket key buckets) [
    | none ↦ none
    | some (i, b) ↦ some (set buckets i (bucket_remove dec key b))
  ]

-- `res[key] = value` on the std::map that GetMap returns.
module _ {ℓ} {K V : Type ℓ} (dec : Discrete K) where
  abbrev pub assign : K → V → (K → Option V) → K → Option V
  assign key val res k = ite (dec key k) (some val) (res k)

  unfoldable pub copy_bucket : List (K × V) → (K → Option V) → K → Option V
  copy_bucket [] res = res
  copy_bucket ((k, v) ∷ b) res = copy_bucket b (assign k v res)

  unfoldable pub copy_buckets : List (List (K × V)) → (K → Option V) → K → Option V
  unfolding copy_bucket
  copy_buckets [] res = res
  copy_buckets (b ∷ bs) res = copy_buckets bs (copy_bucket b res)

  unfoldable pub get_map : List (List (K × V)) → K → Option V
  unfolding copy_buckets
  get_map buckets = copy_buckets buckets (λ k. none)
