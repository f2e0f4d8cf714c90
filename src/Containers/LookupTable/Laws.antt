-- ===== src/Containers/LookupTable/Laws.antt =====
-- The table of threadsafe_lookup_table.hpp as a finite map.
use mathlib.Core.Logic.{ite, if_neg}
use playground_cpp.Common.{
  ℕ, ◌%◌, ◌<◌, ◌≡◌, ◌≢◌, refl, Option, none, some, List, [], arith, length, get_elem?, set,
  replicate, length-replicate, zero, suc, length-set, get_elem?-lt, get_elem?-bound,
  get_elem?-set_self, get_elem?-set_ne, ℕ_discrete, sym, ◌∙◌, ap, subst,
}
use playground_cpp.Containers.LookupTable.{
  init, find_entry, find_bucket, value_for, add_or_update, remove,
}
use playground_cpp.Containers.LookupTable.Bucket.{
  Unique, find_entry-add, find_entry-remove, add-Unique, remove-Unique,
}

abbrev pub or_default {ℓ} : {A : Type ℓ} → A → Option A → A
or_default d none = d
or_default d (some a) = a

abbrev pub in_bucket {ℓ} : {K V : Type ℓ} (dec : Discrete K) → K → Option (List (K × V)) → Option V
in_bucket dec key none = none
in_bucket dec key (some b) = find_entry dec key b

module _ {ℓ} {K V : Type ℓ} (dec : Discrete K) (hasher : K → ℕ) where
  -- What the table says of a key.
  abbrev pub contents : List (List (K × V)) → K → Option V
  contents bs key = in_bucket dec key (get_elem? bs (hasher key % length bs))

  -- There is a bucket, no bucket has a key twice, and each key is in the bucket of its hash.
  pub record Inv (bs : List (List (K × V))) : Type ℓ where
    pub nonempty : 0 < length bs
    pub unique : (i : ℕ) (b : List (K × V)) → get_elem? bs i ≡ some b → Unique dec b
    pub placed :
        (i : ℕ) (b : List (K × V)) (key : K) (v : V)
        → get_elem? bs i ≡ some b
        → find_entry dec key b ≡ some v
        → hasher key % length bs ≡ i

  -- A bucket is replaced by one that differs at one key, whose bucket it is.
  module _ (bs : List (List (K × V))) (inv : Inv bs) (key : K) (x : Option V) (b b' : List (K × V))
      (here : get_elem? bs (hasher key % length bs) ≡ some b) (u : Unique dec b')
      (differs : (j : K) → find_entry dec j b' ≡ ite (dec key j) x (find_entry dec j b)) where
    abbrev index : ℕ
    index = hasher key % length bs

    abbrev changed : List (List (K × V))
    changed = set bs index b'

    at_index : get_elem? changed index ≡ some b'
    at_index = get_elem?-set_self bs index b' (get_elem?-bound bs index b here)

    same_bucket : (i : ℕ) (c : List (K × V)) → index ≡ i → get_elem? changed i ≡ some c → b' ≡ c
    same_bucket i c q e = cc (subst (λ k. get_elem? changed k ≡ some b') q at_index)

    other_bucket : (i : ℕ) → index ≢ i → get_elem? changed i ≡ get_elem? bs i
    other_bucket i q = get_elem?-set_ne bs index i b' q

    placed_here : (j : K) (v : V) → find_entry dec j b' ≡ some v → hasher j % length bs ≡ index
    placed_here j v f = elim (dec key j) [
      | yes same ↦ sym (ap (λ k. hasher k % length bs) same)
      | no other ↦
          inv.placed index b j v here (sym (if_neg (dec key j) other _ _) ∙ (sym (differs j) ∙ f))
    ]

    pub changed-Inv : Inv changed
    changed-Inv = record {
      nonempty = omega (arith, length-set bs index b', inv.nonempty);
      unique = λ i c e. elim (ℕ_discrete index i) [
        | yes q ↦ subst (Unique dec) (same_bucket i c q e) u
        | no q ↦ inv.unique i c (sym (other_bucket i q) ∙ e)
      ];
      placed = λ i c j v e f. rw (length-set bs index b') (elim (ℕ_discrete index i) [
        | yes q ↦
            placed_here j v (subst (λ d. find_entry dec j d ≡ some v) (sym (same_bucket i c q e)) f)
            ∙ q
        | no q ↦ inv.placed i c j v (sym (other_bucket i q) ∙ e) f
      ]);
    }

    -- The bucket that is read for a key after the change.
    read_changed :
        (j : K) → contents changed j ≡ in_bucket dec j (get_elem? changed (hasher j % length bs))
    read_changed j =
        ap (λ n. in_bucket dec j (get_elem? changed (hasher j % n))) (length-set bs index b')

    pub contents-changed : (j : K) → contents changed j ≡ ite (dec key j) x (contents bs j)
    contents-changed j = read_changed j ∙ elim (ℕ_discrete index (hasher j % length bs)) [
      | yes q ↦
          ap (in_bucket dec j) (subst (λ k. get_elem? changed k ≡ some b') q at_index)
          ∙ (differs j
              ∙ ap (λ o. ite (dec key j) x (in_bucket dec j o))
                  (sym (subst (λ k. get_elem? bs k ≡ some b) q here)))
      | no q ↦
          ap (in_bucket dec j) (other_bucket (hasher j % length bs) q)
          ∙ sym (if_neg (dec key j) (λ same. q (ap (λ k. hasher k % length bs) same)) _ _)
    ]

  -- A new table says what the old one does but of one key.
  abbrev pub Changed : List (List (K × V)) → K → Option V → List (List (K × V)) → Type ℓ
  Changed bs key x bs' = Inv bs' × ((j : K) → contents bs' j ≡ ite (dec key j) x (contents bs j))

  find_bucket-some :
      (bs : List (List (K × V))) (key : K)
      → Inv bs
      → (b : List (K × V)) × (get_elem? bs (hasher key % length bs) ≡ some b)
        × (find_bucket dec hasher key bs ≡ some (hasher key % length bs, b))
  unfolding find_bucket
  find_bucket-some bs key inv =
      let (b, e) = get_elem?-lt bs (hasher key % length bs) (omega (arith, inv.nonempty)) in
      (b, e, rw (e, find_bucket) (ground (arith, inv.nonempty)))

  -- On a table that keeps its invariant no lookup fails: `ValueFor` returns the value of the key,
  -- or the default if the table has none. `AddOrUpdate` and `Remove` keep the invariant, and
  -- change what the table says of their own key, to the new value and to none, and of no other.
  pub table_is_map :
      (bs : List (List (K × V))) (key : K)
      → Inv bs
      → ((default : V)
          → value_for dec hasher key default bs ≡ some (or_default default (contents bs key)))
        × ((val : V)
            → (bs' : List (List (K × V))) × (add_or_update dec hasher key val bs ≡ some bs')
              × Changed bs key (some val) bs')
        × ((bs' : List (List (K × V))) × (remove dec hasher key bs ≡ some bs')
            × Changed bs key none bs')
  unfolding value_for add_or_update remove
  table_is_map bs key inv =
      let (b, here, found) = find_bucket-some bs key inv in
      (
        λ default. rw (found, value_for, here) refl,
        λ val.
            let u = add-Unique dec key val b (inv.unique _ b here) in
            let differs = λ (j : K). find_entry-add dec j key val b in
            (
              _,
              rw (found, add_or_update) refl,
              (
                changed-Inv bs inv key (some val) b _ here u differs,
                contents-changed bs inv key (some val) b _ here u differs,
              ),
            ),
        let u = remove-Unique dec key b (inv.unique _ b here) in
            let differs = λ (j : K). find_entry-remove dec j key b (inv.unique _ b here) in
            (
              _,
              rw (found, remove) refl,
              (
                changed-Inv bs inv key none b _ here u differs,
                contents-changed bs inv key none b _ here u differs,
              ),
            ),
      )

  get_elem?-replicate :
      (n i : ℕ) (b : List (K × V)) → get_elem? (replicate n []) i ≡ some b → b ≡ []
  get_elem?-replicate zero i b e = cc
  get_elem?-replicate (suc n) zero b e = cc
  get_elem?-replicate (suc n) (suc i) b e = get_elem?-replicate n i b e

  -- A new table with at least one bucket keeps the invariant.
  pub init-Inv : (n : ℕ) → 0 < n → Inv (init dec hasher n)
  unfolding find_entry
  init-Inv n h = record {
    nonempty = rw (length-replicate {A = List (K × V)} n []) h;
    unique = λ i b e. subst (Unique dec) (sym (get_elem?-replicate n i b e)) tt;
    placed = λ i b key v e f.
        absurd (cc (subst (λ c. find_entry dec key c ≡ some v) (get_elem?-replicate n i b e) f));
  }
