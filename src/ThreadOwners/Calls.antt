-- ===== src/ThreadOwners/Calls.antt =====
-- The functions of joining_thread.hpp, scoped_thread.hpp and threads_guard.hpp leave
-- everything in order.
use playground_cpp.Common.{
  ℕ, ◌≡◌, ◌≢◌, refl, sym, ◌∙◌, ap, subst, true, Option, none, some, List, [], ◌∷◌, update,
  update_self, update-ne, ◌==◌, arith, Option-cases, ◌⊎◌, inl, inr, In, ℕ_discrete,
}
use playground_cpp.ThreadOwners.{
  joined, Kind, absent, plain, scoped, World, join, set_kind, move_from, start, join_if_joinable,
  assign, destroy, swap, scope, end_scope, end_guard, rank, is, caught, all_plain,
}
use playground_cpp.ThreadOwners.Owned.{Owned-move, Owned-swap, Owned-finish, Owned-start}
use playground_cpp.ThreadOwners.Invariant.{
  Fits, Inv, plain-Fits, Fits-update, Fits-kind, Fits-object, join_if_joinable-Inv,
}

-- A new thread in an object that is made for it.
pub start-Inv :
    (i : ℕ) (k : Kind) (w : World)
    → ((o : Option ℕ) → Fits k o)
    → w.objects i ≡ none
    → Inv w
    → Inv (set_kind i k (start i w))
start-Inv i k w any free inv = record {
  owned = Owned-start w.objects w.fates w.started inv.owned i free;
  fits = Fits-update w.kinds w.objects i k (some w.started) (any (some w.started)) inv.fits;
  going = inv.going;
}

-- The construction of an object from another.
pub move_construct-Inv :
    (i j : ℕ) (k : Kind) (w : World)
    → Fits k (w.objects j)
    → Fits (w.kinds j) none
    → w.objects i ≡ none
    → Inv w
    → Inv (set_kind i k (move_from i j w))
move_construct-Inv i j k w fit emptied free inv = record {
  owned = Owned-move w.objects w.fates w.started inv.owned i j free;
  fits =
      Fits-update w.kinds (update w.objects j none) i k (w.objects j) fit
        (Fits-object w.kinds w.objects j none emptied inv.fits);
  going = inv.going;
}

pub assign-Inv :
    (i j : ℕ) (w : World)
    → ((o : Option ℕ) → Fits (w.kinds i) o)
    → Fits (w.kinds j) none
    → Inv w
    → Inv (assign i j w)
unfolding assign
assign-Inv i j w any emptied inv =
    let (inv', (objects, kinds)) = join_if_joinable-Inv i w (any none) inv in
    let w' = join_if_joinable i w in
    let free : w'.objects i ≡ none = ap (λ o. o i) objects ∙ update_self w.objects i none in
    let fit : (k : ℕ) (o : Option ℕ) → Fits (w.kinds k) o → Fits (w'.kinds k) o =
      λ k o. subst (λ kinds. Fits (kinds k) o) (sym kinds) in
    rw (free) (record {
      owned = Owned-move w'.objects w'.fates w'.started inv'.owned i j free;
      fits =
          Fits-object w'.kinds (update w'.objects j none) i (w'.objects j)
            (fit i (w'.objects j) (any (w'.objects j)))
            (Fits-object w'.kinds w'.objects j none (fit j none emptied) inv'.fits);
      going = inv'.going;
    })

pub destroy-Inv : (i : ℕ) (w : World) → Fits (w.kinds i) none → Inv w → Inv (destroy i w)
unfolding destroy
destroy-Inv i w fit inv =
    let (inv', (objects, kinds)) = join_if_joinable-Inv i w fit inv in
    let w' = join_if_joinable i w in
    let free : w'.objects i ≡ none = ap (λ o. o i) objects ∙ update_self w.objects i none in
    rw (free) (record {
      owned = inv'.owned;
      fits = Fits-kind w'.kinds w'.objects i absent free inv'.fits;
      going = inv'.going;
    })

pub swap-Inv :
    (i j : ℕ) (w : World)
    → ((o : Option ℕ) → Fits (w.kinds i) o)
    → ((o : Option ℕ) → Fits (w.kinds j) o)
    → Inv w
    → Inv (swap i j w)
unfolding swap
swap-Inv i j w any any' inv = record {
  owned = Owned-swap w.objects w.fates w.started inv.owned i j;
  fits =
      Fits-object w.kinds (update w.objects i (w.objects j)) j (w.objects i) (any' (w.objects i))
        (Fits-object w.kinds w.objects i (w.objects j) (any (w.objects j)) inv.fits);
  going = inv.going;
}

pub scope-Inv :
    (i j : ℕ) (w : World)
    → Fits (w.kinds j) none
    → w.objects i ≡ none
    → Inv w
    → Inv (caught (scope i j w) w)
unfolding scope
scope-Inv i j w emptied free inv =
    let now = update_self (update w.objects j none) i (w.objects j) in
    elim (Option-cases (w.objects j)) [
      | inl e ↦ rw (now ∙ e) inv
      | inr (id, e) ↦
          rw (now ∙ e) (move_construct-Inv i j scoped w (λ n. cc (sym e ∙ n)) emptied free inv)
    ]

pub end_scope-Inv : (i : ℕ) (w : World) → w.objects i ≢ none → Inv w → Inv (end_scope i w)
unfolding end_scope join
end_scope-Inv i w holds inv = elim (Option-cases (w.objects i)) [
  | inl e ↦ absurd (holds e)
  | inr (id, e) ↦
      let gone = update_self w.objects i none in
      rw (e) (
        rw (gone) (record {
          owned =
              Owned-finish w.objects w.fates w.started inv.owned i id joined e (λ e. cc e)
                (λ e. cc e);
          fits = Fits-update w.kinds w.objects i absent none refl inv.fits;
          going = inv.going;
        }))
]

pub all_plain-same :
    (threads : List ℕ) (w w' : World)
    → w'.kinds ≡ w.kinds
    → all_plain threads w ≡ true
    → all_plain threads w' ≡ true
all_plain-same [] w w' same e = refl
all_plain-same (i ∷ threads) w w' same e =
    let rest = all_plain-same threads w w' same (ground arith) in
    let first : is plain i w ≡ true = ground arith in
    let first' : is plain i w' ≡ true = ap (λ kinds. rank (kinds i) == rank plain) same ∙ first in
    ground arith

-- After the destructor of a guard its threads are joined, and the other objects are as they were.
pub end_guard-Inv :
    (threads : List ℕ) (w : World)
    → all_plain threads w ≡ true
    → Inv w
    → let w' = end_guard threads w in
      Inv w'
      × (((i : ℕ) → In i threads → w'.objects i ≡ none)
          × ((i : ℕ) → (w'.objects i ≡ w.objects i) ⊎ ((w'.objects i ≡ none) × In i threads)))
unfolding end_guard
end_guard-Inv [] w e inv = (inv, (λ i h. absurd h, λ i. inl refl))
end_guard-Inv (i ∷ threads) w e inv =
    let w' = join_if_joinable i w in
    let (inv', (objects, kinds)) =
      join_if_joinable-Inv i w (plain-Fits (w.kinds i) (ground arith) none) inv in
    let (inv'', (emptied, others)) =
      end_guard-Inv threads w' (all_plain-same threads w w' kinds (ground arith)) inv' in
    let free : w'.objects i ≡ none = ap (λ o. o i) objects ∙ update_self w.objects i none in
    (
      inv'',
      (
        λ k h. elim h [
          | inl same ↦ elim (others k) [
            | inl e ↦ e ∙ ap w'.objects (sym same) ∙ free
            | inr (e, _) ↦ e
          ]
          | inr h ↦ emptied k h
        ],
        λ k. elim (others k) [
          | inl e ↦ elim (ℕ_discrete i k) [
            | yes same ↦ inr (e ∙ ap w'.objects (sym same) ∙ free, inl same)
            | no ne ↦ inl (e ∙ ap (λ o. o k) objects ∙ update-ne w.objects i none k ne)
          ]
          | inr (e, h) ↦ inr (e, inr h)
        ],
      ),
    )
