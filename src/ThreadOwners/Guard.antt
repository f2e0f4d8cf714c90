-- ===== src/ThreadOwners/Guard.antt =====
-- What the destructor of ThreadsGuard (threads_guard.hpp) has done.
use playground_cpp.Common.{
  ℕ, ◌≡◌, sym, ◌∙◌, ap, subst, true, false, none, some, List, [], ◌∷◌, update, update_self,
  update-ne, arith, Option-cases, ◌⊎◌, inl, inr, In, ℕ_discrete,
}
use playground_cpp.ThreadOwners.{
  joined, World, init, join, join_if_joinable, end_guard, all_plain, Call, run,
}
use playground_cpp.ThreadOwners.Invariant.{Inv, plain-Fits, join_if_joinable-Inv}
use playground_cpp.ThreadOwners.Calls.{end_guard-Inv, all_plain-same}
use playground_cpp.ThreadOwners.Laws.{init-Inv, run-Inv}

join_if_joinable-fates :
    (i : ℕ) (w : World) (id : ℕ)
    → (w.objects i ≡ some id) ⊎ (w.fates id ≡ joined)
    → (join_if_joinable i w).fates id ≡ joined
unfolding join_if_joinable join
join_if_joinable-fates i w id h = elim (Option-cases (w.objects i)) [
  | inl e ↦ rw (e) (elim h [ inl e' ↦ absurd (cc (sym e ∙ e')) | inr j ↦ j ])
  | inr (c, e) ↦ rw (e) (elim (ℕ_discrete c id) [
    | yes same ↦ subst (λ x. update w.fates c joined x ≡ joined) same (update_self w.fates c joined)
    | no ne ↦ elim h [
      | inl e' ↦ absurd (ne (cc (sym e ∙ e')))
      | inr j ↦ update-ne w.fates c joined id ne ∙ j
    ]
  ])
]

end_guard-fates :
    (threads : List ℕ) (w : World)
    → all_plain threads w ≡ true
    → Inv w
    → (i id : ℕ) → (In i threads × (w.objects i ≡ some id)) ⊎ (w.fates id ≡ joined)
    → (end_guard threads w).fates id ≡ joined
unfolding end_guard
end_guard-fates [] w plain_ones inv i id (inl (h, e)) = absurd h
end_guard-fates [] w plain_ones inv i id (inr j) = j
end_guard-fates (k ∷ threads) w plain_ones inv i id h =
    let w' = join_if_joinable k w in
    let (inv', (objects, kinds)) =
      join_if_joinable-Inv k w (plain-Fits (w.kinds k) (ground arith) none) inv in
    let first : (w.objects k ≡ some id) ⊎ (w.fates id ≡ joined) → w'.fates id ≡ joined =
      join_if_joinable-fates k w id in
    end_guard-fates threads w' (all_plain-same threads w w' kinds (ground arith)) inv' i id
      (elim h [
        | inl (there, e) ↦ elim (ℕ_discrete k i) [
          | yes same ↦ inr (first (inl (ap w.objects same ∙ e)))
          | no ne ↦ elim there [
            | inl same ↦ absurd (ne same)
            | inr there ↦ inl (there, ap (λ o. o i) objects ∙ update-ne w.objects k none i ne ∙ e)
          ]
        ]
        | inr j ↦ inr (first (inr j))
      ])

-- At the end of a ThreadsGuard of std::threads of the caller, which may stand for nothing and
-- may occur twice, after any calls of the owners: the program is not ended, none of them
-- stands for a thread, the threads that they stood for are joined, and the other objects stand
-- for what they stood for.
pub guard_joins :
    (cs : List Call) (threads : List ℕ)
    → all_plain threads (run cs init) ≡ true
    → let w = run cs init in
      let w' = end_guard threads w in
      (w'.terminated ≡ false)
      × (((i : ℕ) → In i threads → w'.objects i ≡ none)
          × (((i id : ℕ) → In i threads → w.objects i ≡ some id → w'.fates id ≡ joined)
              × ((i : ℕ) → (In i threads → ⊥) → w'.objects i ≡ w.objects i)))
guard_joins cs threads plain_ones =
    let w = run cs init in
    let inv = run-Inv cs init init-Inv in
    let (inv', (emptied, others)) = end_guard-Inv threads w plain_ones inv in
    (
      inv'.going,
      (
        emptied,
        (
          λ i id h e. end_guard-fates threads w plain_ones inv i id (inl (h, e)),
          λ i out. elim (others i) [ inl e ↦ e | inr (_, h) ↦ absurd (out h) ],
        ),
      ),
    )
