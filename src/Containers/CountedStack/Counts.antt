-- ===== src/Containers/CountedStack/Counts.antt =====
-- The counts of lockfree_stack_reference_counting.hpp after the exchange of Pop, and the deletes.
use playground_cpp.Common.{
  ℕ, ◌+◌, ◌%◌, ◌^◌, ◌≤◌, ◌<◌, ◌≡◌, ◌≢◌, refl, sym, ◌∙◌, ap, subst, inl, inr, true, false, Option,
  none, some, List, update, update_self, update-ne, tally, one, arith, ℕ_discrete, Bool-cases, ◌==◌,
}
use playground_cpp.Containers.CountedStack.{
  Node, Life, unborn, released, stacked, removed, doomed, After, then_return, then_retry, Pc,
  taking, adding, deleting, returned, State, minus_two, negated, take_data, add_count, after_delete,
  delete_node,
}
use playground_cpp.Containers.CountedStack.Invariant.{
  owner_of, Balance, holds, keeps, Knows, Contents-same, Inv,
}
use playground_cpp.Containers.CountedStack.Kept.{keeps-update, move-Inv}
use playground_cpp.Containers.CountedStack.Quiet.{Balance-at, Contents-off}

-- The test after the addition is whether no reference is left, and the count is that of the
-- references.
join_counts :
    (given held : ℕ)
    → 2 + held + given < 2 ^ 32
    → let joint = (negated given + minus_two (2 + held + given)) % 2 ^ 32 in
      (joint ≡ held)
      × (((negated given == negated (minus_two (2 + held + given))) ≡ true → held ≡ 0)
          × ((negated given == negated (minus_two (2 + held + given))) ≡ false → 1 ≤ held))
join_counts given held few =
    let m : minus_two (2 + held + given) ≡ held + given = omega arith in
    rw (m) (omega arith, (λ e. ground arith, λ e. ground arith))

module _ {ℓ} {T : Type ℓ} where
  -- After a delete the thread has to do with no node.
  after_delete_lem :
      (after : After T) (t : ℕ) (lives : ℕ → Life)
      → ((c : ℕ) → (holds c (after_delete after) ≡ false) × (keeps c (after_delete after) ≡ false))
        × ((nodes : ℕ → Node T) (externals : ℕ → ℕ)
            → Knows t lives nodes externals (after_delete after))
  after_delete_lem (then_return res) t lives = (λ c. (refl, refl), λ nodes externals. tt)
  after_delete_lem then_retry t lives = (λ c. (refl, refl), λ nodes externals. tt)

  pub take_data-Inv :
      (threads moves a e t : ℕ) (s : State T) (xs : List T)
      → Inv threads moves s xs
      → t < threads
      → s.pcs t ≡ taking a e
      → Inv threads (moves + 1) (take_data a e t s) xs
  unfolding take_data
  take_data-Inv threads moves a e t s xs inv lt pc =
      let ((life, external), _) = subst (Knows t s.lives s.nodes s.externals) pc (inv.knows t) in
      let nd : Node T = record (s.nodes a) { data_ = none } in
      let nodes = update s.nodes a nd in
      let there = update_self s.nodes a nd in
      let (given, (i, total)) = Balance-at inv a (removed t) life in
      let same : (c : ℕ)
          → a ≢ c
          → (s.lives c ≡ s.lives c) × ((nodes c ≡ s.nodes c) × (s.externals c ≡ s.externals c)) =
        λ c ne. (refl, (update-ne s.nodes a nd c ne, refl)) in
      let res = (s.nodes a).data_ in
      move-Inv threads moves t a (adding a e res) s.lives nodes s.externals s.head_ s.depth s xs xs
        inv lt same
        (Contents-off a s.lives s.lives s.nodes nodes s.externals s.externals s.head_ xs same
          (λ k lt st. cc (sym life ∙ st)) inv.contents)
        inv.depth (let le = inv.small a in omega arith) (λ c ne. rw (pc) (refl, refl))
        (λ h held.
          let c = held ∙ ap (λ q. h + one (holds a q)) pc in
          rw (life) (rw (there) (given, (i, omega arith))))
        ((life, external), tt) (λ u ne o. absurd (ne (cc (sym (ap owner_of life) ∙ o))))
        (λ u o.
          keeps-update t u a s.pcs (adding a e res) (cc (sym (ap owner_of life) ∙ o))
            (ground arith))
        (λ l pos st. absurd (cc (sym life ∙ st)))

  -- A change of the count of a node and of its use by the thread, which goes to `pc`.
  pub count-Inv :
      (threads moves a i t : ℕ) (pc : Pc T) (life : Life) (s : State T) (xs : List T)
      → Inv threads moves s xs
      → t < threads
      → ((k : ℕ) → s.lives a ≡ stacked k → life ≡ s.lives a)
      → ((c : ℕ) → a ≢ c → (holds c pc ≡ holds c (s.pcs t)) × (keeps c pc ≡ keeps c (s.pcs t)))
      → ((h : ℕ)
          → tally threads (λ u. holds a (s.pcs u)) + one (holds a pc) ≡ h + one (holds a (s.pcs t))
          → Balance life (s.externals a) i h)
      → Knows t
          (update s.lives a life)
          (update s.nodes a (record (s.nodes a) { internal_count_ = i }))
          s.externals
          pc
      → ((u : ℕ) → t ≢ u → owner_of (s.lives a) ≡ some u → life ≡ s.lives a)
      → ((u : ℕ) → owner_of life ≡ some u → keeps a (update s.pcs t pc u) ≡ true)
      → ((l : ℕ) → life ≡ stacked l → (k : ℕ) × (s.lives a ≡ stacked k))
      → Inv threads
          (moves + 1)
          (record s {
            nodes = update s.nodes a (record (s.nodes a) { internal_count_ = i });
            pcs = update s.pcs t pc;
            lives = update s.lives a life;
          })
          xs
  count-Inv threads moves a i t pc life s xs inv lt stays others balance knows mine keeper
        no_stack =
      let nd : Node T = record (s.nodes a) { internal_count_ = i } in
      let lives = update s.lives a life in
      let nodes = update s.nodes a nd in
      let now = update_self s.lives a life in
      let there = update_self s.nodes a nd in
      let same : (c : ℕ)
          → a ≢ c
          → (lives c ≡ s.lives c) × ((nodes c ≡ s.nodes c) × (s.externals c ≡ s.externals c)) =
        λ c ne. (update-ne s.lives a life c ne, (update-ne s.nodes a nd c ne, refl)) in
      move-Inv threads moves t a pc lives nodes s.externals s.head_ s.depth s xs xs inv lt same
        (Contents-same s.lives lives s.nodes nodes s.externals s.externals s.head_ xs
          (λ c k lt st. elim (ℕ_discrete a c) [
            | yes e ↦
                subst
                  (λ x.
                    (lives x ≡ s.lives x)
                    × (((nodes x).data_ ≡ (s.nodes x).data_)
                        × (((nodes x).next_ ≡ (s.nodes x).next_)
                            × (s.externals x ≡ s.externals x))))
                  e
                  (
                    now ∙ stays k (ap s.lives e ∙ st),
                    (ap (λ m. m.data_) there, (ap (λ m. m.next_) there, refl)),
                  )
            | no ne ↦
                let (l, (n, x)) = same c ne in (l, (ap (λ m. m.data_) n, (ap (λ m. m.next_) n, x)))
          ])
          inv.contents)
        inv.depth (let le = inv.small a in omega arith) others
        (λ h held. rw (now) (rw (there) (balance h held))) knows
        (λ u ne o. (now ∙ mine u ne o, (ap (λ m. m.data_) there, refl)))
        (λ u o. keeper u (sym (ap owner_of now) ∙ o))
        (λ l pos st. (no_stack l (sym now ∙ st), ap (λ m. m.next_) there))

  pub add_count-Inv :
      (threads moves a e : ℕ) (res : Option T) (t : ℕ) (s : State T) (xs : List T)
      → moves + 2 < 2 ^ 32
      → Inv threads moves s xs
      → t < threads
      → s.pcs t ≡ adding a e res
      → Inv threads (moves + 1) (add_count a e res t s) xs
  unfolding add_count
  add_count-Inv threads moves a e res t s xs few inv lt pc =
      let ((life, external), _) = subst (Knows t s.lives s.nodes s.externals) pc (inv.knows t) in
      let (given, (i, total)) = Balance-at inv a (removed t) life in
      let h = tally threads (λ u. holds a (s.pcs u)) in
      let is_e : e ≡ 2 + h + given = sym external ∙ total in
      let le = inv.small a in
      let (joint, (none_left, some_left)) = join_counts given h (omega arith) in
      let to_joint : (internal : ℕ)
          → internal ≡ (s.nodes a).internal_count_
          → (internal + minus_two e) % 2 ^ 32 ≡ h =
        λ internal eq. rw (eq) (rw (i) (rw (is_e) joint)) in
      let stays : (h' : ℕ) → h + 0 ≡ h' + one (holds a (s.pcs t)) → h' ≡ h =
        λ h' held. let c = held ∙ ap (λ q. h' + one (holds a q)) pc in omega arith in
      let test : ((s.nodes a).internal_count_ == negated (minus_two e))
          ≡ (negated given == negated (minus_two (2 + h + given))) =
        rw (i) (rw (is_e) refl) in
      elim (Bool-cases ((s.nodes a).internal_count_ == negated (minus_two e))) [
        | inl last ↦
            let zero_left : h ≡ 0 = none_left (sym test ∙ last) in
            rw (last) (
              count-Inv threads moves a (((s.nodes a).internal_count_ + minus_two e) % 2 ^ 32) t
                (deleting a (then_return res)) (doomed t) s xs inv lt
                (λ k st. absurd (cc (sym life ∙ st))) (λ c ne. rw (pc) (refl, refl))
                (λ h' held. stays h' held ∙ zero_left) (update_self s.lives a (doomed t), tt)
                (λ u ne o. absurd (ne (cc (sym (ap owner_of life) ∙ o))))
                (λ u o.
                  keeps-update t u a s.pcs (deleting a (then_return res)) (cc o) (ground arith))
                (λ l st. absurd (cc st)))
        | inr more ↦
            let left : 1 ≤ h = some_left (sym test ∙ more) in
            rw (more) (
              count-Inv threads moves a (((s.nodes a).internal_count_ + minus_two e) % 2 ^ 32) t
                (returned res) released s xs inv lt (λ k st. absurd (cc (sym life ∙ st)))
                (λ c ne. rw (pc) (refl, ground arith))
                (λ h' held.
                  let eq = stays h' held in
                  (to_joint (s.nodes a).internal_count_ refl ∙ sym eq, omega arith))
                tt (λ u ne o. absurd (ne (cc (sym (ap owner_of life) ∙ o)))) (λ u o. absurd (cc o))
                (λ l st. absurd (cc st)))
      ]

  pub delete_node-Inv :
      (threads moves a : ℕ) (after : After T) (t : ℕ) (s : State T) (xs : List T)
      → Inv threads moves s xs
      → t < threads
      → s.pcs t ≡ deleting a after
      → Inv threads (moves + 1) (delete_node a after t s) xs
  unfolding delete_node
  delete_node-Inv threads moves a after t s xs inv lt pc =
      let (life, _) = subst (Knows t s.lives s.nodes s.externals) pc (inv.knows t) in
      let none_hold = Balance-at inv a (doomed t) life in
      let lives = update s.lives a unborn in
      let now = update_self s.lives a unborn in
      let (rests, knows) = after_delete_lem after t lives in
      let same : (c : ℕ)
          → a ≢ c
          → (lives c ≡ s.lives c) × ((s.nodes c ≡ s.nodes c) × (s.externals c ≡ s.externals c)) =
        λ c ne. (update-ne s.lives a unborn c ne, (refl, refl)) in
      move-Inv threads moves t a (after_delete after) lives s.nodes s.externals s.head_ s.depth s xs
        xs inv lt same
        (Contents-off a s.lives lives s.nodes s.nodes s.externals s.externals s.head_ xs same
          (λ k lt st. cc (sym life ∙ st)) inv.contents)
        inv.depth (let le = inv.small a in omega arith)
        (λ c ne.
          let (h, k) = rests c in
          rw (pc) (h, k ∙ (let other : false ≡ (a == c) = ground arith in other)))
        (λ h held.
          let c = held ∙ ap (λ q. h + one (holds a q)) pc in
          let none_now = ap one (rests a).0 in rw (now) (omega arith))
        (knows s.nodes s.externals) (λ u ne o. absurd (ne (cc (sym (ap owner_of life) ∙ o))))
        (λ u o. absurd (cc (sym (ap owner_of now) ∙ o))) (λ l pos st. absurd (cc (sym now ∙ st)))
