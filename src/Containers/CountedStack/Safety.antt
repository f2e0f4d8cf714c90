-- ===== src/Containers/CountedStack/Safety.antt =====
-- The counts of lockfree_stack_reference_counting.hpp delete each node that is removed, when
-- no thread uses it any more.
use playground_cpp.Common.{
  ℕ, zero, suc, length, ◌+◌, ◌^◌, ◌<◌, ◌≡◌, ◌≢◌, refl, sym, ◌∙◌, ap, subst, inl, inr, ◌⊎◌, Bool,
  true, false, not, ◌&&◌, some, List, [], ◌∷◌, tally, arith, Bool-cases,
}
use playground_cpp.Containers.HazardStack.{Call, push, pop}
use playground_cpp.Containers.CountedStack.{
  Node, Life, unborn, released, owned, stacked, removed, doomed, Pc, idle, loading, made, pushing,
  increasing, following, taking, exchanging, adding, giving_back, deleting, returned, State,
  same_counted, is_unborn, init, push_exchange, start_call, go_on, run,
}
use playground_cpp.Containers.CountedStack.Invariant.{owner_of, holds, keeps, Knows, Contents, Inv}
use playground_cpp.Containers.CountedStack.Kept.{holds-positive}
use playground_cpp.Containers.CountedStack.Quiet.{quiet-Inv, Balance-at}
use playground_cpp.Containers.CountedStack.Moves.{make_node-Inv, load_next_of_new-Inv, publish-Inv}
use playground_cpp.Containers.CountedStack.Removal.{
  same_counted_lem, increase_exchange-Inv, follow-Inv, pop_exchange-Inv,
}
use playground_cpp.Containers.CountedStack.Counts.{take_data-Inv, add_count-Inv, delete_node-Inv}
use playground_cpp.Containers.CountedStack.GiveBack.{give_back-Inv}
use playground_cpp.Containers.DeleteListStack.Safety.{Among}

is_unborn_lem : (life : Life) → is_unborn life ≡ true → life ≡ unborn
unfolding is_unborn
is_unborn_lem unborn e = refl
is_unborn_lem released e = absurd (cc e)
is_unborn_lem (owned t) e = absurd (cc e)
is_unborn_lem (stacked k) e = absurd (cc e)
is_unborn_lem (removed t) e = absurd (cc e)
is_unborn_lem (doomed t) e = absurd (cc e)

-- Nobody has to do with a node of this use.
Life-cases :
    (life : Life)
    → ((t : ℕ) → owner_of life ≡ some t → ⊥)
    → (life ≢ released)
    → (life ≡ unborn) ⊎ ((k : ℕ) × (life ≡ stacked k))
Life-cases unborn owner held = inl refl
Life-cases released owner held = absurd (held refl)
Life-cases (owned t) owner held = absurd (owner t refl)
Life-cases (stacked k) owner held = inr (k, refl)
Life-cases (removed t) owner held = absurd (owner t refl)
Life-cases (doomed t) owner held = absurd (owner t refl)

tally-false : (n : ℕ) (f : ℕ → Bool) → ((u : ℕ) → f u ≡ false) → tally n f ≡ 0
tally-false zero f h = refl
tally-false (suc n) f h = let ih = tally-false n f h in let e = h n in ground arith

module _ {ℓ} {T : Type ℓ} where
  start_call-Inv :
      (threads moves : ℕ) (c : Call T) (t : ℕ) (s : State T) (xs : List T)
      → Inv threads moves s xs
      → t < threads
      → s.pcs t ≡ idle
      → Inv threads (moves + 1) (start_call c t s) xs
  unfolding start_call
  start_call-Inv threads moves (push v p) t s xs inv lt pc =
      elim (Bool-cases (is_unborn (s.lives p))) [
        | inl free ↦
            rw (free)
              (make_node-Inv threads moves v p t s xs inv lt pc (is_unborn_lem (s.lives p) free))
        | inr busy ↦ rw (busy) (record {
          contents = inv.contents;
          depth = inv.depth;
          small = λ a. let le = inv.small a in omega arith;
          balance = inv.balance;
          no_others = inv.no_others;
          knows = inv.knows;
          kept = inv.kept;
        })
      ]
  start_call-Inv threads moves pop t s xs inv lt pc =
      quiet-Inv threads moves t loading s.head_ s xs inv lt inv.contents (λ c. rw (pc) (refl, refl))
        tt

  push_exchange-Inv :
      (threads moves : ℕ) (fails : Bool) (v : T) (p t : ℕ) (s : State T) (xs : List T)
      → Inv threads moves s xs
      → t < threads
      → s.pcs t ≡ pushing v p
      → (ys : List T) × Inv threads (moves + 1) (push_exchange fails v p t s) ys
  unfolding push_exchange
  push_exchange-Inv threads moves fails v p t s xs inv lt pc =
      let (mine, d) = subst (Knows t s.lives s.nodes s.externals) pc (inv.knows t) in
      elim (Bool-cases (same_counted s.head_ (s.nodes p).next_ && not fails)) [
        | inl wins ↦
            let (q, e) = same_counted_lem s.head_ (s.nodes p).next_ (ground arith) in
            rw (wins) (
              v ∷ xs,
              publish-Inv threads moves v p t s xs inv lt pc mine d
                  (λ i. record { node_ = sym q i; external_count_ = sym e i }),
            )
        | inr loses ↦ rw (loses) (
          xs,
          load_next_of_new-Inv threads moves v p t s xs inv lt (λ c. rw (pc) (refl, refl)) mine d,
        )
      ]

  go_on-Inv :
      (threads moves : ℕ) (c : Call T) (fails : Bool) (pc : Pc T) (t : ℕ) (s : State T)
      (xs : List T)
      → moves + 2 < 2 ^ 32
      → threads < 2 ^ 32
      → t < threads
      → s.pcs t ≡ pc
      → Inv threads moves s xs
      → (ys : List T) × Inv threads (moves + 1) (go_on c fails pc t s) ys
  unfolding go_on
  go_on-Inv threads moves c fails idle t s xs few low lt e inv =
      (xs, start_call-Inv threads moves c t s xs inv lt e)
  go_on-Inv threads moves c fails (made v p) t s xs few low lt e inv =
      let (mine, d) = subst (Knows t s.lives s.nodes s.externals) e (inv.knows t) in
      (xs, load_next_of_new-Inv threads moves v p t s xs inv lt (λ c. rw (e) (refl, refl)) mine d)
  go_on-Inv threads moves c fails (pushing v p) t s xs few low lt e inv =
      push_exchange-Inv threads moves fails v p t s xs inv lt e
  go_on-Inv threads moves c fails loading t s xs few low lt e inv = (
    xs,
    quiet-Inv threads moves t (increasing s.head_) s.head_ s xs inv lt inv.contents
        (λ c. rw (e) (refl, refl)) tt,
  )
  go_on-Inv threads moves c fails (increasing old) t s xs few low lt e inv =
      (xs, increase_exchange-Inv threads moves t old s xs few inv lt e)
  go_on-Inv threads moves c fails (following a x) t s xs few low lt e inv =
      (xs, follow-Inv threads moves a x t s xs inv lt e)
  go_on-Inv threads moves c fails (exchanging a x n) t s xs few low lt e inv =
      pop_exchange-Inv threads moves a x n t s xs inv lt e
  go_on-Inv threads moves c fails (taking a x) t s xs few low lt e inv =
      (xs, take_data-Inv threads moves a x t s xs inv lt e)
  go_on-Inv threads moves c fails (adding a x res) t s xs few low lt e inv =
      (xs, add_count-Inv threads moves a x res t s xs few inv lt e)
  go_on-Inv threads moves c fails (giving_back a) t s xs few low lt e inv =
      (xs, give_back-Inv threads moves a t s xs few low inv lt e)
  go_on-Inv threads moves c fails (deleting a after) t s xs few low lt e inv =
      (xs, delete_node-Inv threads moves a after t s xs inv lt e)
  go_on-Inv threads moves c fails (returned res) t s xs few low lt e inv = (
    xs,
    quiet-Inv threads moves t idle s.head_ s xs inv lt inv.contents (λ c. rw (e) (refl, refl)) tt,
  )

  init-Inv : (threads : ℕ) → Inv threads 0 (init {T = T}) []
  init-Inv threads = record {
    contents = (refl, tt);
    depth = refl;
    small = λ a. omega arith;
    balance = λ a. tally-false threads (λ u. false) (λ u. refl);
    no_others = λ u le. refl;
    knows = λ t. tt;
    kept = λ a t o. absurd (cc o);
  }

  run-Inv :
      (threads moves : ℕ) (ms : List (ℕ × (Call T × Bool))) (s : State T) (xs : List T)
      → moves + length ms + 2 < 2 ^ 32
      → threads < 2 ^ 32
      → Among threads ms
      → Inv threads moves s xs
      → (ys : List T) × Inv threads (moves + length ms) (run ms s) ys
  unfolding run
  run-Inv threads moves [] s xs few low among inv =
      (xs, subst (λ n. Inv threads n s xs) (omega arith) inv)
  run-Inv threads moves ((t, (c, fails)) ∷ ms) s xs few low (lt, among) inv =
      let (ys, inv') =
        go_on-Inv threads moves c fails (s.pcs t) t s xs (ground arith) low lt refl inv in
      let s' = go_on c fails (s.pcs t) t s in
      let (zs, inv'') = run-Inv threads (moves + 1) ms s' ys (ground arith) low among inv' in
      (zs, subst (λ n. Inv threads n (run ms s') zs) (ground arith) inv'')

  -- A node that a thread alone has to do with is not deleted.
  keeps-live :
      (a t : ℕ) (lives : ℕ → Life) (nodes : ℕ → Node T) (externals : ℕ → ℕ) (pc : Pc T)
      → keeps a pc ≡ true
      → Knows t lives nodes externals pc
      → lives a ≢ unborn
  keeps-live a t lives nodes externals idle k h free = cc k
  keeps-live a t lives nodes externals loading k h free = cc k
  keeps-live a t lives nodes externals (made v b) k (l, d) free =
      let same : b ≡ a = ground arith in cc (sym free ∙ ap lives (sym same) ∙ l)
  keeps-live a t lives nodes externals (pushing v b) k (l, d) free =
      let same : b ≡ a = ground arith in cc (sym free ∙ ap lives (sym same) ∙ l)
  keeps-live a t lives nodes externals (increasing old) k h free = cc k
  keeps-live a t lives nodes externals (following b e) k h free = cc k
  keeps-live a t lives nodes externals (taking b e) k ((l, x), _) free =
      let same : b ≡ a = ground arith in cc (sym free ∙ ap lives (sym same) ∙ l)
  keeps-live a t lives nodes externals (exchanging b e n) k h free = cc k
  keeps-live a t lives nodes externals (adding b e res) k ((l, x), _) free =
      let same : b ≡ a = ground arith in cc (sym free ∙ ap lives (sym same) ∙ l)
  keeps-live a t lives nodes externals (giving_back b) k h free = cc k
  keeps-live a t lives nodes externals (deleting b after) k (l, _) free =
      let same : b ≡ a = ground arith in cc (sym free ∙ ap lives (sym same) ∙ l)
  keeps-live a t lives nodes externals (returned res) k h free = cc k

  -- In every order of at most 2 ^ 32 - 3 moves of fewer than 2 ^ 32 threads, addresses that
  -- are used again included: a node that a thread has a reference to, or has removed, or is
  -- to delete, is not deleted before; a node that no thread has anything to do with is in
  -- the stack or deleted, so that none leaks; and the nodes from the head on are a list.
  pub deletes_once :
      (threads : ℕ) (ms : List (ℕ × (Call T × Bool)))
      → length ms + 2 < 2 ^ 32
      → threads < 2 ^ 32
      → Among threads ms
      → let s = run ms init in
        ((t a : ℕ) → (holds a (s.pcs t) ≡ true) ⊎ (keeps a (s.pcs t) ≡ true) → s.lives a ≢ unborn)
        × (((a : ℕ)
              → ((t : ℕ) → (holds a (s.pcs t) ≡ false) × (keeps a (s.pcs t) ≡ false))
              → (s.lives a ≡ unborn) ⊎ ((k : ℕ) × (s.lives a ≡ stacked k)))
            × ((xs : List T) × Contents s.lives s.nodes s.externals s.head_ xs))
  deletes_once threads ms few low among =
      let s = run ms init in
      let (xs, inv) = run-Inv threads 0 ms init [] (omega arith) low among (init-Inv threads) in
      (
        λ t a h free. elim h [
          | inl held ↦
              let none_hold = Balance-at inv a unborn free in
              let pos = holds-positive threads (0 + length ms) t a s xs inv held in omega arith
          | inr k ↦ keeps-live a t s.lives s.nodes s.externals (s.pcs t) k (inv.knows t) free
        ],
        (
          λ a alone.
              Life-cases (s.lives a) (λ t o. cc (sym (inv.kept a t o) ∙ (alone t).1))
                (λ r.
                  let (_, pos) = Balance-at inv a released r in
                  let nobody = tally-false threads (λ u. holds a (s.pcs u)) (λ u. (alone u).0) in
                  omega arith),
          (xs, inv.contents),
        ),
      )
