-- ===== src/Containers/CountedStack/Kept.antt =====
-- A move of one thread of lockfree_stack_reference_counting.hpp leaves what the others rely on.
use playground_cpp.Common.{
  ℕ, length, ◌+◌, ◌≤◌, ◌<◌, ◌≡◌, ◌≢◌, sym, ◌∙◌, ap, subst, true, some, List, update, update_self,
  update-ne, at_each, tally, tally-update, tally_positive, one, arith, ℕ_discrete, dec_lt,
}
use playground_cpp.Containers.CountedStack.{
  CountedNodePtr, Node, Life, stacked, Pc, idle, loading, made, pushing, increasing, following,
  taking, exchanging, adding, giving_back, deleting, returned, State,
}
use playground_cpp.Containers.CountedStack.Invariant.{
  owner_of, Balance, holds, keeps, Knows, Contents, Inv,
}

module _ {ℓ} {T : Type ℓ} where
  -- The threads that have a reference after the thread has gone to `pc`.
  pub tally-go :
      (threads t a : ℕ) (pcs : ℕ → Pc T) (pc : Pc T)
      → t < threads
      → tally threads (λ u. holds a (pcs u)) + one (holds a pc)
        ≡ tally threads (λ u. holds a (update pcs t pc u)) + one (holds a (pcs t))
  tally-go threads t a pcs pc lt =
      let now = ap (λ c. one (holds a c)) (update_self pcs t pc) in
      let all =
        tally-update threads t (λ u. holds a (pcs u)) (λ u. holds a (update pcs t pc u)) lt
          (λ u ne. ap (holds a) (sym (update-ne pcs t pc u ne))) in
      omega arith

  -- What a thread knows when another has changed no address but `b`.
  Knows-kept :
      (u b : ℕ) (lives lives' : ℕ → Life) (nodes nodes' : ℕ → Node T) (externals externals' : ℕ → ℕ)
      (pc : Pc T)
      → ((c : ℕ)
          → b ≢ c
          → (lives' c ≡ lives c) × ((nodes' c ≡ nodes c) × (externals' c ≡ externals c)))
      → ((c : ℕ)
          → owner_of (lives c) ≡ some u
          → (lives' c ≡ lives c)
            × (((nodes' c).data_ ≡ (nodes c).data_) × (externals' c ≡ externals c)))
      → ((l : ℕ)
          → holds b pc ≡ true
          → lives' b ≡ stacked l
          → ((k : ℕ) × (lives b ≡ stacked k)) × ((nodes' b).next_ ≡ (nodes b).next_))
      → Knows u lives nodes externals pc
      → Knows u lives' nodes' externals' pc
  Knows-kept u b lives lives' nodes nodes' externals externals' idle same own next h = tt
  Knows-kept u b lives lives' nodes nodes' externals externals' loading same own next h = tt
  Knows-kept u b lives lives' nodes nodes' externals externals' (made v c) same own next (l, d) =
      let (l', (n', _)) = own c (ap owner_of l) in (l' ∙ l, n' ∙ d)
  Knows-kept u b lives lives' nodes nodes' externals externals' (pushing v c) same own next (l, d) =
      let (l', (n', _)) = own c (ap owner_of l) in (l' ∙ l, n' ∙ d)
  Knows-kept u b lives lives' nodes nodes' externals externals' (increasing old) same own next h =
      tt
  Knows-kept u b lives lives' nodes nodes' externals externals' (following c e) same own next h = tt
  Knows-kept u b lives lives' nodes nodes' externals externals' (taking c e) same own next
        ((l, x), _) =
      let (l', (_, x')) = own c (ap owner_of l) in ((l' ∙ l, x' ∙ x), tt)
  Knows-kept u b lives lives' nodes nodes' externals externals' (exchanging c e n) same own next
        (h, _) =
      (
        λ k st. elim (ℕ_discrete b c) [
          | yes eq ↦
              let ((j, was), kept) = next k (ground arith) (ap lives' eq ∙ st) in
              ap (λ x. (nodes' x).next_) (sym eq)
              ∙ kept
              ∙ ap (λ x. (nodes x).next_) eq
              ∙ h j (ap lives (sym eq) ∙ was)
          | no ne ↦ let (l', (n', _)) = same c ne in ap (λ m. m.next_) n' ∙ h k (sym l' ∙ st)
        ],
        tt,
      )
  Knows-kept u b lives lives' nodes nodes' externals externals' (adding c e res) same own next
        ((l, x), _) =
      let (l', (_, x')) = own c (ap owner_of l) in ((l' ∙ l, x' ∙ x), tt)
  Knows-kept u b lives lives' nodes nodes' externals externals' (giving_back c) same own next h = tt
  Knows-kept u b lives lives' nodes nodes' externals externals' (deleting c after) same own next
        (l, _) =
      let (l', _) = own c (ap owner_of l) in (l' ∙ l, tt)
  Knows-kept u b lives lives' nodes nodes' externals externals' (returned res) same own next h = tt

  -- A thread that has a reference is one of the threads, and is counted.
  pub holds-positive :
      (threads moves u a : ℕ) (s : State T) (xs : List T)
      → Inv threads moves s xs
      → holds a (s.pcs u) ≡ true
      → 1 ≤ tally threads (λ v. holds a (s.pcs v))
  holds-positive threads moves u a s xs inv h = elim (dec_lt u threads) [
    | yes lt ↦ tally_positive threads u (λ v. holds a (s.pcs v)) lt h
    | no ge ↦ absurd (cc (sym h ∙ ap (holds a) (inv.no_others u (omega arith))))
  ]

  pub keeps-update :
      (t u b : ℕ) (pcs : ℕ → Pc T) (pc : Pc T)
      → t ≡ u
      → keeps b pc ≡ true
      → keeps b (update pcs t pc u) ≡ true
  keeps-update t u b pcs pc e k =
      subst (λ v. keeps b (update pcs t pc v) ≡ true) e (ap (keeps b) (update_self pcs t pc) ∙ k)

  -- A move of thread `t` to `pc`, which changes no address but `b`.
  pub move-Inv :
      (threads moves t b : ℕ) (pc : Pc T) (lives : ℕ → Life) (nodes : ℕ → Node T)
      (externals : ℕ → ℕ) (head : CountedNodePtr) (depth : ℕ) (s : State T) (xs ys : List T)
      → Inv threads moves s xs
      → t < threads
      → ((c : ℕ)
          → b ≢ c
          → (lives c ≡ s.lives c) × ((nodes c ≡ s.nodes c) × (externals c ≡ s.externals c)))
      → Contents lives nodes externals head ys
      → depth ≡ length ys
      → externals b ≤ moves + 2
      → ((c : ℕ) → b ≢ c → (holds c pc ≡ holds c (s.pcs t)) × (keeps c pc ≡ keeps c (s.pcs t)))
      → ((h : ℕ)
          → tally threads (λ u. holds b (s.pcs u)) + one (holds b pc) ≡ h + one (holds b (s.pcs t))
          → Balance (lives b) (externals b) (nodes b).internal_count_ h)
      → Knows t lives nodes externals pc
      → ((u : ℕ)
          → t ≢ u
          → owner_of (s.lives b) ≡ some u
          → (lives b ≡ s.lives b)
            × (((nodes b).data_ ≡ (s.nodes b).data_) × (externals b ≡ s.externals b)))
      → ((u : ℕ) → owner_of (lives b) ≡ some u → keeps b (update s.pcs t pc u) ≡ true)
      → ((l : ℕ)
          → 1 ≤ tally threads (λ u. holds b (s.pcs u))
          → lives b ≡ stacked l
          → ((k : ℕ) × (s.lives b ≡ stacked k)) × ((nodes b).next_ ≡ (s.nodes b).next_))
      → Inv threads
          (moves + 1)
          (record {
            head_ = head;
            nodes = nodes;
            pcs = update s.pcs t pc;
            depth = depth;
            lives = lives;
            externals = externals;
          })
          ys
  move-Inv threads moves t b pc lives nodes externals head depth s xs ys inv lt same contents deep
        small others balance knows mine keeper next =
      record {
        contents = contents;
        depth = deep;
        small = λ a. elim (ℕ_discrete b a) [
          | yes e ↦ let le = subst (λ x. externals x ≤ moves + 2) e small in omega arith
          | no ne ↦ let (_, (_, e)) = same a ne in let le = inv.small a in omega arith
        ];
        balance = λ a.
            let go = tally-go threads t a s.pcs pc lt in
            elim (ℕ_discrete b a) [
              | yes e ↦
                  subst
                    (λ x.
                      Balance (lives x) (externals x) (nodes x).internal_count_
                        (tally threads (λ u. holds x (update s.pcs t pc u))))
                    e
                    (balance (tally threads (λ u. holds b (update s.pcs t pc u)))
                      (tally-go threads t b s.pcs pc lt))
              | no ne ↦
                  let (l, (n, x)) = same a ne in
                  let as_before = ap one (others a ne).0 in
                  let count : tally threads (λ u. holds a (s.pcs u))
                      ≡ tally threads (λ u. holds a (update s.pcs t pc u)) =
                    omega arith in
                  rw (l) (
                    rw (x) (
                      rw (n) (
                        subst (Balance (s.lives a) (s.externals a) (s.nodes a).internal_count_)
                          count (inv.balance a))))
            ];
        no_others =
            at_each (λ u c. threads ≤ u → c ≡ idle) t s.pcs pc (λ le. absurd (omega arith))
              (λ u ne. inv.no_others u);
        knows =
            at_each (λ u c. Knows u lives nodes externals c) t s.pcs pc knows
              (λ u ne.
                Knows-kept u b s.lives lives s.nodes nodes s.externals externals (s.pcs u) same
                  (λ c o. elim (ℕ_discrete b c) [
                    | yes e ↦
                        subst
                          (λ x.
                            (lives x ≡ s.lives x)
                            × (((nodes x).data_ ≡ (s.nodes x).data_)
                                × (externals x ≡ s.externals x)))
                          e (mine u ne (ap (λ x. owner_of (s.lives x)) e ∙ o))
                    | no other ↦ let (l, (n, x)) = same c other in (l, (ap (λ m. m.data_) n, x))
                  ])
                  (λ l h. next l (holds-positive threads moves u b s xs inv h)) (inv.knows u));
        kept = λ a u o. elim (ℕ_discrete b a) [
          | yes e ↦
              subst (λ x. keeps x (update s.pcs t pc u) ≡ true) e
                (keeper u (ap (λ x. owner_of (lives x)) e ∙ o))
          | no ne ↦
              let (l, _) = same a ne in
              let k = inv.kept a u (sym (ap owner_of l) ∙ o) in
              elim (ℕ_discrete t u) [
                | yes is_t ↦
                    subst (λ v. keeps a (update s.pcs t pc v) ≡ true) is_t
                      (ap (keeps a) (update_self s.pcs t pc)
                        ∙ (others a ne).1
                        ∙ ap (λ v. keeps a (s.pcs v)) is_t
                        ∙ k)
                | no not_t ↦ ap (keeps a) (update-ne s.pcs t pc u not_t) ∙ k
              ]
        ];
      }
