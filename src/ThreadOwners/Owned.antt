-- ===== src/ThreadOwners/Owned.antt =====
-- Which std::thread of joining_thread.hpp stands for which thread.
use playground_cpp.Common.{
  ℕ, ◌+◌, ◌≤◌, ◌<◌, ◌≡◌, ◌≢◌, refl, sym, ◌∙◌, ap, subst, Option, none, some, update, update_self,
  update-ne, at_each, if◌then◌else◌, ◌==◌, arith, ◌⊎◌, inl, inr,
}
use playground_cpp.ThreadOwners.{Fate, unstarted, running}

-- Every running thread is that of exactly one object, and the threads below `started` were started.
pub record Owned (objects : ℕ → Option ℕ) (fates : ℕ → Fate) (started : ℕ) : Type 0 where
  pub owns : (i id : ℕ) → objects i ≡ some id → fates id ≡ running
  pub once : (i j id : ℕ) → objects i ≡ some id → objects j ≡ some id → i ≡ j
  pub owned : (id : ℕ) → fates id ≡ running → (i : ℕ) × (objects i ≡ some id)
  pub old : (id : ℕ) → id < started → fates id ≢ unstarted
  pub fresh : (id : ℕ) → started ≤ id → fates id ≡ unstarted

module _ (objects : ℕ → Option ℕ) (fates : ℕ → Fate) (started : ℕ)
    (o : Owned objects fates started) where
  -- The same threads in other objects.
  Owned-moved :
      (objects' : ℕ → Option ℕ) (from to : ℕ → ℕ)
      → ((i id : ℕ) → objects' i ≡ some id → (objects (from i) ≡ some id) × (to (from i) ≡ i))
      → ((i id : ℕ) → objects i ≡ some id → objects' (to i) ≡ some id)
      → Owned objects' fates started
  Owned-moved objects' from to back forth = record {
    owns = λ i id e. o.owns (from i) id (back i id e).0;
    once = λ i j id e e'.
        let (b, same) = back i id e in
        let (b', same') = back j id e' in
        sym same ∙ ap to (o.once (from i) (from j) id b b') ∙ same';
    owned = λ id r. let (i, e) = o.owned id r in (to i, forth i id e);
    old = o.old;
    fresh = o.fresh;
  }

  pub Owned-move :
      (i j : ℕ)
      → objects i ≡ none
      → Owned (update (update objects j none) i (objects j)) fates started
  Owned-move i j free =
      Owned-moved (update (update objects j none) i (objects j)) (λ k. if i == k then j else k)
        (λ k. if j == k then i else k) (λ k id e. ground arith) (λ k id e. ground arith)

  pub Owned-swap :
      (i j : ℕ) → Owned (update (update objects i (objects j)) j (objects i)) fates started
  Owned-swap i j =
      let other : ℕ → ℕ = λ k. if j == k then i else if i == k then j else k in
      Owned-moved (update (update objects i (objects j)) j (objects i)) other other
        (λ k id e. ground arith) (λ k id e. ground arith)

  pub Owned-finish :
      (i id : ℕ) (fate : Fate)
      → objects i ≡ some id
      → fate ≢ running
      → fate ≢ unstarted
      → Owned (update objects i none) (update fates id fate) started
  Owned-finish i id fate e over begun =
      let apart : (k c : ℕ) → i ≢ k → objects k ≡ some c → id ≢ c =
        λ k c ne ek same. ne (o.once i k c (e ∙ ap some same) ek) in
      let held : (k c : ℕ) → update objects i none k ≡ some c → (i ≢ k) × (objects k ≡ some c) =
        λ k c.
          at_each (λ k x. x ≡ some c → (i ≢ k) × (objects k ≡ some c)) i objects none
            (λ e. absurd (cc e)) (λ k ne e. (ne, e)) k in
      record {
        owns = λ k c ek.
            let (ne, e') = held k c ek in
            update-ne fates id fate c (apart k c ne e') ∙ o.owns k c e';
        once = λ k l c ek el. o.once k l c (held k c ek).1 (held l c el).1;
        owned =
            at_each (λ c f. f ≡ running → (k : ℕ) × (update objects i none k ≡ some c)) id fates
              fate (λ r. absurd (over r))
              (λ c ne r.
                let (k, ek) = o.owned c r in
                (
                  k,
                  update-ne objects i none k (λ same. ne (cc (sym e ∙ ap objects same ∙ ek))) ∙ ek,
                ));
        old =
            at_each (λ c f. c < started → f ≢ unstarted) id fates fate (λ lt. begun)
              (λ c ne. o.old c);
        fresh =
            at_each (λ c f. started ≤ c → f ≡ unstarted) id fates fate
              (λ le. absurd (cc (sym (o.owns i id e) ∙ o.fresh id le))) (λ c ne. o.fresh c);
      }

  pub Owned-start :
      (i : ℕ)
      → objects i ≡ none
      → Owned (update objects i (some started)) (update fates started running) (started + 1)
  Owned-start i free =
      let new : (k c : ℕ) → objects k ≡ some c → started ≢ c =
        λ k c ek same. cc (sym (o.owns k c ek) ∙ o.fresh c (omega arith)) in
      let held : (k c : ℕ)
          → update objects i (some started) k ≡ some c
          → ((i ≡ k) × (started ≡ c)) ⊎ ((i ≢ k) × (objects k ≡ some c)) =
        λ k c.
          at_each (λ k x. x ≡ some c → ((i ≡ k) × (started ≡ c)) ⊎ ((i ≢ k) × (objects k ≡ some c)))
            i objects (some started) (λ e. inl (refl, cc e)) (λ k ne e. inr (ne, e)) k in
      record {
        owns = λ k c ek. elim (held k c ek) [
          | inl (_, same) ↦
              subst (λ c. update fates started running c ≡ running) same
                (update_self fates started running)
          | inr (_, e') ↦ update-ne fates started running c (new k c e') ∙ o.owns k c e'
        ];
        once = λ k l c ek el. elim (held k c ek) [
          | inl (a, same) ↦ elim (held l c el) [
            | inl (b, _) ↦ sym a ∙ b
            | inr (_, e') ↦ absurd (new l c e' same)
          ]
          | inr (_, e') ↦ elim (held l c el) [
            | inl (_, same) ↦ absurd (new k c e' same)
            | inr (_, e'') ↦ o.once k l c e' e''
          ]
        ];
        owned =
            at_each (λ c f. f ≡ running → (k : ℕ) × (update objects i (some started) k ≡ some c))
              started fates running (λ r. (i, update_self objects i (some started)))
              (λ c ne r.
                let (k, ek) = o.owned c r in
                (
                  k,
                  update-ne objects i (some started) k
                        (λ same. cc (sym free ∙ ap objects same ∙ ek))
                      ∙ ek,
                ));
        old =
            at_each (λ c f. c < started + 1 → f ≢ unstarted) started fates running (λ lt e. cc e)
              (λ c ne lt. o.old c (omega arith));
        fresh =
            at_each (λ c f. started + 1 ≤ c → f ≡ unstarted) started fates running
              (λ le. absurd (omega arith)) (λ c ne le. o.fresh c (omega arith));
      }
