-- ===== src/Containers/SharedStack/Alone.antt =====
-- A thread of lockfree_stack_shared_ptr.hpp that moves alone.
use playground_cpp.Common.{
  ℕ, ◌≡◌, refl, ◌∙◌, ap, true, false, Option, none, some, List, [], ◌∷◌, update, update_self,
}
use playground_cpp.Containers.SharedStack.{
  Node, Pc, idle, made, pushing, loaded, popping, clearing, reading, returned, State, Action,
  silent, pushes, pops, Move, same_pointer, make_node, load_next_of_new, publish, push_exchange,
  load_old_head, load_next, unlink, pop_exchange, clear_next, read_data, start_call, go_on, step,
  run,
}
use playground_cpp.Containers.SharedStack.Chain.{same_pointer_refl}

module _ {ℓ} {T : Type ℓ} where
  abbrev pub steady : Option T → Move T
  steady call = record { call = call; fails = false }

  -- A move of a thread that is at `pc`, and the moves after it.
  run_next :
      (m : Move T) (t : ℕ) (ms : List (ℕ × Move T)) (s : State T) (out : Action T × State T)
      (pc : Pc T) (rest : List (Action T) × State T)
      → s.pcs t ≡ pc
      → go_on m pc t s ≡ out
      → run ms (out.1) ≡ rest
      → run ((t, m) ∷ ms) s ≡ (out.0 ∷ rest.0, rest.1)
  unfolding run step
  run_next m t ms s out pc rest e f r =
      let moved : step (t, m) s ≡ out = ap (λ c. go_on m c t s) e ∙ f in
      ap (λ o. (o.0 ∷ (run ms (o.1)).0, (run ms (o.1)).1)) moved ∙ ap (λ o. (out.0 ∷ o.0, o.1)) r

  push_wins :
      (v : T) (p t : ℕ) (s : State T)
      → (s.nodes p).next_ ≡ s.head_
      → push_exchange false v p t s ≡ (pushes v, publish p t s)
  unfolding push_exchange
  push_wins v p t s e =
      let same : same_pointer s.head_ (s.nodes p).next_ ≡ true =
        ap (λ q. same_pointer s.head_ q) e ∙ same_pointer_refl s.head_ in
      rw (same)

  pop_wins :
      (a : ℕ) (n : Option ℕ) (t : ℕ) (s : State T)
      → s.head_ ≡ some a
      → pop_exchange false a n t s ≡ (pops (s.nodes a).data_, unlink a n t s)
  unfolding pop_exchange
  pop_wins a n t s e =
      let same : same_pointer s.head_ (some a) ≡ true =
        ap (λ q. same_pointer q (some a)) e ∙ same_pointer_refl (some a) in
      rw (same)

  push_moves :
      (v : T) (t : ℕ) (s : State T) (ms : List (ℕ × Move T)) (rest : List (Action T) × State T)
      → s.pcs t ≡ idle
      → run ms (publish s.fresh t (load_next_of_new v s.fresh t (make_node v t s))) ≡ rest
      → run ((t, steady (some v)) ∷ (t, steady (some v)) ∷ (t, steady (some v)) ∷ ms) s
        ≡ (silent ∷ silent ∷ pushes v ∷ rest.0, rest.1)
  unfolding go_on start_call make_node load_next_of_new
  push_moves v t s ms rest e r =
      let m = steady (some v) in
      let s1 = make_node v t s in
      let s2 = load_next_of_new v s.fresh t s1 in
      let new : (s2.nodes s.fresh).next_ ≡ s2.head_ =
        ap (λ n. n.next_)
          (update_self s1.nodes s.fresh (record (s1.nodes s.fresh) { next_ = s.head_ })) in
      run_next m t _ s (silent, s1) idle _ e refl
        (run_next m t _ s1 (silent, s2) (made v s.fresh) _ (update_self s.pcs t (made v s.fresh))
          refl
          (run_next m t ms s2 (pushes v, publish s.fresh t s2) (pushing v s.fresh) rest
            (update_self s1.pcs t (pushing v s.fresh)) (push_wins v s.fresh t s2 new) r))

  pop_moves :
      (a t : ℕ) (s : State T)
      → s.pcs t ≡ idle
      → s.head_ ≡ some a
      → let m : ℕ × Move T = (t, steady none) in
        (s' : State T) × ((run (m ∷ m ∷ m ∷ m ∷ m ∷ []) s
            ≡ (silent ∷ silent ∷ pops (s.nodes a).data_ ∷ silent ∷ silent ∷ [], s'))
          × ((s'.pcs t ≡ returned (s.nodes a).data_) × (s'.head_ ≡ (s.nodes a).next_)))
  unfolding go_on start_call load_old_head load_next unlink clear_next read_data run
  pop_moves a t s e h =
      let m : Move T = steady none in
      let k : ℕ × Move T = (t, m) in
      let n = (s.nodes a).next_ in
      let s1 : State T = record s { pcs = update s.pcs t (loaded a) } in
      let s2 = load_next a t s1 in
      let s3 = unlink a n t s2 in
      let s4 = clear_next a t s3 in
      let s5 = read_data a t s4 in
      let kept : (s4.nodes a).data_ ≡ (s.nodes a).data_ =
        ap (λ k. k.data_) (update_self s3.nodes a (record (s3.nodes a) { next_ = none })) in
      let read =
        run_next m t [] s4 (silent, s5) (reading a) ([], s5) (update_self s3.pcs t (reading a)) refl
          refl in
      let clear =
        run_next m t (k ∷ []) s3 (silent, s4) (clearing a) _ (update_self s2.pcs t (clearing a))
          refl read in
      let exchange =
        run_next m t (k ∷ k ∷ []) s2 (pops (s.nodes a).data_, s3) (popping a n) _
          (update_self s1.pcs t (popping a n)) (pop_wins a n t s2 h) clear in
      let follow =
        run_next m t (k ∷ k ∷ k ∷ []) s1 (silent, s2) (loaded a) _ (update_self s.pcs t (loaded a))
          refl exchange in
      let all =
        run_next m t (k ∷ k ∷ k ∷ k ∷ []) s (silent, s1) idle _ e (ap (λ q. load_old_head q t s) h)
          follow in
      (s5, (all, (update_self s4.pcs t (returned (s4.nodes a).data_) ∙ ap returned kept, refl)))

  -- A thread that is in no call and moves alone, with no exchange that fails for no reason,
  -- is through a Push in three moves and through a Pop after it in five more, in any state
  -- that the others have left: the Pop gives the value back, and the head is again the one
  -- that it was.
  pub pop-push :
      (v : T) (t : ℕ) (s : State T)
      → s.pcs t ≡ idle
      → let push : ℕ × Move T = (t, steady (some v)) in
        let pop : ℕ × Move T = (t, steady none) in
        let out = run (push ∷ push ∷ push ∷ pop ∷ pop ∷ pop ∷ pop ∷ pop ∷ []) s in
        (out.0
          ≡ silent ∷ silent ∷ pushes v ∷ silent ∷ silent ∷ pops (some v) ∷ silent ∷ silent ∷ [])
        × ((out.1.pcs t ≡ returned (some v)) × (out.1.head_ ≡ s.head_))
  unfolding publish load_next_of_new make_node
  pop-push v t s e =
      let p = s.fresh in
      let s1 = make_node v t s in
      let s2 = load_next_of_new v p t s1 in
      let s3 = publish p t s2 in
      let nd : Node T = record (s1.nodes p) { next_ = s.head_ } in
      let data_p : (s3.nodes p).data_ ≡ some v =
        ap (λ k. k.data_) (update_self s1.nodes p nd)
        ∙ ap (λ k. k.data_) (update_self s.nodes p (record { data_ = some v; next_ = none })) in
      let next_p : (s3.nodes p).next_ ≡ s.head_ = ap (λ k. k.next_) (update_self s1.nodes p nd) in
      let (s', (popped, (end, head))) = pop_moves p t s3 (update_self s2.pcs t idle) refl in
      let k : ℕ × Move T = (t, steady none) in
      let whole = push_moves v t s (k ∷ k ∷ k ∷ k ∷ k ∷ []) _ e popped in
      (
        ap (λ o. o.0) whole
            ∙ ap (λ d. silent ∷ silent ∷ pushes v ∷ silent ∷ silent ∷ pops d ∷ silent ∷ silent ∷ [])
                data_p,
        (
          ap (λ o. o.1.pcs t) whole ∙ end ∙ ap returned data_p,
          ap (λ o. o.1.head_) whole ∙ head ∙ next_p,
        ),
      )
