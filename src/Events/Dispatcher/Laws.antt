-- ===== src/Events/Dispatcher/Laws.antt =====
-- What processPostedEvents of main.cpp delivers, and in which order.
use playground_cpp.Common.{
  ℕ, zero, suc, ◌≤◌, ◌≡◌, refl, sym, ◌∙◌, ap, inl, inr, ◌⊎◌, Bool, not, List, [], ◌∷◌, ◌++◌, length,
  ◌==◌, arith, Bool-cases, append-nil, append_assoc,
}
use playground_cpp.Events.Timers.{Event}
use playground_cpp.Events.Dispatcher.{
  Thread, Handler, Object, filter_event, send, deliver, process_front, process_posted_events,
}

-- What is appended to a list in two goes.
posts_after {ℓ} :
    {A : Type ℓ} {q1 q2 : List A} (q : List A)
    → (a : List A) × (q1 ≡ q ++ a)
    → (b : List A) × (q2 ≡ q1 ++ b)
    → (c : List A) × (q2 ≡ q ++ c)
posts_after q (a, e) (b, f) = (a ++ b, f ∙ ap (λ xs. xs ++ b) e ∙ append_assoc q a b)

module _ {ℓ} {R W : Type ℓ} where
  -- Whatever it is called on, it leaves what was in the queue in place and adds at the end only.
  abbrev pub OnlyPosts : Handler R W → Type ℓ
  OnlyPosts h =
      (e : Event) (d : Thread R W)
      → (posted : List (R × Event)) × ((h e d).1.1.queue ≡ d.queue ++ posted)

  abbrev pub AllOnlyPost : List (Handler R W) → Type ℓ
  AllOnlyPost [] = Unit
  AllOnlyPost (f ∷ fs) = OnlyPosts f × AllOnlyPost fs

  -- The nodes are taken from the front of the queue one by one, and each is delivered before
  -- the next is taken.
  pub data Delivers (objects : R → Object R W)
      : List (R × Event) → Thread R W → Thread R W → Type ℓ where
    done : (d : Thread R W) → Delivers objects [] d d
    next :
        (node : R × Event) (nodes rest : List (R × Event)) (d d' : Thread R W)
        → d.queue ≡ node ∷ rest
        → Delivers objects nodes (deliver objects node (record d { queue = rest })) d'
        → Delivers objects (node ∷ nodes) d d'

  filter_event-OnlyPosts : (fs : List (Handler R W)) → AllOnlyPost fs → OnlyPosts (filter_event fs)
  unfolding filter_event
  filter_event-OnlyPosts [] h e d = ([], sym (append-nil d.queue))
  filter_event-OnlyPosts (f ∷ fs) h e d =
      let first = h.0 e d in
      let rest = filter_event-OnlyPosts fs h.1 ((f e d).1.0) ((f e d).1.1) in
      elim (Bool-cases ((f e d).0)) [
        | inl eaten ↦ rw (eaten) first
        | inr passed ↦ rw (passed) (posts_after d.queue first rest)
      ]

  abbrev pub ObjectOnlyPosts : Object R W → Type ℓ
  ObjectOnlyPosts o = OnlyPosts o.event × AllOnlyPost o.filters

  send-OnlyPosts : (o : Object R W) → ObjectOnlyPosts o → OnlyPosts (send o)
  unfolding send
  send-OnlyPosts o h e d =
      let f = filter_event o.filters e d in
      let filtered = filter_event-OnlyPosts o.filters h.1 e d in
      let handled = h.0 (f.1.0) (f.1.1) in
      elim (Bool-cases (f.0)) [
        | inl eaten ↦ rw (eaten) filtered
        | inr passed ↦ rw (passed) (posts_after d.queue filtered handled)
      ]

  -- What a call of processPostedEvents did: the nodes that it delivered, and those that the
  -- handlers posted meanwhile.
  pub record Processed (objects : R → Object R W) (max_count : ℕ) (d : Thread R W)
      (out : Bool × Thread R W) : Type ℓ where
    delivered : List (R × Event)
    posted : List (R × Event)
    delivers : Delivers objects delivered d (out.1)
    in_order : d.queue ++ posted ≡ delivered ++ out.1.queue
    at_most : length delivered ≤ max_count
    all : (length delivered ≡ max_count) ⊎ (out.1.queue ≡ [])
    processed : out.0 ≡ not (length delivered == 0)

  process_front-Processed :
      (objects : R → Object R W) (n : ℕ) (next_rounds : Thread R W → Bool × Thread R W)
      → ((r : R) → ObjectOnlyPosts (objects r))
      → ((d : Thread R W) → Processed objects n d (next_rounds d))
      → (queue : List (R × Event)) (d : Thread R W) → d.queue ≡ queue
      → Processed objects (suc n) d (process_front objects next_rounds queue d)
  unfolding process_front
  process_front-Processed objects n next_rounds h ih [] d empty = record {
    delivered = [];
    posted = [];
    delivers = done d;
    in_order = append-nil d.queue;
    at_most = omega arith;
    all = inr empty;
    processed = refl;
  }
  process_front-Processed objects n next_rounds h ih (node ∷ rest) d e =
      let sent =
        send-OnlyPosts (objects (node.0)) (h (node.0)) (node.1) (record d { queue = rest }) in
      let later = ih (deliver objects node (record d { queue = rest })) in
      let at_most = later.at_most in
      record {
        delivered = node ∷ later.delivered;
        posted = sent.0 ++ later.posted;
        delivers =
            next node later.delivered rest d
              (next_rounds (deliver objects node (record d { queue = rest }))).1 e later.delivers;
        in_order =
            ap (λ q. q ++ (sent.0 ++ later.posted)) e
            ∙ ap (λ q. node ∷ q)
                (sym (append_assoc rest sent.0 later.posted)
                  ∙ ap (λ q. q ++ later.posted) (sym sent.1)
                  ∙ later.in_order);
        at_most = ground arith;
        all = elim later.all [ inl full ↦ inl (ap suc full) | inr empty ↦ inr empty ];
        processed = ground arith;
      }

  -- processPostedEvents delivers what is queued in the order it was posted, what the
  -- handlers post meanwhile behind it, at most maxCount nodes in all; when it delivers fewer
  -- the queue is empty at the end; and it says whether it delivered any. It holds when the
  -- handlers and the filters leave the queue as it is but for what they post.
  pub process_posted_events_lem :
      (objects : R → Object R W) (max_count : ℕ) (d : Thread R W)
      → ((r : R) → ObjectOnlyPosts (objects r))
      → Processed objects max_count d (process_posted_events objects max_count d)
  unfolding process_posted_events
  process_posted_events_lem objects zero d h = record {
    delivered = [];
    posted = [];
    delivers = done d;
    in_order = append-nil d.queue;
    at_most = omega arith;
    all = inl refl;
    processed = refl;
  }
  process_posted_events_lem objects (suc n) d h =
      process_front-Processed objects n (process_posted_events objects n) h
        (λ d. process_posted_events_lem objects n d h) d.queue d refl
