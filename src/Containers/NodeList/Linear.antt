-- ===== src/Containers/NodeList/Linear.antt =====
-- RemoveIf of threadsafe_list.hpp beside PushFront, in any interleaving. `spec` is a ghost:
-- the list on which each RemoveIf acts at once when it takes the mutex of the head. One
-- RemoveIf is under way at a time.
use playground_cpp.Common.{
  ℕ, zero, suc, ◌+◌, ◌≡◌, refl, Bool, not, none, some, List, [], ◌∷◌, ◌++◌, keep, length,
  if◌then◌else◌, arith, append_assoc, append-nil, Bool-cases, inl, inr, ◌∙◌, sym, ap,
}
use playground_cpp.Containers.NodeList.{
  State, resting, removing, push_front, begin_remove, remove_step, remove_if, find_first_if,
  for_each,
}

pub record System {ℓ} (T : Type ℓ) : Type ℓ where
  pub state : State T
  pub spec : List T

module _ {ℓ} {T : Type ℓ} where
  abbrev pub without : (T → Bool) → List T → List T
  without p l = keep (λ x. not (p x)) l

  pub data Step (s : System T) : System T → Type ℓ where
    pushes :
        (v : T) {t : State T}
        → push_front v s.state ≡ some t
        → Step s (record { state = t; spec = v ∷ s.spec })
    begins :
        (p : T → Bool) {t : State T}
        → begin_remove p s.state ≡ some t
        → Step s (record { state = t; spec = without p s.spec })
    removes : Step s (record s { state = remove_step s.state })

  pub data Reach : System T → Type ℓ where
    here : Reach (record { state = resting []; spec = [] })
    next : {s t : System T} → Reach s → Step s t → Reach t

  -- What the list becomes when a RemoveIf under way has ended.
  abbrev pub result : State T → List T
  result (resting l) = l
  result (removing p before behind) = before ++ without p behind

  pushes-result :
      (v : T) (s : State T) {t : State T} → push_front v s ≡ some t → result t ≡ v ∷ result s
  unfolding push_front
  pushes-result v (resting l) e = ground arith
  pushes-result v (removing p [] behind) e = cc
  pushes-result v (removing p (x ∷ before) behind) e = ground arith

  begins-result :
      (p : T → Bool) (s : State T) {t : State T}
      → begin_remove p s ≡ some t
      → result t ≡ without p (result s)
  unfolding begin_remove
  begins-result p (resting l) e = ground arith
  begins-result p (removing q before behind) e = cc

  removes-result : (s : State T) → result (remove_step s) ≡ result s
  unfolding remove_step
  removes-result (resting l) = refl
  removes-result (removing p before []) = sym (append-nil before)
  removes-result (removing p before (x ∷ behind)) = elim (Bool-cases (p x)) [
    | inl y ↦ rw (y)
    | inr n ↦ rw (n) (append_assoc before (x ∷ []) (without p behind))
  ]

  Step-result : {s t : System T} → Step s t → result s.state ≡ s.spec → result t.state ≡ t.spec
  Step-result {s = s} (pushes v e) h = pushes-result v s.state e ∙ ap (λ l. v ∷ l) h
  Step-result {s = s} (begins p e) h = begins-result p s.state e ∙ ap (without p) h
  Step-result {s = s} removes h = removes-result s.state ∙ h

  -- In every interleaving of PushFront with the rounds of RemoveIf, each RemoveIf with a
  -- test of its own and begun when the one before has ended, the list is, once no RemoveIf
  -- is under way, what the calls give when each RemoveIf acts at once at its start; until
  -- then it is that list and, behind the current node, what RemoveIf has yet to remove.
  pub remove_if_linearizes : {s : System T} → Reach s → result s.state ≡ s.spec
  remove_if_linearizes here = refl
  remove_if_linearizes (next r st) = Step-result st (remove_if_linearizes r)

module _ {ℓ} {T : Type ℓ} (p : T → Bool) where
  remove_if_from :
      (before behind : List T) (fuel : ℕ)
      → length behind + 1 ≡ fuel
      → remove_if fuel (removing p before behind) ≡ resting (before ++ without p behind)
  unfolding remove_if
  remove_if_from before [] zero e = absurd (omega arith)
  remove_if_from before [] (suc zero) e = ap resting (sym (append-nil before))
  remove_if_from before [] (suc (suc fuel)) e = absurd (omega arith)
  remove_if_from before (x ∷ behind) zero e = absurd (omega arith)
  remove_if_from before (x ∷ behind) (suc fuel) e = elim (Bool-cases (p x)) [
    | inl y ↦ rw (y) (remove_if_from before behind fuel (omega arith))
    | inr n ↦
        rw (n, remove_if_from (before ++ x ∷ []) behind fuel (omega arith))
          (ap resting (append_assoc before (x ∷ []) (without p behind)))
  ]

  find_first_if-without : (l : List T) → find_first_if p (without p l) ≡ none
  unfolding find_first_if
  find_first_if-without [] = refl
  find_first_if-without (x ∷ l) = elim (Bool-cases (p x)) [
    | inl y ↦ rw (y) (find_first_if-without l)
    | inr n ↦ rw (n, n) (find_first_if-without l)
  ]

  for_each-without :
      {S : Type ℓ} (f : S → T → S) (s : S) (l : List T)
      → for_each f s (without p l) ≡ for_each (λ u x. if p x then u else f u x) s l
  unfolding for_each
  for_each-without f s [] = refl
  for_each-without f s (x ∷ l) = elim (Bool-cases (p x)) [
    | inl y ↦ rw (y) (for_each-without f s l)
    | inr n ↦ rw (n) (for_each-without f (f s x) l)
  ]

  -- RemoveIf alone ends within one round for each node and one more, and leaves a list in which
  -- FindFirstIf finds nothing that passes the test, and in which ForEach visits the nodes that do
  -- not pass it, in their order.
  remove_if_removes :
      {S : Type ℓ} (l : List T) (f : S → T → S) (s : S)
      → (m : List T) × ((remove_if (length l + 1) (removing p [] l) ≡ resting m)
          × ((find_first_if p m ≡ none)
              × (for_each f s m ≡ for_each (λ u x. if p x then u else f u x) s l)))
  remove_if_removes l f s = (
    without p l,
    (remove_if_from [] l (length l + 1) refl, (find_first_if-without l, for_each-without f s l)),
  )
