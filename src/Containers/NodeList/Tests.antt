-- ===== src/Containers/NodeList/Tests.antt =====
-- A RemoveIf of the numbers above 5, with a PushFront in between.
use playground_cpp.Common.{ℕ, ◌≡◌, refl, ltb, none, [], ◌∷◌}
use playground_cpp.Containers.NodeList.{removing, push_front, begin_remove, remove_step}
use playground_cpp.Containers.NodeList.Linear.{
  System, Reach, here, next, pushes, begins, removes, result, remove_if_linearizes,
}

-- The 9 comes in when RemoveIf has passed the 2, and stays.
abbrev midway : System ℕ
midway = record { state = removing (ltb 5) (9 ∷ 2 ∷ []) (7 ∷ []); spec = 9 ∷ 2 ∷ [] }

midway-Reach : Reach midway
unfolding push_front begin_remove remove_step
midway-Reach =
    next
      (next (next (next (next here (pushes 7 refl)) (pushes 2 refl)) (begins (ltb 5) refl)) removes)
      (pushes 9 refl)

remove_if_linearizes_example : result midway.state ≡ midway.spec
remove_if_linearizes_example = remove_if_linearizes midway-Reach

blocked_at_head : push_front {T = ℕ} 9 (removing (ltb 5) [] (2 ∷ [])) ≡ none
unfolding push_front
blocked_at_head = refl
