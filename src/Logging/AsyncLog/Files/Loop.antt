-- ===== src/Logging/AsyncLog/Files/Loop.antt =====
-- The loop of writeToFile in src/threading/async_log.cpp.
use playground_cpp.Common.{
  ℕ, zero, suc, ◌≤◌, ◌<◌, ◌≡◌, refl, true, some, [], ◌∷◌, ◌++◌, take, drop, length, ◌==◌,
  if◌then◌else◌, arith, append_assoc, length-drop, take-append-drop, ℕ_discrete,
}
use playground_cpp.Logging.AsyncLog.{Text, Os}
use playground_cpp.Logging.AsyncLog.Files.{write_loop}

-- fwrite writes no more than it is given.
abbrev pub Sound : Os → Type 0
Sound os = (t : Text) → os.fwrite t ≤ length t

-- fwrite writes something of a text that is not empty.
abbrev pub Progress : Os → Type 0
Progress os = (t : Text) → 0 < length t → 0 < os.fwrite t

take_all : (n : ℕ) (t : Text) → length (drop n t) ≡ 0 → take n t ≡ t
take_all zero [] h = refl
take_all zero (x ∷ t) h = absurd (omega arith)
take_all (suc n) [] h = refl
take_all (suc n) (x ∷ t) h = rw (take_all n t h)

-- One round of the loop.
write_loop_round :
    (os : Os) (fuel : ℕ) (t contents : Text)
    → Sound os
    → 0 < os.fwrite t
    → write_loop (suc fuel) os t contents ≡ (
        if length (drop (os.fwrite t) t) == 0
        then some (true, contents ++ t)
        else write_loop fuel os (drop (os.fwrite t) t) (contents ++ take (os.fwrite t) t))
unfolding write_loop
write_loop_round os fuel t contents sound pos =
    let le = sound t in let all = take_all (os.fwrite t) t in ground arith

-- With more fuel than the text has bytes, the loop ends with true and has appended the whole
-- text to the file, in whatever portions fwrite takes it, where the text is not empty and
-- fwrite takes at least one byte of what is left and no more than all.
pub write_loop_complete :
    (os : Os) (fuel : ℕ) (t contents : Text)
    → Sound os
    → Progress os
    → 0 < length t
    → length t < fuel
    → write_loop fuel os t contents ≡ some (true, contents ++ t)
write_loop_complete os zero t contents sound progress pos enough = absurd (omega arith)
write_loop_complete os (suc fuel) t contents sound progress pos enough =
    let p = progress t pos in
    let shorter = length-drop (os.fwrite t) t in
    let round = write_loop_round os fuel t contents sound p in
    elim (ℕ_discrete (length (drop (os.fwrite t) t)) 0) [
      | yes e ↦ rw (round, e)
      | no ne ↦
          let rest =
            write_loop_complete os fuel (drop (os.fwrite t) t) (contents ++ take (os.fwrite t) t)
              sound progress (omega arith) (omega arith) in
          let joined = append_assoc contents (take (os.fwrite t) t) (drop (os.fwrite t) t) in
          let whole = take-append-drop (os.fwrite t) t in ground (arith, rest, joined, whole)
    ]
