-- ===== src/Coroutines/Laws.antt =====
-- What the programs of experiments/cpp20/coroutines print, and that they end.
use playground_cpp.Common.{
  ℕ, zero, suc, ◌+◌, ◌-◌, ◌<◌, ◌≡◌, refl, ◌∙◌, ap, true, false, not, Option, none, some, List, [],
  ◌∷◌, ◌++◌, ltb, ◌==◌, if◌then◌else◌, arith,
}
use playground_cpp.Coroutines.{
  counter_yielded, Generator, counter, counter_done, counter_loop, next, value, printed, print_all,
  Line, readiness, suspension, resumption, void_return, final_suspension, func, got, foo_made,
  run_example, foo_awaiting, foo, foo_loop, foo_resume, run_to_end,
}

-- `k` numbers from `i` on.
abbrev pub from : ℕ → ℕ → List ℕ
from i zero = []
from i (suc k) = i ∷ from (i + 1) k

-- The numbers from `n` down to 1, each with the functions on the way to it, and those on the
-- way out.
abbrev pub countdown : ℕ → List Line
countdown zero = func readiness ∷ func resumption ∷ func void_return ∷ func final_suspension ∷ []
countdown (suc n) = func readiness ∷ func suspension ∷ func resumption ∷ got (n + 1) ∷ countdown n

counter_loop_lem :
    (n i : ℕ) (g : Generator)
    → ltb i n ≡ true
    → counter_loop n i g ≡ record { frame = counter_yielded n i; current_value_ = some i }
unfolding counter_loop
counter_loop_lem n i g e = rw (e) refl

next_yielded :
    (n i : ℕ) (v : Option ℕ)
    → i + 1 < n
    → next (record { frame = counter_yielded n i; current_value_ = v })
      ≡ (true, record { frame = counter_yielded n (i + 1); current_value_ = some (i + 1) })
unfolding next
next_yielded n i v lt =
    let g : Generator = record { frame = counter_yielded n i; current_value_ = v } in
    ap (λ g'. (not (counter_done g'), g')) (counter_loop_lem n (i + 1) g (ground arith))

next-counter :
    (n : ℕ)
    → 0 < n
    → next (counter n) ≡ (true, record { frame = counter_yielded n 0; current_value_ = some 0 })
unfolding next counter
next-counter n lt =
    ap (λ g'. (not (counter_done g'), g')) (counter_loop_lem n 0 (counter n) (ground arith))

print_all_yielded :
    (k n i fuel : ℕ) (v : Option ℕ)
    → n ≡ i + 1 + k
    → k < fuel
    → print_all fuel (record { frame = counter_yielded n i; current_value_ = v })
      ≡ some (from (i + 1) k)
unfolding print_all counter_loop
print_all_yielded k n i zero v e lt = absurd (omega arith)
print_all_yielded zero n i (suc fuel) v e lt =
    let stop : ltb (i + 1) n ≡ false = ground arith in rw (stop) refl
print_all_yielded (suc k) n i (suc fuel) v e lt =
    ap
      (λ r.
        if r.0
        then elim (value r.1) [ none ↦ none | some v ↦ printed (v ∷ []) (print_all fuel r.1) ]
        else some [])
      (next_yielded n i v (omega arith))
    ∙ ap (printed ((i + 1) ∷ []))
        (print_all_yielded k n (i + 1) fuel (some (i + 1)) (omega arith) (omega arith))

print_all-counter : (n fuel : ℕ) → n < fuel → print_all fuel (counter n) ≡ some (from 0 n)
unfolding print_all counter
print_all-counter n zero lt = absurd (omega arith)
print_all-counter zero (suc fuel) lt = refl
print_all-counter (suc n) (suc fuel) lt =
    ap
      (λ r.
        if r.0
        then elim (value r.1) [ none ↦ none | some v ↦ printed (v ∷ []) (print_all fuel r.1) ]
        else some [])
      (next-counter (suc n) (omega arith))
    ∙ ap (printed (0 ∷ []))
        (print_all_yielded n (suc n) 0 fuel (some 0) (omega arith) (omega arith))

foo_loop-suc :
    (n : ℕ) → foo_loop (suc n) ≡ (func readiness ∷ func suspension ∷ [], foo_awaiting (suc n))
unfolding foo_loop
foo_loop-suc n = let waits : (suc n == 0) ≡ false = ground arith in rw (waits) refl

foo_resume-suc :
    (n : ℕ)
    → foo_resume (foo_awaiting (suc n))
      ≡ (func resumption ∷ got (suc n) ∷ (foo_loop n).0, (foo_loop n).1)
unfolding foo_resume
foo_resume-suc n =
    let waits : (suc n == 0) ≡ false = ground arith in
    let back : suc n - 1 ≡ n = omega arith in rw (waits) (rw (back) refl)

printed_two :
    (a b : Line) (ls : List Line) (o : Option (List Line))
    → printed (a ∷ b ∷ ls) o ≡ printed (a ∷ b ∷ []) (printed ls o)
printed_two a b ls none = refl
printed_two a b ls (some l) = refl

run_to_end_awaiting :
    (n fuel : ℕ)
    → n < fuel
    → printed (foo_loop n).0 (run_to_end fuel (foo_loop n).1) ≡ some (countdown n)
unfolding run_to_end foo_loop
run_to_end_awaiting n zero lt = absurd (omega arith)
run_to_end_awaiting zero (suc fuel) lt = refl
run_to_end_awaiting (suc n) (suc fuel) lt =
    let rest = run_to_end_awaiting n fuel (omega arith) in
    let next_number : suc n ≡ n + 1 = omega arith in
    rw (foo_loop-suc n) (
      rw (foo_resume-suc n) (
        ap (printed (func readiness ∷ func suspension ∷ [])) (
          printed_two (func resumption) (got (suc n)) (foo_loop n).0
            (run_to_end fuel (foo_loop n).1)
          ∙ ap (printed (func resumption ∷ got (suc n) ∷ [])) rest)
        ∙ ap (λ k. some (func readiness ∷ func suspension ∷ func resumption ∷ got k ∷ countdown n))
            next_number))

-- With fuel above their number of rounds both programs end: the generator of `counter(n)`
-- prints the numbers from 0 to n - 1; `run_example`, for `foo(n)`, prints the numbers from n
-- down to 1, with the names of exactly the functions with LOG_FUNC that it calls before,
-- between and after them.
pub programs_end :
    (n fuel : ℕ)
    → n + 1 < fuel
    → (print_all fuel (counter n) ≡ some (from 0 n))
      × (run_example fuel n ≡ some (foo_made ++ countdown n))
unfolding run_example run_to_end foo
programs_end n zero lt = absurd (omega arith)
programs_end n (suc fuel) lt = (
  print_all-counter n (suc fuel) (omega arith),
  ap (printed foo_made) (run_to_end_awaiting n fuel (omega arith)),
)
