-- ===== src/Coroutines.antt =====
-- experiments/cpp20/coroutines: the generator of co_yeild/main.cpp, and the task of
-- co_await/common.hpp with the coroutine and the awaiter of co_await/await_1.hpp. A coroutine
-- is the point at which it is suspended with its variables; `resume` takes it to the next one.
-- An int is a natural number. What a program prints is a list.
pub mod Laws
mod Tests
use playground_cpp.Common.{
  ℕ, zero, suc, ◌+◌, ◌-◌, Bool, true, false, not, Option, none, some, List, [], ◌∷◌, ◌++◌, ltb,
  ◌==◌, if◌then◌else◌,
}

-- The coroutine `counter`: suspended initially, at a co_yield, or finally.
pub data CounterFrame : Type 0 where
  counter_initial : (n : ℕ) → CounterFrame
  counter_yielded : (n i : ℕ) → CounterFrame
  counter_final : CounterFrame

pub record Generator : Type 0 where
  pub frame : CounterFrame
  pub current_value_ : Option ℕ

unfoldable pub counter : ℕ → Generator
counter n = record { frame = counter_initial n; current_value_ = none }

unfoldable pub counter_done : Generator → Bool
counter_done g = elim g.frame [
  | counter_initial n ↦ false
  | counter_yielded n i ↦ false
  | counter_final ↦ true
]

-- The test of the loop, and yield_value or return_void.
unfoldable pub counter_loop : ℕ → ℕ → Generator → Generator
counter_loop n i g =
    if ltb i n
    then record { frame = counter_yielded n i; current_value_ = some i }
    else record g { frame = counter_final }

unfoldable pub counter_resume : Generator → Generator
unfolding counter_loop
counter_resume g = elim g.frame [
  | counter_initial n ↦ counter_loop n 0 g
  | counter_yielded n i ↦ counter_loop n (i + 1) g
  | counter_final ↦ g
]

unfoldable pub next : Generator → Bool × Generator
unfolding counter_resume counter_done
next g = let g' = if counter_done g then g else counter_resume g in (not (counter_done g'), g')

unfoldable pub value : Generator → Option ℕ
value g = g.current_value_

-- What is printed before the rest.
abbrev pub printed {ℓ} : {A : Type ℓ} → List A → Option (List A) → Option (List A)
printed xs none = none
printed xs (some ys) = some (xs ++ ys)

-- The loop of main: what it prints, `none` when the fuel is out, or when there is no value.
unfoldable pub print_all : (fuel : ℕ) → Generator → Option (List ℕ)
unfolding next value
print_all zero g = none
print_all (suc fuel) g =
    let (more, g') = next g in
    let rest = print_all fuel g' in
    if more then elim (value g') [ none ↦ none | some v ↦ printed (v ∷ []) rest ] else some []

-- The functions that name themselves by LOG_FUNC: await_ready, await_suspend and await_resume, the
-- constructor of Task, and initial_suspend, final_suspend and return_void of its promise.
pub data Function : Type 0 where
  readiness suspension resumption construction initial_suspension final_suspension void_return :
      Function

-- A line on std::cout.
pub data Line : Type 0 where
  func : Function → Line
  got : ℕ → Line

-- The coroutine `foo`, suspended initially, in its co_await, or finally, with its variable
-- `counter`.
pub data FooFrame : Type 0 where
  foo_initial : (n : ℕ) → FooFrame
  foo_awaiting : (counter : ℕ) → FooFrame
  foo_final : FooFrame

unfoldable pub foo : ℕ → FooFrame
foo n = foo_initial n

-- What the call `foo(n)` prints, before the coroutine starts.
abbrev pub foo_made : List Line
foo_made = func construction ∷ func initial_suspension ∷ []

unfoldable pub foo_done : FooFrame → Bool
foo_done (foo_initial n) = false
foo_done (foo_awaiting c) = false
foo_done foo_final = true

-- What it prints, and what it returns.
unfoldable pub await_ready : ℕ → List Line × Bool
await_ready counter = (func readiness ∷ [], counter == 0)

abbrev pub await_suspend : List Line
await_suspend = func suspension ∷ []

-- What it prints, the value of a co_await, and the variable afterwards.
unfoldable pub await_resume : ℕ → List Line × ℕ × ℕ
await_resume counter = (func resumption ∷ [], counter, counter - 1)

-- What is printed when the coroutine has left its loop.
abbrev pub foo_returns : List Line
foo_returns = func void_return ∷ func final_suspension ∷ []

-- From co_await on: an awaiter that is ready gives zero at once, which ends the loop.
unfoldable pub foo_loop : ℕ → List Line × FooFrame
unfolding await_ready await_resume
foo_loop counter =
    let (asked, ready) = await_ready counter in
    if ready
    then (asked ++ (await_resume counter).0 ++ foo_returns, foo_final)
    else (asked ++ await_suspend, foo_awaiting counter)

-- What the coroutine prints, and where it is then.
unfoldable pub foo_resume : FooFrame → List Line × FooFrame
unfolding foo_loop await_resume
foo_resume (foo_initial n) = foo_loop n
foo_resume (foo_awaiting c) =
    let (out, v, counter') = await_resume c in
    let (later, f) = foo_loop counter' in
    if v == 0 then (out ++ foo_returns, foo_final) else (out ++ got v ∷ later, f)
foo_resume foo_final = ([], foo_final)

-- The loop of Task, `none` when the fuel is out.
unfoldable pub run_to_end : (fuel : ℕ) → FooFrame → Option (List Line)
unfolding foo_done foo_resume
run_to_end zero f = none
run_to_end (suc fuel) f =
    let (out, f') = foo_resume f in
    let rest = run_to_end fuel f' in if foo_done f then some [] else printed out rest

-- `run_example`, for any argument of `foo`.
unfoldable pub run_example : (fuel n : ℕ) → Option (List Line)
unfolding run_to_end foo
run_example fuel n = printed foo_made (run_to_end fuel (foo n))
