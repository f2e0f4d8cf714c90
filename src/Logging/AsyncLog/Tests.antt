-- ===== src/Logging/AsyncLog/Tests.antt =====
-- A logger with a file `a`, on a system where fopen and fwrite succeed, and its theorems there.
use playground_cpp.Common.{
  ◌≤◌, ℕ, ◌≤◌, ◌<◌, ◌≡◌, refl, true, false, [], ◌∷◌, ◌++◌, arith, length, codes,
}
use playground_cpp.Logging.AsyncLog.{Text, debug, info, Log, Os, init, uninit, returned}
use playground_cpp.Logging.AsyncLog.Files.{output, returns}
use playground_cpp.Logging.AsyncLog.Binary.{dump_chunks}
use playground_cpp.Logging.AsyncLog.Writer.{writer_step}
use playground_cpp.Logging.AsyncLog.Order.{
  System, Reach, here, next, calls, lines_in_order, in_hand,
}
use playground_cpp.Logging.AsyncLog.Cycle.{Works}
use playground_cpp.Logging.AsyncLog.Drain.{run_writer, exit_drains}

-- fwrite takes at most five bytes at a time.
abbrev five : Text → ℕ
five (a ∷ b ∷ c ∷ d ∷ e ∷ t) = 5
five t = length t

abbrev os : Os
os = record { opens = λ name. true; fwrite = five }

five-Sound : (t : Text) → five t ≤ length t
five-Sound [] = omega arith
five-Sound (a ∷ []) = omega arith
five-Sound (a ∷ b ∷ []) = omega arith
five-Sound (a ∷ b ∷ c ∷ []) = omega arith
five-Sound (a ∷ b ∷ c ∷ d ∷ []) = omega arith
five-Sound (a ∷ b ∷ c ∷ d ∷ e ∷ t) = omega arith

five-Progress : (t : Text) → 0 < length t → 0 < five t
five-Progress [] h = h
five-Progress (a ∷ []) h = omega arith
five-Progress (a ∷ b ∷ []) h = omega arith
five-Progress (a ∷ b ∷ c ∷ []) h = omega arith
five-Progress (a ∷ b ∷ c ∷ d ∷ []) h = omega arith
five-Progress (a ∷ b ∷ c ∷ d ∷ e ∷ t) h = omega arith

os-Works : Works os
os-Works = record { opens = λ name. refl; sound = five-Sound; progress = five-Progress }

-- With a roll size of 10 bytes.
abbrev fresh : Log
fresh = init (codes "a") (codes "00042") false 10 []

abbrev t0 : Text
t0 = codes "[2024]"

abbrev told : Log → Log
told l = elim (output os info t0 (codes "7") t0 (codes "hello") l) as (λ x. Log) [
  | returns ok l' ↦ l'
  | _ ↦ l
]

dropped : output os debug t0 (codes "7") t0 (codes "hello") fresh ≡ returns false fresh
unfolding output init
dropped = refl

abbrev first_line : Text
first_line = codes "[INFO][[2024]][7]hello\n"

accepts : (told fresh).lines ≡ first_line ∷ []
unfolding output init
accepts = refl

-- Two lines are in the list, and the writer is at the head of its loop.
abbrev busy : Log
busy = writer_step os t0 (told (told fresh))

exit_drains_example :
    let m = run_writer os (t0 ∷ t0 ∷ t0 ∷ t0 ∷ t0 ∷ t0 ∷ t0 ∷ t0 ∷ []) (uninit busy) in
    (m.point ≡ returned) × (m.console ≡ first_line ∷ first_line ∷ [])
unfolding writer_step output init uninit
exit_drains_example =
    exit_drains os (t0 ∷ t0 ∷ t0 ∷ t0 ∷ t0 ∷ t0 ∷ t0 ∷ t0 ∷ []) (first_line ∷ first_line ∷ [])
      (uninit busy) os-Works (λ e. cc) (omega arith, (omega arith, tt)) refl refl refl refl

-- The writer has read `m_bExit`.
abbrev idle : Log
idle = writer_step os t0 (writer_step os t0 (writer_step os t0 fresh))

abbrev sent : System
sent = record { log = told fresh; accepted = first_line ∷ [] }

sent-Reach : Reach os sent
unfolding output init
sent-Reach =
    next (here (codes "a") (codes "00042") false 10 [])
      (calls info t0 (codes "7") t0 (codes "hello") (λ e. cc) (λ e. cc) refl)

lines_in_order_example :
    sent.accepted ≡ sent.log.console ++ in_hand sent.log.point ++ sent.log.lines
lines_in_order_example = lines_in_order sent-Reach

-- Always the same six digits.
abbrev zeros : ℕ → Text
zeros i = codes "000000"

small_dump : dump_chunks zeros 3 0 (1 ∷ 47 ∷ 255 ∷ []) ≡ codes "000000  012fff\n"
unfolding dump_chunks
small_dump = refl
