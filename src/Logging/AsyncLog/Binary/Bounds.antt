-- ===== src/Logging/AsyncLog/Binary/Bounds.antt =====
-- The buffer of outputBinary in src/threading/async_log.cpp.
use playground_cpp.Common.{
  sym, take, drop, length-drop, ℕ_discrete, ℕ_discrete, ℕ, zero, suc, ◌+◌, ◌*◌, ◌/◌, ◌≤◌, ◌<◌, ◌≡◌,
  refl, List, [], length, arith,
}
use playground_cpp.Logging.AsyncLog.{Text}
use playground_cpp.Logging.AsyncLog.Binary.{dump_chunks, Dump, form_log, size_of_szbuf, print_size}

-- A number below a million has six digits in the format "%06u".
abbrev pub SixDigits : (ℕ → Text) → Type 0
SixDigits digits = (i : ℕ) → i < 1000000 → length (digits i) ≡ 6

-- What the loop has written when it has done a number of bytes.
record Fits (first : ℕ) (d : Dump) : Type 0 where
  small : length d.szbuf ≤ 2 * d.done + 8 * ((d.done + 31) / 32) + (d.done + 15) / 16
  counted : d.index ≡ first + (d.done + 31) / 32

dump_chunks-nil :
    (digits : ℕ → Text) (fuel index : ℕ) (bytes : List ℕ)
    → length bytes ≡ 0
    → dump_chunks digits fuel index bytes ≡ []
unfolding dump_chunks
dump_chunks-nil digits zero index bytes e = refl
dump_chunks-nil digits (suc fuel) index bytes e = rw (e)

-- The length of the bytes is enough fuel for outputBinary: any two amounts of fuel that are no less
-- give the same text.
dump_chunks_enough :
    (digits : ℕ → Text) (fuel fuel' index : ℕ) (bytes : List ℕ)
    → length bytes ≤ fuel
    → length bytes ≤ fuel'
    → dump_chunks digits fuel index bytes ≡ dump_chunks digits fuel' index bytes
unfolding dump_chunks
dump_chunks_enough digits zero fuel' index bytes le le' =
    sym (dump_chunks-nil digits fuel' index bytes (omega arith))
dump_chunks_enough digits (suc fuel) zero index bytes le le' =
    dump_chunks-nil digits (suc fuel) index bytes (omega arith)
dump_chunks_enough digits (suc fuel) (suc fuel') index bytes le le' =
    let shorter = length-drop print_size bytes in
    let d = form_log digits index size_of_szbuf (take print_size bytes) in
    rw
      (dump_chunks_enough digits fuel fuel' d.index (drop print_size bytes) (omega arith)
        (omega arith))
      refl
