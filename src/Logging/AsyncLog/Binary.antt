-- ===== src/Logging/AsyncLog/Binary.antt =====
-- src/threading/async_log.cpp: formLog and outputBinary. `digits` is what ullto4Str writes of
-- a line's number. `szbuf` is the text before its terminating zero, which both `len` and
-- strcat run up to.
pub mod Bounds
use playground_cpp.Common.{
  ℕ, zero, suc, ◌+◌, ◌*◌, ◌-◌, ◌/◌, ◌%◌, Bool, true, false, not, ◌&&◌, Option, none, some, List, [],
  ◌∷◌, ◌++◌, take, drop, length, get_elem?, ltb, leb, ◌==◌, if◌then◌else◌, codes, min,
}
use playground_cpp.Logging.AsyncLog.{Text, Log, push_line}

-- `szchar[n]`
unfoldable pub hex : ℕ → ℕ
hex n = elim (get_elem? (codes "0123456789abcdef") n) [ none ↦ 0 | some c ↦ c ]

-- The locals of formLog; `done` is `lsize`.
pub record Dump : Type 0 where
  pub index : ℕ
  pub head_len : ℕ
  pub done : ℕ
  pub szbuf : Text

-- A new line for every 32nd byte, but no end of line before the first.
unfoldable pub start_line : (ℕ → Text) → Dump → Dump
start_line digits d =
    if d.done % 32 == 0
    then record d {
      index = d.index + 1;
      head_len = length (digits d.index) + 1;
      szbuf =
          d.szbuf ++ (if d.head_len == 0 then [] else codes "\n") ++ digits d.index ++ codes " ";
    }
    else d

unfoldable pub put_space : Dump → Dump
put_space d =
    if (d.done % 16 == 0) && not (d.head_len == 0)
    then record d { szbuf = d.szbuf ++ codes " " }
    else d

unfoldable pub put_byte : ℕ → Dump → Dump
unfolding hex
put_byte b d = record d {
  szbuf = d.szbuf ++ hex (b / 16 % 16) ∷ hex (b % 16) ∷ [];
  done = d.done + 1;
}

-- The loop, which stops before the buffer is full.
unfoldable pub form_loop : (ℕ → Text) → (size_buf : ℕ) → List ℕ → Dump → Dump
unfolding start_line put_space put_byte
form_loop digits size_buf [] d = d
form_loop digits size_buf (b ∷ bs) d =
    let rest = form_loop digits size_buf bs (put_byte b (put_space (start_line digits d))) in
    if ltb (length d.szbuf + 10) size_buf then rest else d

abbrev pub first_dump : ℕ → Dump
first_dump index = record { index = index; head_len = 0; done = 0; szbuf = [] }

unfoldable pub form_log : (ℕ → Text) → (index size_buf : ℕ) → List ℕ → Dump
unfolding form_loop
form_log digits index size_buf bytes =
    let d = form_loop digits size_buf bytes (first_dump index) in
    record d { szbuf = d.szbuf ++ codes "\n" }

abbrev pub print_size : ℕ
print_size = 512

abbrev pub size_of_szbuf : ℕ
size_of_szbuf = print_size * 3 + 8

-- The loop of outputBinary on fuel.
unfoldable pub dump_chunks : (ℕ → Text) → (fuel index : ℕ) → List ℕ → Text
unfolding form_log
dump_chunks digits zero index bytes = []
dump_chunks digits (suc fuel) index bytes =
    let d = form_log digits index size_of_szbuf (take print_size bytes) in
    let rest = dump_chunks digits fuel d.index (drop print_size bytes) in
    if length bytes == 0 then [] else d.szbuf ++ rest

-- `title` is the first line, with the address and the size.
unfoldable pub output_binary : (ℕ → Text) → (title : Text) → List ℕ → Log → Log
unfolding dump_chunks push_line
output_binary digits title bytes l =
    push_line (title ++ dump_chunks digits (length bytes) 0 bytes) l
