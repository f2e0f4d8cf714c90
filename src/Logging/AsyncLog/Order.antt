-- ===== src/Logging/AsyncLog/Order.antt =====
-- The order of the lines of src/threading/async_log.cpp, in any interleaving of the calls of other
-- threads with the writer's steps. `accepted` is a ghost: the lines that calls have taken, in
-- order. A call that takes `m_mutexWrite` waits while the writer is between its test and `wait`.
use playground_cpp.Common.{
  length, inl, inr, ℕ, if◌then◌else◌, Bool, true, false, ◌≡◌, ◌≢◌, refl, List, [], ◌∷◌, ◌++◌, arith,
  append_assoc, append-nil, some, Option-cases, Bool-cases,
}
use playground_cpp.Logging.AsyncLog.{
  Text, Level, trace, debug, info, warning, error, syserror, critical, fatal, Point, starting,
  at_roll, at_list, falling_asleep, asleep, holding, hanging, returned, File, Log, Os, init,
  set_level, is_dropped, push_line, notify_one, uninit, create_new_file, make_line_prefix,
  finish_line,
}
use playground_cpp.Logging.AsyncLog.Files.{submit, place, output, output_at, returns, write_to_file}
use playground_cpp.Logging.AsyncLog.Binary.{output_binary, dump_chunks}
use playground_cpp.Logging.AsyncLog.Writer.{point_step, writer_step, roll, take_line, print_line}

pub record System : Type 0 where
  pub log : Log
  pub accepted : List Text

-- What a call that returned adds to the accepted lines.
abbrev pub grow : Bool → Text → List Text → List Text
grow false line lines = lines
grow true line lines = lines ++ line ∷ []

-- The line of a call without a place, and of one with a place.
abbrev pub line_of : Level → (time thread message : Text) → Log → Text
line_of n time thread message l = make_line_prefix n time thread ++ finish_line l message

abbrev pub line_at : Level → (time thread file line message : Text) → Log → Text
line_at n time thread file line message l =
    make_line_prefix n time thread ++ place file line ++ finish_line l message

pub data Step (os : Os) (s : System) : System → Type 0 where
  calls :
      (n : Level) (time thread now message : Text) {ok : Bool} {l : Log}
      → n ≢ fatal
      → s.log.point ≢ falling_asleep
      → output os n time thread now message s.log ≡ returns ok l
      → Step os s
          (record { log = l; accepted = grow ok (line_of n time thread message s.log) s.accepted })
  calls_at :
      (n : Level) (time thread now file line message : Text) {ok : Bool} {l : Log}
      → n ≢ fatal
      → s.log.point ≢ falling_asleep
      → output_at os n time thread now file line message s.log ≡ returns ok l
      → Step os s (record {
        log = l;
        accepted = grow ok (line_at n time thread file line message s.log) s.accepted;
      })
  dumps :
      (digits : ℕ → Text) (title : Text) (bytes : List ℕ)
      → s.log.point ≢ falling_asleep
      → Step os s (record {
        log = output_binary digits title bytes s.log;
        accepted = s.accepted ++ (title ++ dump_chunks digits (length bytes) 0 bytes) ∷ [];
      })
  sets_level : (n : Level) → Step os s (record s { log = set_level n s.log })
  exits : Step os s (record s { log = uninit s.log })
  writes : (now : Text) → Step os s (record s { log = writer_step os now s.log })

pub data Reach (os : Os) : System → Type 0 where
  here :
      (name pid : Text) (truncate : Bool) (roll_size : ℕ) (disk : List File)
      → Reach os (record { log = init name pid truncate roll_size disk; accepted = [] })
  next : {s t : System} → Reach os s → Step os s t → Reach os t

-- The line that the writer has taken and not yet printed.
abbrev pub in_hand : Point → List Text
in_hand (holding line) = line ∷ []
in_hand starting = []
in_hand at_roll = []
in_hand at_list = []
in_hand falling_asleep = []
in_hand asleep = []
in_hand hanging = []
in_hand returned = []

abbrev pub InOrder : List Text → Log → Type 0
InOrder accepted l = accepted ≡ l.console ++ in_hand l.point ++ l.lines

notify_one-in_hand : (l : Log) → in_hand (notify_one l).point ≡ in_hand l.point
unfolding notify_one
notify_one-in_hand l = ground arith

push_line-InOrder :
    (line : Text) (lines : List Text) (l : Log)
    → InOrder lines l
    → InOrder (lines ++ line ∷ []) (push_line line l)
unfolding push_line
push_line-InOrder line lines l h =
    rw (h, notify_one-in_hand l) (append_assoc (l.console ++ in_hand l.point) l.lines (line ∷ []))

uninit-InOrder : (lines : List Text) (l : Log) → InOrder lines l → InOrder lines (uninit l)
unfolding uninit
uninit-InOrder lines l h = ground arith

set_level-InOrder :
    (n : Level) (lines : List Text) (l : Log) → InOrder lines l → InOrder lines (set_level n l)
unfolding set_level
set_level-InOrder n lines l h = ground arith

roll-InOrder :
    (os : Os) (now : Text) (lines : List Text) (l : Log)
    → l.point ≡ at_roll
    → InOrder lines l
    → InOrder lines (roll os now l)
unfolding roll create_new_file
roll-InOrder os now lines l e h = ground arith

take_line-InOrder :
    (ls lines : List Text) (l : Log)
    → l.lines ≡ ls
    → l.point ≡ at_list
    → InOrder lines l
    → InOrder lines (take_line l)
unfolding take_line
take_line-InOrder [] lines l n e h = ground arith
take_line-InOrder (line ∷ rest) lines l n e h =
    ground (arith, append-nil l.console, append_assoc l.console (line ∷ []) rest)

write_to_file-console :
    (os : Os) (t : Text) (l : Log) {ok : Bool} {l' : Log}
    → write_to_file os t l ≡ some (ok, l')
    → (l'.console ≡ l.console) × (l'.lines ≡ l.lines)
unfolding write_to_file
write_to_file-console os t l e = ground arith

print_line-InOrder :
    (os : Os) (line : Text) (lines : List Text) (l : Log)
    → l.point ≡ holding line
    → InOrder lines l
    → InOrder lines (print_line os line l)
unfolding print_line
print_line-InOrder os line lines l e h =
    let printed = record l { console = l.console ++ line ∷ [] } in
    elim (Option-cases (write_to_file os line printed)) [
      | inl n ↦ ground (arith, append-nil (l.console ++ line ∷ []))
      | inr ((ok, l'), s) ↦
          let same = write_to_file-console os line printed s in
          ground (arith, append-nil (l.console ++ line ∷ []))
    ]

point_step-InOrder :
    (p : Point) (os : Os) (now : Text) (lines : List Text) (l : Log)
    → l.point ≡ p
    → InOrder lines l
    → InOrder lines (point_step p os now l)
unfolding point_step
point_step-InOrder starting os now lines l e h = ground arith
point_step-InOrder at_roll os now lines l e h = roll-InOrder os now lines l e h
point_step-InOrder at_list os now lines l e h = take_line-InOrder l.lines lines l refl e h
point_step-InOrder falling_asleep os now lines l e h = ground arith
point_step-InOrder asleep os now lines l e h = h
point_step-InOrder (holding line) os now lines l e h = print_line-InOrder os line lines l e h
point_step-InOrder hanging os now lines l e h = h
point_step-InOrder returned os now lines l e h = h

submit-other :
    (os : Os) (n : Level) (now line : Text) (l : Log)
    → n ≢ fatal
    → submit os n now line l ≡ returns true (push_line line l)
unfolding submit
submit-other os trace now line l f = refl
submit-other os debug now line l f = refl
submit-other os info now line l f = refl
submit-other os warning now line l f = refl
submit-other os error now line l f = refl
submit-other os syserror now line l f = refl
submit-other os fatal now line l f = absurd (f refl)
submit-other os critical now line l f = refl

output-InOrder :
    (os : Os) (n : Level) (now line : Text) (lines : List Text) (l : Log) {ok : Bool} {l' : Log}
    → n ≢ fatal
    → (if is_dropped n l then returns false l else submit os n now line l) ≡ returns ok l'
    → InOrder lines l
    → InOrder (grow ok line lines) l'
output-InOrder os n now line lines l f e h = elim (Bool-cases (is_dropped n l)) [
  | inl d ↦ ground arith
  | inr d ↦
      let pushed = push_line-InOrder line lines l h in
      let other = submit-other os n now line l f in ground arith
]

Step-InOrder :
    {os : Os} {s t : System} → Step os s t → InOrder s.accepted s.log → InOrder t.accepted t.log
unfolding output output_at output_binary writer_step
Step-InOrder {os = os} {s = s} (calls n time thread now message f p e) h =
    output-InOrder os n now (line_of n time thread message s.log) s.accepted s.log f e h
Step-InOrder {os = os} {s = s} (calls_at n time thread now file line message f p e) h =
    output-InOrder os n now (line_at n time thread file line message s.log) s.accepted s.log f e h
Step-InOrder {os = os} {s = s} (dumps digits title bytes p) h =
    push_line-InOrder (title ++ dump_chunks digits (length bytes) 0 bytes) s.accepted s.log h
Step-InOrder {os = os} {s = s} (sets_level n) h = set_level-InOrder n s.accepted s.log h
Step-InOrder {os = os} {s = s} exits h = uninit-InOrder s.accepted s.log h
Step-InOrder {os = os} {s = s} (writes now) h =
    point_step-InOrder s.log.point os now s.accepted s.log refl h

-- In every interleaving of calls that do not log at FATAL with the writer, the lines on the
-- console, then the line that the writer holds, then those still in the list are the lines that
-- the calls accepted, each once and in order.
pub lines_in_order :
    {os : Os} {s : System}
    → Reach os s
    → s.accepted ≡ s.log.console ++ in_hand s.log.point ++ s.log.lines
unfolding init
lines_in_order (here name pid truncate roll_size disk) = refl
lines_in_order (next r st) = Step-InOrder st (lines_in_order r)
