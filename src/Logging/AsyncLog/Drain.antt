-- ===== src/Logging/AsyncLog/Drain.antt =====
-- The end of writeThreadProc in src/threading/async_log.cpp, once `m_bExit` is set.
use playground_cpp.Common.{
  inl, inr, ◌+◌, ◌*◌, ◌<◌, ◌≡◌, ◌≢◌, refl, true, not, ◌||◌, List, [], ◌∷◌, ◌++◌, arith, length, leb,
  append_assoc, append-nil, Bool-cases, ap, ◌∙◌,
}
use playground_cpp.Logging.AsyncLog.{
  Text, at_roll, at_list, returned, File, Log, Os, is_empty, new_file_name, create_new_file,
}
use playground_cpp.Logging.AsyncLog.Writer.{point_step, writer_step, roll, take_line}
use playground_cpp.Logging.AsyncLog.Cycle.{
  Works, FileThere, after_line, add_to_first, old-has_file, cycle_logs_line,
}

-- The writer's steps, one for each time of a clock.
unfoldable pub run_writer : Os → List Text → Log → Log
run_writer os [] l = l
run_writer os (now ∷ nows) l = run_writer os nows (writer_step os now l)

-- No line is empty.
abbrev pub NoneEmpty : List Text → Type 0
NoneEmpty [] = Unit
NoneEmpty (line ∷ lines) = (0 < length line) × NoneEmpty lines

add_to_first-cons : (line : Text) (ds : List File) → ds ≢ [] → add_to_first line ds ≢ []
unfolding add_to_first
add_to_first-cons line [] ne = ne
add_to_first-cons line (f ∷ fs) ne = λ e. cc

after_line-FileThere :
    (now line : Text) (rest : List Text) (l : Log)
    → FileThere l
    → FileThere (after_line now line rest l)
unfolding after_line
after_line-FileThere now line rest l there =
    let first = add_to_first-cons line l.disk in
    λ h. elim (Bool-cases (is_empty l.file_name)) [
      | inl unnamed ↦ ground arith
      | inr named ↦ elim (Bool-cases (not l.has_file || leb l.roll_size l.written)) [
        | inl new ↦ rw (named, new) (λ e. cc)
        | inr old ↦
            rw (named, old)
              (first (there (old-has_file l.has_file (leb l.roll_size l.written) old)))
      ]
    ]

record Kept (line : Text) (rest : List Text) (l m : Log) : Type 0 where
  point : m.point ≡ at_roll
  lines : m.lines ≡ rest
  console : m.console ≡ l.console ++ line ∷ []
  exit : m.exit ≡ l.exit

after_line-Kept :
    (now line : Text) (rest : List Text) (l : Log) → Kept line rest l (after_line now line rest l)
unfolding after_line
after_line-Kept now line rest l = record {
  point = ground arith;
  lines = ground arith;
  console = ground arith;
  exit = ground arith;
}

record Rolled (l m : Log) : Type 0 where
  point : m.point ≡ at_list
  lines : m.lines ≡ l.lines
  console : m.console ≡ l.console
  exit : m.exit ≡ l.exit

roll-Rolled : (os : Os) (now : Text) (l : Log) → Works os → Rolled l (roll os now l)
unfolding roll create_new_file
roll-Rolled os now l w =
    let ok = w.opens (new_file_name l now) in
    let ok' = w.opens (new_file_name (record l { written = 0 }) now) in
    record {
      point = ground arith;
      lines = ground arith;
      console = ground arith;
      exit = ground arith;
    }

take_line-end :
    (l : Log)
    → l.exit ≡ true
    → l.lines ≡ []
    → (take_line l).point ≡ returned × (take_line l).console ≡ l.console
unfolding take_line
take_line-end l e n = (ground arith, ground arith)

step_roll :
    (os : Os) (now : Text) (l : Log) → l.point ≡ at_roll → writer_step os now l ≡ roll os now l
unfolding writer_step
step_roll os now l p = ap (λ q. point_step q os now l) p

step_list :
    (os : Os) (now : Text) (l : Log) → l.point ≡ at_list → writer_step os now l ≡ take_line l
unfolding writer_step
step_list os now l p = ap (λ q. point_step q os now l) p

drain_end :
    (os : Os) (now now' : Text) (l : Log)
    → Works os
    → l.exit ≡ true
    → l.point ≡ at_roll
    → l.lines ≡ []
    → let m = writer_step os now' (writer_step os now l) in
      (m.point ≡ returned) × (m.console ≡ l.console)
drain_end os now now' l w e p n =
    let r = roll-Rolled os now l w in
    let (q, c) = take_line-end (roll os now l) (r.exit ∙ e) (r.lines ∙ n) in
    rw (step_roll os now l p, step_list os now' (roll os now l) r.point) (q, c ∙ r.console)

-- Once `m_bExit` is set, a writer at the head of its loop prints every line of the list, none
-- of them empty, in order, and then returns, within three steps for each line and two more,
-- where fopen and fwrite succeed.
pub exit_drains :
    (os : Os) (nows : List Text) (ls : List Text) (l : Log)
    → Works os
    → FileThere l
    → NoneEmpty ls
    → l.exit ≡ true
    → l.point ≡ at_roll
    → l.lines ≡ ls
    → length nows ≡ 3 * length ls + 2
    → let m = run_writer os nows l in (m.point ≡ returned) × (m.console ≡ l.console ++ ls)
unfolding run_writer
exit_drains os [] ls l w f ne e p n h = absurd (omega arith)
exit_drains os (a ∷ []) ls l w f ne e p n h = absurd (omega arith)
exit_drains os (a ∷ b ∷ []) [] l w f ne e p n h =
    let (r, c) = drain_end os a b l w e p n in (r, rw (c, append-nil l.console) refl)
exit_drains os (a ∷ b ∷ c ∷ nows) [] l w f ne e p n h = absurd (omega arith)
exit_drains os (a ∷ b ∷ []) (line ∷ ls) l w f ne e p n h = absurd (omega arith)
exit_drains os (a ∷ b ∷ c ∷ nows) (line ∷ ls) l w f (pos, ne) e p n h =
    let kept = after_line-Kept a line ls l in
    let (r, out) =
      exit_drains os nows ls (after_line a line ls l) w (after_line-FileThere a line ls l f) ne
        (kept.exit ∙ e) kept.point kept.lines (omega arith) in
    rw (run_writer, cycle_logs_line os a b c line ls l w f pos p n)
      (r, out ∙ (rw (kept.console) (append_assoc l.console (line ∷ []) ls)))
