-- ===== src/Logging/AsyncLog/Cycle.antt =====
-- What the loop of writeThreadProc in src/threading/async_log.cpp does with one line, where
-- fopen and fwrite succeed.
use playground_cpp.Common.{
  inl, inr, ℕ, suc, ◌+◌, ◌<◌, ◌≡◌, ◌≢◌, refl, Bool, true, false, not, ◌||◌, ◌&&◌, some, List, [],
  ◌∷◌, ◌++◌, arith, length, leb, keep, if◌then◌else◌, Bool-cases, ℕ_discrete,
}
use mathlib.Core.List.{List-discrete}
use mathlib.Core.Logic.{ite}
use playground_cpp.Logging.AsyncLog.{
  Text, at_roll, at_list, holding, File, Log, Os, is_empty, new_file_name, create_new_file,
}
use playground_cpp.Logging.AsyncLog.Files.{write_to_file}
use playground_cpp.Logging.AsyncLog.Files.Loop.{Sound, Progress, write_loop_complete}
use playground_cpp.Logging.AsyncLog.Writer.{writer_step, roll, take_line, print_line}

pub record Works (os : Os) : Type 0 where
  pub opens : (name : Text) → os.opens name ≡ true
  pub sound : Sound os
  pub progress : Progress os

-- An open file is on the disk.
abbrev pub FileThere : Log → Type 0
FileThere l = l.has_file ≡ true → l.disk ≢ []

unfoldable pub add_to_first : Text → List File → List File
add_to_first line [] = []
add_to_first line (f ∷ fs) = record f { contents = f.contents ++ line } ∷ fs

-- The line is logged: to a new file if there is none or it is full.
unfoldable pub after_line : (now line : Text) (rest : List Text) → Log → Log
unfolding add_to_first new_file_name
after_line now line rest l =
    let printed = record l { lines = rest; console = l.console ++ line ∷ []; point = at_roll } in
    let name = new_file_name l now in
    if is_empty l.file_name
    then printed
    else if not l.has_file || leb l.roll_size l.written
    then record printed {
      has_file = true;
      written = length line;
      disk =
          record { name = name; contents = line }
          ∷ keep (λ f. ite (List-discrete ℕ_discrete f.name name) false true) l.disk;
    }
    else record printed { written = l.written + length line; disk = add_to_first line l.disk }

write_to_file_succeeds :
    (os : Os) (line : Text) (ds : List File) (l : Log)
    → Works os
    → 0 < length line
    → l.disk ≡ ds
    → ds ≢ []
    → write_to_file os line l ≡ some (true, record l { disk = add_to_first line ds })
unfolding write_to_file add_to_first
write_to_file_succeeds os line [] l w pos e ne = absurd (ne refl)
write_to_file_succeeds os line (f ∷ fs) l w pos e ne =
    let wrote =
      write_loop_complete os (suc (length line)) line f.contents w.sound w.progress pos
        (omega arith) in
    rw (e, write_to_file, wrote)

take_line-cons :
    (line : Text) (rest : List Text) (l : Log)
    → l.lines ≡ line ∷ rest
    → take_line l ≡ record l { lines = rest; point = holding line }
unfolding take_line
take_line-cons line rest l e = rw (e)

print_line_succeeds :
    (os : Os) (line : Text) (l : Log)
    → Works os
    → 0 < length line
    → is_empty l.file_name ≡ false
    → l.disk ≢ []
    → print_line os line l ≡ record l {
      console = l.console ++ line ∷ [];
      disk = add_to_first line l.disk;
      written = l.written + length line;
      point = at_roll;
    }
unfolding print_line
print_line_succeeds os line l w pos named ne =
    let printed = record l { console = l.console ++ line ∷ [] } in
    rw (named, write_to_file_succeeds os line l.disk printed w pos refl ne)

roll-old :
    (os : Os) (now : Text) (l : Log)
    → not (is_empty l.file_name) && (not l.has_file || leb l.roll_size l.written) ≡ false
    → roll os now l ≡ record l { point = at_list }
unfolding roll
roll-old os now l old = rw (old)

roll-new :
    (os : Os) (now : Text) (l : Log)
    → Works os
    → not (is_empty l.file_name) && (not l.has_file || leb l.roll_size l.written) ≡ true
    → roll os now l ≡ record l {
      written = 0;
      has_file = true;
      disk =
          record { name = new_file_name l now; contents = [] }
          ∷ keep
              (λ f. ite (List-discrete ℕ_discrete f.name (new_file_name l now)) false true)
              l.disk;
      point = at_list;
    }
unfolding roll create_new_file
roll-new os now l w new = rw (new, w.opens (new_file_name l now))

print_line-unnamed :
    (os : Os) (line : Text) (l : Log)
    → is_empty l.file_name ≡ true
    → print_line os line l ≡ record l { console = l.console ++ line ∷ []; point = at_roll }
unfolding print_line
print_line-unnamed os line l e = rw (e)

pub old-has_file : (b c : Bool) → not b || c ≡ false → b ≡ true
old-has_file b c h = ground arith

zero_add : (n : ℕ) → 0 + n ≡ n
zero_add n = omega arith

at_record :
    (l : Log) (line : Text) (rest : List Text)
    → l.point ≡ at_roll
    → l.lines ≡ line ∷ rest
    → l ≡ record l { point = at_roll; lines = line ∷ rest }
at_record l line rest e n = rw⁻¹ (e, n)

cycle_from :
    (os : Os) (now now' now'' line : Text) (rest : List Text) (l : Log)
    → Works os
    → FileThere l
    → 0 < length line
    → writer_step os now'' (
        writer_step os now'
          (writer_step os now (record l { point = at_roll; lines = line ∷ rest })))
      ≡ after_line now line rest l
unfolding writer_step after_line
cycle_from os now now' now'' line rest l w there pos =
    let l0 = record l { point = at_roll; lines = line ∷ rest } in
    let held = record l { point = holding line; lines = rest } in
    elim (Bool-cases (is_empty l.file_name)) [
      | inl unnamed ↦ rw (
        roll-old os now l0 (rw (unnamed) refl),
        print_line-unnamed os line held unnamed,
        after_line,
        unnamed,
      )
      | inr named ↦ elim (Bool-cases (not l.has_file || leb l.roll_size l.written)) [
        | inl new ↦ rw (roll-new os now l0 w (rw (named) new)) (
            rw (
              print_line_succeeds os line
                  (record held {
                    written = 0;
                    has_file = true;
                    disk =
                        record { name = new_file_name l now; contents = [] }
                        ∷ keep
                            (λ f.
                              ite (List-discrete ℕ_discrete f.name (new_file_name l now)) false
                                true)
                            l.disk;
                  })
                  w pos named (λ c. cc),
              after_line,
              named,
              new,
              zero_add (length line),
            ))
        | inr old ↦ rw (roll-old os now l0 (rw (named) old)) (
            rw (
              print_line_succeeds os line held w pos named
                  (there (old-has_file l.has_file (leb l.roll_size l.written) old)),
              after_line,
              named,
              old,
            ))
      ]
    ]

-- Where fopen and fwrite succeed, three steps of the writer at the head of its loop take the first
-- line from the list and log it whole: to the console, and to the open file, or to a new one if
-- no file is open or the open one has reached the roll size.
pub cycle_logs_line :
    (os : Os) (now now' now'' line : Text) (rest : List Text) (l : Log)
    → Works os
    → FileThere l
    → 0 < length line
    → l.point ≡ at_roll
    → l.lines ≡ line ∷ rest
    → writer_step os now'' (writer_step os now' (writer_step os now l)) ≡ after_line now line rest l
unfolding after_line
cycle_logs_line os now now' now'' line rest l w there pos e n =
    rw (at_record l line rest e n) (cycle_from os now now' now'' line rest l w there pos)
