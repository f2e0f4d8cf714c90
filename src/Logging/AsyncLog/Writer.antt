-- ===== src/Logging/AsyncLog/Writer.antt =====
-- src/threading/async_log.cpp: writeThreadProc, one step at a time.
use playground_cpp.Common.{
  ◌+◌, true, not, ◌&&◌, ◌||◌, none, some, [], ◌∷◌, ◌++◌, length, leb, if◌then◌else◌,
}
use playground_cpp.Logging.AsyncLog.{
  Text, Point, starting, at_roll, at_list, falling_asleep, asleep, holding, hanging, returned, Log,
  Os, is_empty, new_file_name, create_new_file,
}
use playground_cpp.Logging.AsyncLog.Files.{write_to_file}

-- The first test of the loop, and the new file.
unfoldable pub roll : Os → (now : Text) → Log → Log
unfolding create_new_file new_file_name
roll os now l =
    let (ok, l') = create_new_file os (new_file_name l now) (record l { written = 0 }) in
    if not (is_empty l.file_name) && (not l.has_file || leb l.roll_size l.written)
    then record l' { point = if ok then at_list else returned }
    else record l { point = at_list }

-- The tests of the list and of `m_bExit`.
unfoldable pub take_line : Log → Log
take_line l = elim l.lines [
  | [] ↦ record l { point = if l.exit then returned else falling_asleep }
  | line ∷ rest ↦ record l { lines = rest; point = holding line }
]

-- The line goes to the console and to the file.
unfoldable pub print_line : Os → Text → Log → Log
unfolding write_to_file
print_line os line l =
    let printed = record l { console = l.console ++ line ∷ [] } in
    let to_file = elim (write_to_file os line printed) as (λ x. Log) [
      | none ↦ record printed { point = hanging }
      | some (ok, l') ↦
          if ok
          then record l' { written = l'.written + length line; point = at_roll }
          else record l' { point = returned }
    ] in
    if is_empty l.file_name then record printed { point = at_roll } else to_file

unfoldable pub point_step : Point → Os → (now : Text) → Log → Log
unfolding roll take_line print_line
point_step starting os now l = record l { running = true; point = at_roll }
point_step at_roll os now l = roll os now l
point_step at_list os now l = take_line l
point_step falling_asleep os now l = record l { point = asleep }
point_step asleep os now l = l
point_step (holding line) os now l = print_line os line l
point_step hanging os now l = l
point_step returned os now l = l

unfoldable pub writer_step : Os → (now : Text) → Log → Log
unfolding point_step
writer_step os now l = point_step l.point os now l
