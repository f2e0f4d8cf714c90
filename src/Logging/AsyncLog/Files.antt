-- ===== src/Logging/AsyncLog/Files.antt =====
-- src/threading/async_log.cpp: writeToFile, and the two `output` calls, which use it for FATAL.
pub mod Loop
use playground_cpp.Common.{
  ℕ, zero, suc, Bool, true, false, Option, none, some, [], ◌∷◌, ◌++◌, take, drop, length, leb, ◌==◌,
  if◌then◌else◌, codes,
}
use playground_cpp.Logging.AsyncLog.{
  Text, Level, fatal, Log, Os, is_empty, is_dropped, make_line_prefix, finish_line, new_file_name,
  create_new_file, push_line,
}

-- The loop of writeToFile on fuel: what it returns, and the file's new contents.
unfoldable pub write_loop : ℕ → Os → (text contents : Text) → Option (Bool × Text)
write_loop zero os text contents = none
write_loop (suc fuel) os text contents =
    let ret = os.fwrite text in
    let local = if leb ret (length text) then drop ret text else text in
    let written = contents ++ take ret text in
    let rest = write_loop fuel os local written in
    if ret == 0
    then some (false, contents)
    else if is_empty local
    then some (true, written)
    else rest

-- `none` where the loop does not end, or `m_hLogFile` is null.
unfoldable pub write_to_file : Os → Text → Log → Option (Bool × Log)
unfolding write_loop
write_to_file os text l = elim l.disk [
  | [] ↦ none
  | f ∷ fs ↦ elim (write_loop (suc (length text)) os text f.contents) [
    | none ↦ none
    | some (ok, contents) ↦ some (ok, record l { disk = record f { contents = contents } ∷ fs })
  ]
]

-- How a call ends: `crashes` is `crash()`.
pub data Ended : Type 0 where
  returns : Bool → Log → Ended
  crashes : Log → Ended
  hangs : Ended

-- Past the test of `m_hLogFile`.
unfoldable pub write_and_crash : Os → Text → Log → Ended
unfolding write_to_file
write_and_crash os line l = elim (write_to_file os line l) [
  | none ↦ hangs
  | some (ok, l') ↦ crashes l'
]

-- The branch of FATAL.
unfoldable pub output_fatal : Os → (now line : Text) → Log → Ended
unfolding write_and_crash create_new_file new_file_name
output_fatal os now line l =
    let printed = record l { console = l.console ++ line ∷ [] } in
    if is_empty l.file_name
    then crashes printed
    else if l.has_file
    then write_and_crash os line printed
    else let (ok, l') = create_new_file os (new_file_name l now) printed in
      if ok then write_and_crash os line l' else returns false l'

unfoldable pub submit : Os → Level → (now line : Text) → Log → Ended
unfolding push_line output_fatal
submit os fatal now line l = output_fatal os now line l
submit os n now line l = returns true (push_line line l)

-- `output` without a place. `now` is the time of a new file's name.
unfoldable pub output : Os → Level → (time thread now message : Text) → Log → Ended
unfolding submit is_dropped make_line_prefix finish_line
output os n time thread now message l =
    if is_dropped n l
    then returns false l
    else submit os n now (make_line_prefix n time thread ++ finish_line l message) l

-- The file and the line number of a call, in the 512 bytes of szFileName.
abbrev pub place : (file line : Text) → Text
place file line = take 511 (codes "[" ++ file ++ codes ":" ++ line ++ codes "]")

-- `output` with a place.
unfoldable pub output_at : Os → Level → (time thread now file line message : Text) → Log → Ended
unfolding submit is_dropped make_line_prefix finish_line
output_at os n time thread now file line message l =
    if is_dropped n l
    then returns false l
    else submit os n now
        (make_line_prefix n time thread ++ place file line ++ finish_line l message) l
