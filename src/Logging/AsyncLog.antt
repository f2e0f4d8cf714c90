-- ===== src/Logging/AsyncLog.antt =====
-- src/threading/async_log.cpp: the static state of CAsyncLog, and the calls that change it. A text
-- is the list of its bytes; what snprintf, vsnprintf and strftime make of their arguments comes
-- as a text. `Os` is what fopen and fwrite return.
pub mod Files
pub mod Writer
pub mod Binary
pub mod Order
pub mod Cycle
pub mod Drain
mod Tests
use playground_cpp.Common.{
  ℕ, Bool, true, false, not, ◌&&◌, Option, none, some, List, [], ◌∷◌, ◌++◌, keep, take, length, ltb,
  ◌==◌, if◌then◌else◌, codes, ℕ_discrete,
}
use mathlib.Core.List.{List-discrete}
use mathlib.Core.Logic.{ite}

abbrev pub Text : Type 0
Text = List ℕ

pub data Level : Type 0 where
  trace debug info warning error syserror fatal critical : Level

unfoldable pub rank : Level → ℕ
rank trace = 0
rank debug = 1
rank info = 2
rank warning = 3
rank error = 4
rank syserror = 5
rank fatal = 6
rank critical = 7

pub record File : Type 0 where
  pub name : Text
  pub contents : Text

-- Where the writer thread stands: before its first line; at the roll test; at the test of the
-- list, with the mutex; past the test of `m_bExit`, still with the mutex; in `wait`; with a line
-- in hand; in a writeToFile that does not end; returned.
pub data Point : Type 0 where
  starting at_roll at_list falling_asleep asleep : Point
  holding : Text → Point
  hanging returned : Point

-- The open file is the first on the disk, if `has_file`.
pub record Log : Type 0 where
  pub truncate_long_log : Bool
  pub file_name : Text
  pub file_name_pid : Text
  pub level : Level
  pub roll_size : ℕ
  pub written : ℕ
  pub lines : List Text
  pub exit : Bool
  pub running : Bool
  pub has_file : Bool
  pub disk : List File
  pub console : List Text
  pub point : Point

-- `opens` says whether fopen succeeds, `fwrite` how many bytes of a text it writes.
pub record Os : Type 0 where
  pub opens : Text → Bool
  pub fwrite : Text → ℕ

abbrev pub is_empty {ℓ} : {A : Type ℓ} → List A → Bool
is_empty xs = length xs == 0

-- A static initial state, and `init` on it; `pid` is the formatted process id.
unfoldable pub init :
    (name pid : Text) (truncate_long_line : Bool) (roll_size : ℕ) (disk : List File) → Log
init name pid truncate_long_line roll_size disk = record {
  truncate_long_log = truncate_long_line;
  file_name = name;
  file_name_pid = pid;
  level = info;
  roll_size = roll_size;
  written = 0;
  lines = [];
  exit = false;
  running = false;
  has_file = false;
  disk = disk;
  console = [];
  point = starting;
}

unfoldable pub set_level : Level → Log → Log
unfolding rank
set_level n l = if ltb (rank fatal) (rank n) then l else record l { level = n }

-- The first test of `output`.
unfoldable pub is_dropped : Level → Log → Bool
unfolding rank
is_dropped critical l = false
is_dropped n l = ltb (rank n) (rank l.level)

unfoldable pub tag : Level → Text
tag trace = codes "[TRACE]"
tag debug = codes "[DEBUG]"
tag info = codes "[INFO]"
tag warning = codes "[WARN]"
tag error = codes "[ERROR]"
tag syserror = codes "[SYSE]"
tag fatal = codes "[FATAL]"
tag critical = codes "[CRITICAL]"

-- `time` is what getTime writes, `thread` the text of the thread's id; szThreadID has 32 bytes.
unfoldable pub make_line_prefix : Level → (time thread : Text) → Text
unfolding tag
make_line_prefix n time thread =
    tag n ++ codes "[" ++ time ++ codes "]" ++ take 31 (codes "[" ++ thread ++ codes "]")

abbrev pub max_line_length : ℕ
max_line_length = 256

-- The message, cut if need be, and the end of the line.
unfoldable pub finish_line : Log → Text → Text
finish_line l message =
    (if l.truncate_long_log then take max_line_length message else message)
    ++ (if is_empty l.file_name then [] else codes "\n")

unfoldable pub new_file_name : Log → (now : Text) → Text
new_file_name l now =
    l.file_name ++ codes "." ++ now ++ codes "." ++ l.file_name_pid ++ codes ".log"

-- `createNewFile`; "w+" empties a file of that name.
unfoldable pub create_new_file : Os → Text → Log → Bool × Log
create_new_file os name l =
    if os.opens name
    then (
      true,
      record l {
        has_file = true;
        disk =
            record { name = name; contents = [] }
            ∷ keep (λ f. ite (List-discrete ℕ_discrete f.name name) false true) l.disk;
      },
    )
    else (false, record l { has_file = false })

-- `notify_one` on `m_cvWrite`, where only the writer waits.
unfoldable pub notify_one : Log → Log
notify_one l = record l { point = elim l.point [ asleep ↦ at_list | p ↦ p ] }

-- The block under `m_mutexWrite`.
unfoldable pub push_line : Text → Log → Log
unfolding notify_one
push_line line l = notify_one (record l { lines = l.lines ++ line ∷ [] })

-- What `uninit` does before it joins the writer.
unfoldable pub uninit : Log → Log
unfolding notify_one
uninit l = notify_one (record l { exit = true })
