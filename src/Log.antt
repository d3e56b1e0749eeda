-- ===== src/Log.antt =====
-- MemDetector/Log.h: the lines of the log, on the standard error and in a file. A mutex is held for
-- the whole of a call, so a call is one step on the state. `std::ofstream` is an interface, and the
-- time of a call and the decimal digits of a line number are arguments.
pub mod Appends
mod Tests
use sallocator.Base.{ℕ, Bool, true, false, Option, none, some, List, [], ◌∷◌, ◌++◌, concat, Bytes}

-- `other` is a value that no enumerator has.
pub data LogLevel : Type 0 where
  debug : LogLevel
  info : LogLevel
  warning : LogLevel
  error : LogLevel
  critical : LogLevel
  other : ℕ → LogLevel

unfoldable pub log_level_to_string : LogLevel → Bytes
log_level_to_string debug = b'D' ∷ b'E' ∷ b'B' ∷ b'U' ∷ b'G' ∷ []
log_level_to_string info = b'I' ∷ b'N' ∷ b'F' ∷ b'O' ∷ []
log_level_to_string warning = b'W' ∷ b'A' ∷ b'R' ∷ b'N' ∷ []
log_level_to_string error = b'E' ∷ b'R' ∷ b'R' ∷ b'O' ∷ b'R' ∷ []
log_level_to_string critical = b'C' ∷ b'R' ∷ b'I' ∷ b'T' ∷ b'I' ∷ b'C' ∷ b'A' ∷ b'L' ∷ []
log_level_to_string (other n) = b'U' ∷ b'N' ∷ b'K' ∷ b'N' ∷ b'O' ∷ b'W' ∷ b'N' ∷ []

-- `std::source_location`, with the digits of its line.
pub record SourceLocation : Type 0 where
  pub file_name : Bytes
  pub line : Bytes

-- What a line is made of: `now` is what `current_timestamp` returns, and `parts` are the arguments
-- of `Print`, or the one message of `Write`.
pub record Message : Type 0 where
  pub now : Bytes
  pub level : LogLevel
  pub loc : SourceLocation
  pub parts : List Bytes

-- "[now] LEVEL file:line: parts", and a line feed.
unfoldable pub line_of : Message → Bytes
unfolding log_level_to_string
line_of m =
    b'['
    ∷ (m.now
        ++ (b']'
            ∷ b' '
            ∷ (log_level_to_string m.level
                ++ (b' '
                    ∷ (m.loc.file_name
                        ++ (b':'
                            ∷ (m.loc.line ++ (b':' ∷ b' ' ∷ (concat m.parts ++ b'\n' ∷ [])))))))))

-- "Failed to open log file: path", and a line feed.
unfoldable pub open_failed : Bytes → Bytes
open_failed path =
    (b'F' ∷ b'a' ∷ b'i' ∷ b'l' ∷ b'e' ∷ b'd' ∷ b' ' ∷ b't' ∷ b'o' ∷ b' ' ∷ b'o' ∷ b'p' ∷ b'e' ∷ b'n'
      ∷ b' ' ∷ b'l' ∷ b'o' ∷ b'g' ∷ b' ' ∷ b'f' ∷ b'i' ∷ b'l' ∷ b'e' ∷ b':' ∷ b' ' ∷ [])
    ++ (path ++ b'\n' ∷ [])

-- `std::ofstream` over a file system: `open_app` is `open(path, std::ios::app)`, and `append` a write
-- to the open file with `flush`.
pub record Files : Type 1 where
  pub State : Type 0
  pub content : State → (path : Bytes) → Bytes
  pub open_app : (path : Bytes) → State → Bool × State
  pub append : (path line : Bytes) → State → State
  pub close : (path : Bytes) → State → State

-- The instance of `Log` and the standard error. `file` is the path of the open file.
pub record Log (f : Files) : Type 0 where
  pub files : f.State
  pub file : Option Bytes
  pub stderr : Bytes

module _ {f : Files} where
  -- `Print`
  unfoldable pub print : Message → Log f → Log f
  unfolding line_of
  print m l = record l { stderr = l.stderr ++ line_of m }

  -- The macro `LOG` at the place `loc`, and those that give it a level.
  unfoldable pub log_at :
      LogLevel → (loc : SourceLocation) → (now : Bytes) → (args : List Bytes) → Log f → Log f
  unfolding print
  log_at level loc now args l =
      print (record { now = now; level = level; loc = loc; parts = args }) l

  abbrev pub log_debug : SourceLocation → Bytes → List Bytes → Log f → Log f
  log_debug = log_at debug

  abbrev pub log_info : SourceLocation → Bytes → List Bytes → Log f → Log f
  log_info = log_at info

  abbrev pub log_warn : SourceLocation → Bytes → List Bytes → Log f → Log f
  log_warn = log_at warning

  abbrev pub log_error : SourceLocation → Bytes → List Bytes → Log f → Log f
  log_error = log_at error

  abbrev pub log_critical : SourceLocation → Bytes → List Bytes → Log f → Log f
  log_critical = log_at critical

  -- `if (file_.is_open()) file_.close();`, which is also the destructor.
  unfoldable pub close_file : Log f → Log f
  close_file l = elim l.file [
    | none ↦ l
    | some path ↦ record l { files = f.close path l.files; file = none }
  ]

  -- What `SetLogFile` does with the result of `open`.
  unfoldable pub opened : Bytes → Log f → Bool × f.State → Log f
  unfolding open_failed
  opened path l (true, s) = record l { files = s; file = some path }
  opened path l (false, s) = record l {
    files = s;
    file = none;
    stderr = l.stderr ++ open_failed path;
  }

  unfoldable pub set_log_file : Bytes → Log f → Log f
  unfolding close_file opened
  set_log_file path l =
      let closed = close_file l in opened path closed (f.open_app path closed.files)

  unfoldable pub write : Message → Log f → Log f
  unfolding line_of
  write m l = elim l.file [
    | none ↦ l
    | some path ↦ record l { files = f.append path (line_of m) l.files }
  ]

-- A call of the log.
pub data Call : Type 0 where
  prints : Message → Call
  sets : Bytes → Call
  writes : Message → Call

module _ {f : Files} where
  unfoldable pub run : List Call → Log f → Log f
  unfolding print set_log_file write
  run [] l = l
  run (prints m ∷ calls) l = run calls (print m l)
  run (sets path ∷ calls) l = run calls (set_log_file path l)
  run (writes m ∷ calls) l = run calls (write m l)
