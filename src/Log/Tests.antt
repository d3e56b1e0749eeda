-- ===== src/Log/Tests.antt =====
-- Calls of MemDetector/Log.h on files in memory.
use sallocator.Base.{
  ◌≡◌, refl, none, List, [], ◌∷◌, ◌++◌, Bytes, same_text, if◌then◌else◌, not, length, concat, ◌+◌,
}
use sallocator.Log.{
  Message, LogLevel, Files, Log, line_of, Call, prints, sets, writes, run, print, write,
  set_log_file, opened, close_file, log_level_to_string, log_at, log_debug, log_info, log_warn,
  log_error, log_critical,
}
use sallocator.Log.Appends.{IsAppending, outcomes, appended, reported, run-appended}

abbrev missing : Bytes
missing = b'x' ∷ []

abbrev name : Bytes
name = b'f' ∷ []

-- A file is its content, and only "x" cannot be opened.
abbrev memory : Files
memory = record {
  State = Bytes → Bytes;
  content = λ s p. s p;
  open_app = λ path s. (not (same_text missing path), s);
  append = λ path line s p. s p ++ (if same_text path p then line else []);
  close = λ path s. s;
}

memory-IsAppending : IsAppending memory
memory-IsAppending = record {
  open_app = λ path p s. refl;
  close = λ path p s. refl;
  append = λ path line p s. refl;
}

abbrev message : Message
message = record {
  now = b'0' ∷ [];
  level = LogLevel.info;
  loc = record { file_name = b'c' ∷ []; line = b'7' ∷ [] };
  parts = (b'h' ∷ b'i' ∷ []) ∷ [];
}

abbrev calls : List Call
calls =
    writes message
    ∷ sets name
    ∷ writes message
    ∷ prints message
    ∷ sets missing
    ∷ writes message
    ∷ []

abbrev log : Log memory
log = record { files = λ p. []; file = none; stderr = [] }

run-appended_example :
    ((run calls log).files name ≡ [] ++ appended name none calls (outcomes calls log))
    × ((run calls log).stderr ≡ [] ++ reported calls (outcomes calls log))
run-appended_example = run-appended memory-IsAppending calls log name

-- Of the three writes the second has an open file.
one_line : (run calls log).files name ≡ line_of message
unfolding run print write set_log_file opened close_file line_of same_text
one_line = refl

-- "[0] INFO c:7: hi"
the_line :
    line_of message
    ≡ b'[' ∷ b'0' ∷ b']' ∷ b' ' ∷ b'I' ∷ b'N' ∷ b'F' ∷ b'O' ∷ b' ' ∷ b'c' ∷ b':' ∷ b'7' ∷ b':'
      ∷ b' ' ∷ b'h' ∷ b'i' ∷ b'\n' ∷ []
unfolding line_of log_level_to_string
the_line = refl

-- "[0] ERROR c:7: hi"
error_line :
    (log_error message.loc message.now message.parts log).stderr
    ≡ line_of (record message { level = LogLevel.error })
unfolding log_at print
error_line = refl

abbrev by_level : List Bytes
by_level =
    (log_debug message.loc [] [] log).stderr
    ∷ (log_info message.loc [] [] log).stderr
    ∷ (log_warn message.loc [] [] log).stderr
    ∷ (log_critical message.loc [] [] log).stderr
    ∷ []

four_lines : length (concat by_level) ≡ 15 + 14 + 14 + 18
unfolding log_at print line_of log_level_to_string
four_lines = refl
