-- ===== src/Log/Appends.antt =====
-- What the calls of MemDetector/Log.h leave in the files and on the standard error.
use mathlib.Core.List.{append_assoc, append-nil}
use sallocator.Base.{
  ◌≡◌, refl, sym, ap, ◌∙◌, Bool, true, false, Option, none, some, List, [], ◌∷◌, ◌++◌, Bytes,
  same_text, if◌then◌else◌,
}
use sallocator.Log.{
  Message, line_of, open_failed, Files, Log, print, close_file, opened, set_log_file, write, Call,
  prints, sets, writes, run,
}

-- An append to a path adds to that file, and all else leaves the files as they are.
pub record IsAppending (f : Files) : Type 0 where
  pub open_app : (path p : Bytes) (s : f.State) → f.content (f.open_app path s).1 p ≡ f.content s p
  pub close : (path p : Bytes) (s : f.State) → f.content (f.close path s) p ≡ f.content s p
  pub append :
      (path line p : Bytes) (s : f.State)
      → f.content (f.append path line s) p
        ≡ f.content s p ++ (if same_text path p then line else [])

-- A line written to the open file, as far as it goes to the file `p`.
abbrev to_file : Option Bytes → (p line : Bytes) → Bytes
to_file none p line = []
to_file (some path) p line = if same_text path p then line else []

abbrev after_open : Bytes → Bool → Option Bytes
after_open path true = some path
after_open path false = none

abbrev open_error : Bytes → Bool → Bytes
open_error path true = []
open_error path false = open_failed path

module _ {f : Files} where
  -- Which of the calls of `SetLogFile` open their file.
  unfoldable pub outcomes : List Call → Log f → List Bool
  outcomes [] l = []
  outcomes (prints m ∷ calls) l = outcomes calls (print m l)
  outcomes (sets path ∷ calls) l =
      (f.open_app path (close_file l).files).0 ∷ outcomes calls (set_log_file path l)
  outcomes (writes m ∷ calls) l = outcomes calls (write m l)

-- The lines that the calls add to the file `p`, for the file open before and those outcomes.
unfoldable pub appended : (p : Bytes) → Option Bytes → List Call → List Bool → Bytes
appended p file [] bs = []
appended p file (prints m ∷ calls) bs = appended p file calls bs
appended p file (sets path ∷ calls) [] = []
appended p file (sets path ∷ calls) (b ∷ bs) = appended p (after_open path b) calls bs
appended p file (writes m ∷ calls) bs = to_file file p (line_of m) ++ appended p file calls bs

-- What they add to the standard error.
unfoldable pub reported : List Call → List Bool → Bytes
reported [] bs = []
reported (prints m ∷ calls) bs = line_of m ++ reported calls bs
reported (sets path ∷ calls) [] = []
reported (sets path ∷ calls) (b ∷ bs) = open_error path b ++ reported calls bs
reported (writes m ∷ calls) bs = reported calls bs

module _ {f : Files} (law : IsAppending f) where
  abbrev log : f.State → Option Bytes → Bytes → Log f
  log s file err = record { files = s; file = file; stderr = err }

  write-content :
      (m : Message) (s : f.State) (file : Option Bytes) (err p : Bytes)
      → f.content (write m (log s file err)).files p ≡ f.content s p ++ to_file file p (line_of m)
  unfolding write
  write-content m s none err p = sym (append-nil _)
  write-content m s (some path) err p = law.append path (line_of m) p s

  write-file :
      (m : Message) (s : f.State) (file : Option Bytes) (err : Bytes)
      → ((write m (log s file err)).file ≡ file) × ((write m (log s file err)).stderr ≡ err)
  unfolding write
  write-file m s none err = (refl, refl)
  write-file m s (some path) err = (refl, refl)

  close_file-content :
      (s : f.State) (file : Option Bytes) (err p : Bytes)
      → (f.content (close_file (log s file err)).files p ≡ f.content s p)
        × ((close_file (log s file err)).stderr ≡ err)
  unfolding close_file
  close_file-content s none err p = (refl, refl)
  close_file-content s (some path) err p = (law.close path p s, refl)

  -- What `opened` changes: the open file and the standard error.
  opened-Opens :
      (path : Bytes) (l : Log f) (r : Bool × f.State)
      → ((opened path l r).files ≡ r.1)
        × ((opened path l r).file ≡ after_open path r.0)
        × ((opened path l r).stderr ≡ l.stderr ++ open_error path r.0)
  unfolding opened
  opened-Opens path l (true, s) = (refl, refl, sym (append-nil _))
  opened-Opens path l (false, s) = (refl, refl, refl)

  set_log_file-content :
      (path : Bytes) (l : Log f) (p : Bytes)
      → let b = (f.open_app path (close_file l).files).0 in
        (f.content (set_log_file path l).files p ≡ f.content l.files p)
        × ((set_log_file path l).file ≡ after_open path b)
        × ((set_log_file path l).stderr ≡ l.stderr ++ open_error path b)
  unfolding set_log_file
  set_log_file-content path l p =
      let closed = close_file-content l.files l.file l.stderr p in
      let step = opened-Opens path (close_file l) (f.open_app path (close_file l).files) in
      (
        ap (λ s. f.content s p) step.0 ∙ law.open_app path p (close_file l).files ∙ closed.0,
        step.1,
        step.2 ∙ ap (λ e. e ++ open_error path (f.open_app path (close_file l).files).0) closed.1,
      )

  -- After any sequence of calls of Print, SetLogFile and Write, each file has its old content and
  -- then, in order, the lines of the calls of Write that came while it was the open file, and the
  -- standard error has the lines of Print and the reports of the files that could not be opened.
  pub run-appended :
      (calls : List Call) (l : Log f) (p : Bytes)
      → (f.content (run calls l).files p
          ≡ f.content l.files p ++ appended p l.file calls (outcomes calls l))
        × ((run calls l).stderr ≡ l.stderr ++ reported calls (outcomes calls l))
  unfolding run appended outcomes reported
  run-appended [] l p = (sym (append-nil _), sym (append-nil _))
  run-appended (prints m ∷ calls) l p =
      let (same, err) = run-appended calls (print m l) p in
      unfold print in (same, err ∙ append_assoc l.stderr (line_of m) _)
  run-appended (sets path ∷ calls) l p =
      let (same, err) = run-appended calls (set_log_file path l) p in
      let (kept, file, error) = set_log_file-content path l p in
      (rw (kept, file) at same, rw (error) at err ∙ append_assoc l.stderr _ _)
  run-appended (writes m ∷ calls) l p =
      let (same, err) = run-appended calls (write m l) p in
      let kept = write-content m l.files l.file l.stderr p in
      let (file, error) = write-file m l.files l.file l.stderr in
      (rw (kept, file) at same ∙ append_assoc (f.content l.files p) _ _, rw error at err)
