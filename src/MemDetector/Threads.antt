-- ===== src/MemDetector/Threads.antt =====
-- The threads of a program under MemDetector/include/MemDetector.hpp, interleaved in any order, with
-- the export thread. A step is what happens between two places where another thread can come
-- in: the constructor of a guard, `if (ena) ena.on(...)`, the destructor, and the parts of
-- `exprot_thead_entry`, of which one entry takes three: the lock, the read of its records, and the
-- end, where they are cleared and the lock is given back. `on` makes its record in one step, under
-- the lock of the entry. A call of the library needs none of this state and stands between the
-- steps. What the deques do with the memory of the pools is left out.
pub mod Locks
pub mod Held
pub mod Busy
pub mod Guards
pub mod ExportLock
pub mod GuardSteps
pub mod Exclusion
pub mod Holders
pub mod Progress
pub mod Records
pub mod Kept
pub mod Order
mod Tests
use sallocator.Base.{
  ℕ, ◌+◌, ◌<◌, ◌≡◌, Bool, true, false, Option, none, some, List, [], ◌∷◌, ◌++◌, ◌==◌, if◌then◌else◌,
}
use sallocator.AllocAction.{AllocAction}
use sallocator.MemDetector.{
  RecursiveMutex, lock, unlock, GlobalData, EnableGuard, Site, new_global, set_per_thread, enter,
  leave,
}
use sallocator.MemDetector.Operators.{record_if}
use sallocator.MemDetector.Spec.{Description, event}

-- A guard is in force from `constructed` on, and its record is made at `recorded`.
pub data Stage : Type 0 where
  constructed recorded : Stage

-- An operator that runs.
pub record Frame : Type 0 where
  pub ena : EnableGuard
  pub stage : Stage

-- Where the export thread stands: before the test of the loop, before the entry `next` of a pass,
-- behind the lock of this entry, within the move of its records, which stand in `thread_actions` and
-- not yet cleared in the entry, or at its end. `last` tells the pass behind the loop.
pub data Place : Type 0 where
  at_test : Place
  in_pass : (next : ℕ) → (last : Bool) → Place
  locked : (next : ℕ) → (last : Bool) → Place
  moving : (next : ℕ) → (last : Bool) → (thread_actions : List AllocAction) → Place
  finished : Place

-- The entry whose lock it holds.
abbrev pub busy : Place → Option ℕ
busy at_test = none
busy (in_pass next last) = none
busy (locked next last) = some next
busy (moving next last thread_actions) = some next
busy finished = none

-- Its local variable `actions`, and what it has written to the file.
pub record Exporter : Type 0 where
  pub place : Place
  pub actions : List AllocAction
  pub out : List AllocAction

-- `frames tid` are the operators that the thread runs, the innermost first. `log` is no state of the
-- program: it lists the records in the order in which they are made.
pub record System : Type 0 where
  pub global : GlobalData
  pub frames : ℕ → List Frame
  pub exporter : Exporter
  pub log : List AllocAction

abbrev pub update : ℕ → List Frame → (ℕ → List Frame) → ℕ → List Frame
update t fs frames u = if u == t then fs else frames u

-- A thread calls an operator from outside, or from `push_back` in `on`.
abbrev pub MayCall : List Frame → Type 0
MayCall [] = Unit
MayCall (f ∷ rest) = (f.stage ≡ constructed) × (f.ena.was_enable ≡ true)

-- The record that a guard makes.
abbrev pub made : EnableGuard → Description → Site → ℕ → List AllocAction
made ena d site ptr = if ena.was_enable then event d site ptr else []

-- The end of the lines of `exprot_thead_entry` for one entry: the move clears it, and the lock is
-- given back.
abbrev pub drained : ℕ → GlobalData → GlobalData
drained i g =
    let p = g.per_threads i in
    set_per_thread i (record p { actions = []; mutex = unlock p.mutex }) g

-- The thread `exporting` runs `exprot_thead_entry`, which calls no operator while it holds a lock.
pub data Step (exporting : ℕ) (s : System) : System → Type 0 where
  enters :
      (tid : ℕ) (ena : EnableGuard) (g : GlobalData)
      → MayCall (s.frames tid)
      → (tid ≡ exporting → busy s.exporter.place ≡ none)
      → enter tid (some s.global) ≡ some (ena, some g)
      → Step exporting s (record s {
        global = g;
        frames = update tid (record { ena = ena; stage = constructed } ∷ s.frames tid) s.frames;
      })
  records :
      (d : Description) (site : Site) (ptr : ℕ) (ena : EnableGuard) (rest : List Frame)
      (g : GlobalData)
      → s.frames site.tid ≡ record { ena = ena; stage = constructed } ∷ rest
      → record_if ena d.op ptr d.size d.align site (some s.global) ≡ some g
      → Step exporting s (record s {
        global = g;
        frames = update site.tid (record { ena = ena; stage = recorded } ∷ rest) s.frames;
        log = s.log ++ made ena d site ptr;
      })
  leaves :
      (tid : ℕ) (ena : EnableGuard) (rest : List Frame) (g : GlobalData)
      → s.frames tid ≡ record { ena = ena; stage = recorded } ∷ rest
      → leave ena (some s.global) ≡ some g
      → Step exporting s (record s { global = g; frames = update tid rest s.frames })
  stops : Step exporting s (record s { global = record s.global { stopped = true } })
  tests :
      s.exporter.place ≡ at_test
      → Step exporting s
          (record s { exporter = record s.exporter { place = in_pass 0 s.global.stopped } })
  locks :
      (i : ℕ) (last : Bool) (m : RecursiveMutex)
      → s.exporter.place ≡ in_pass i last
      → i < 8
      → s.frames exporting ≡ []
      → lock exporting (s.global.per_threads i).mutex ≡ some m
      → Step exporting s (record s {
        global = set_per_thread i (record (s.global.per_threads i) { mutex = m }) s.global;
        exporter = record s.exporter { place = locked i last };
      })
  moves :
      (i : ℕ) (last : Bool)
      → s.exporter.place ≡ locked i last
      → Step exporting s (record s {
        exporter = record s.exporter { place = moving i last (s.global.per_threads i).actions };
      })
  drains :
      (i : ℕ) (last : Bool) (thread_actions : List AllocAction)
      → s.exporter.place ≡ moving i last thread_actions
      → Step exporting s (record s {
        global = drained i s.global;
        exporter = record s.exporter {
          place = in_pass (i + 1) last;
          actions = s.exporter.actions ++ thread_actions;
        };
      })
  writes :
      (last : Bool)
      → s.exporter.place ≡ in_pass 8 last
      → Step exporting s (record s {
        exporter = record {
          place = if last then finished else at_test;
          actions = [];
          out = s.exporter.out ++ s.exporter.actions;
        };
      })

-- After the constructor of `GlobalData`.
abbrev pub start : System
start = record {
  global = new_global;
  frames = λ tid. [];
  exporter = record { place = at_test; actions = []; out = [] };
  log = [];
}

pub data Reach (exporting : ℕ) : System → Type 0 where
  here : Reach exporting start
  next : {s t : System} → Reach exporting s → Step exporting s t → Reach exporting t
