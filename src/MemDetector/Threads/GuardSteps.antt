-- ===== src/MemDetector/Threads/GuardSteps.antt =====
-- The steps of the guards of MemDetector/include/MemDetector.hpp beside the lock of the export thread.
use mathlib.Core.Option.{some-injective}
use sallocator.Base.{ℕ, ◌≡◌, ◌≢◌, Option, none, sym, ap, ◌∙◌, false, some, List, ◌∷◌, ◌==◌, arith}
use sallocator.MemDetector.{
  GlobalData, EnableGuard, Site, set_per_thread, get_per_thread, enter, leave,
}
use sallocator.MemDetector.Operators.{record_if}
use sallocator.MemDetector.Threads.{constructed, recorded, Frame, System, update, busy}
use sallocator.MemDetector.Threads.Locks.{entry_of, own, enter_inv, record_if-Takes, leave_inv}
use sallocator.AllocAction.{AllocAction}
use sallocator.MemDetector.Spec.{Description}
use sallocator.MemDetector.Threads.Busy.{
  shown, IsBusy, Inv, enter-shown, leave-shown, holder-ne, locker-ne,
}
use sallocator.MemDetector.Threads.Held.{is_outer, IsStack, IsLocked}
use sallocator.MemDetector.Threads.Guards.{enters-IsLocked, leaves-IsLocked, records-IsLocked}
use sallocator.MemDetector.Threads.ExportLock.{nil_not_cons}

-- The steps of the operators keep the locks, whichever entry the export thread has.
pub enters-Inv :
    (exporting tid : ℕ) (ena : EnableGuard) (g' : GlobalData) (s : System)
    → (tid ≡ exporting → busy s.exporter.place ≡ none)
    → enter tid (some s.global) ≡ some (ena, some g')
    → (b : Option ℕ) → busy s.exporter.place ≡ b
    → Inv exporting s
    → Inv exporting (record s {
      global = g';
      frames = update tid (record { ena = ena; stage = constructed } ∷ s.frames tid) s.frames;
    })
enters-Inv exporting tid ena g' s may e none at v =
    let l : IsLocked s.global s.frames = rw at at v.operators in
    record {
      operators = rw at (enters-IsLocked tid ena s.global g' s.frames e l);
      export = λ j is. cc (at, is);
    }
enters-Inv exporting tid ena g' s may e (some i) at v =
    let l : IsLocked (shown (some i) s.global) s.frames = rw at at v.operators in
    let b : IsBusy exporting s.global s.frames i = v.export i at in
    let other : tid ≢ exporting = λ q. cc (may q, at) in
    let (m, taken, guard, after) = enter_inv tid s.global ena (some g') e in
    let ne : get_per_thread tid ≢ i = locker-ne s.global s.frames exporting i tid m b other taken in
    let off : (i == get_per_thread tid) ≡ false = ground (arith, ne) in
    let away : (exporting == tid) ≡ false = ground (arith, other) in
    let state : g'
        ≡ set_per_thread (get_per_thread tid)
            (record (entry_of tid s.global) { mutex = m; enable = false }) s.global =
      some-injective _ _ after in
    record {
      operators = rw at (
          enters-IsLocked tid ena (shown (some i) s.global) (shown (some i) g') s.frames
            (enter-shown i tid ena s.global g' ne e) l);
      export = λ j is.
          let same : i ≡ j = some-injective _ _ (sym at ∙ is) in
          rw (← same) (record {
            index_lt = b.index_lt;
            owner = rw (state, off) b.owner;
            depth = rw (state, off) b.depth;
            idle = rw away b.idle;
          });
    }

pub leaves-Inv :
    (exporting tid : ℕ) (ena : EnableGuard) (rest : List Frame) (g' : GlobalData) (s : System)
    → s.frames tid ≡ record { ena = ena; stage = recorded } ∷ rest
    → leave ena (some s.global) ≡ some g'
    → (b : Option ℕ) → busy s.exporter.place ≡ b
    → Inv exporting s
    → Inv exporting (record s { global = g'; frames = update tid rest s.frames })
leaves-Inv exporting tid ena rest g' s opened e none at v =
    let l : IsLocked s.global s.frames = rw at at v.operators in
    record {
      operators = rw at (leaves-IsLocked tid ena rest s.global g' s.frames opened e l);
      export = λ j is. cc (at, is);
    }
leaves-Inv exporting tid ena rest g' s opened e (some i) at v =
    let l : IsLocked (shown (some i) s.global) s.frames = rw at at v.operators in
    let b : IsBusy exporting s.global s.frames i = v.export i at in
    let stack : IsStack tid (record { ena = ena; stage = recorded } ∷ rest) =
      rw opened at (l.stacks tid) in
    let ne : get_per_thread tid ≢ i =
      holder-ne s.global s.frames i tid l (rw opened (omega arith)) in
    let off : (i == get_per_thread tid) ≡ false = ground (arith, ne) in
    let other : exporting ≢ tid = λ q. nil_not_cons (sym b.idle ∙ ap s.frames q ∙ opened) in
    let away : (exporting == tid) ≡ false = ground (arith, other) in
    let e' : leave (own tid (is_outer rest)) (some s.global) ≡ some g' = rw stack.0 at e in
    let state = leave_inv tid (is_outer rest) s.global g' e' in
    record {
      operators = rw at (
          leaves-IsLocked tid ena rest (shown (some i) s.global) (shown (some i) g') s.frames opened
            (rw stack.0 (leave-shown i tid (is_outer rest) s.global g' ne e')) l);
      export = λ j is.
          let same : i ≡ j = some-injective _ _ (sym at ∙ is) in
          rw (← same) (record {
            index_lt = b.index_lt;
            owner = rw (state, off) b.owner;
            depth = rw (state, off) b.depth;
            idle = rw away b.idle;
          });
    }

pub records-Inv :
    (exporting : ℕ) (d : Description) (site : Site) (ptr : ℕ) (ena : EnableGuard)
    (rest : List Frame) (g' : GlobalData) (s : System) (log : List AllocAction)
    → s.frames site.tid ≡ record { ena = ena; stage = constructed } ∷ rest
    → record_if ena d.op ptr d.size d.align site (some s.global) ≡ some g'
    → Inv exporting s
    → Inv exporting (record s {
      global = g';
      frames = update site.tid (record { ena = ena; stage = recorded } ∷ rest) s.frames;
      log = log;
    })
records-Inv exporting d site ptr ena rest g' s log opened e v =
    let stack : IsStack site.tid (record { ena = ena; stage = constructed } ∷ rest) =
      rw opened at (v.operators.stacks site.tid) in
    let takes = record_if-Takes (is_outer rest) d ptr site s.global g' (rw stack.0 at e) in
    record {
      operators =
          records-IsLocked d site ptr ena rest s.global g' s.frames (busy s.exporter.place) opened e
            v.operators;
      export = λ j is.
          let b = v.export j is in
          let other : exporting ≢ site.tid =
            λ q. nil_not_cons (sym b.idle ∙ ap s.frames q ∙ opened) in
          let away : (exporting == site.tid) ≡ false = ground (arith, other) in
          record {
            index_lt = b.index_lt;
            owner = ap (λ m. m.owner) (takes j).0 ∙ b.owner;
            depth = ap (λ m. m.depth) (takes j).0 ∙ b.depth;
            idle = rw away b.idle;
          };
    }
