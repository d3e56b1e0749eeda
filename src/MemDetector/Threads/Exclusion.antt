-- ===== src/MemDetector/Threads/Exclusion.antt =====
-- The threads exclude each other in MemDetector/include/MemDetector.hpp: each step keeps the locks in
-- order.
use sallocator.Base.{ℕ, ◌<◌, ◌≡◌, ◌≢◌, refl, sym, ap, ◌∙◌, some, ◌%◌, arith, length}
use sallocator.MemDetector.{get_per_thread}
use sallocator.MemDetector.Export.{new_global-IsReady}
use sallocator.MemDetector.Slots.{get_per_thread_mod}
use sallocator.MemDetector.Threads.{
  System, Step, enters, records, leaves, stops, tests, locks, moves, drains, writes, busy, Reach,
  here, next,
}
use sallocator.MemDetector.Threads.Locks.{entry_of}
use sallocator.MemDetector.Threads.Busy.{shown, Inv, holder-ne, held_real}
use sallocator.MemDetector.Threads.Held.{IsLocked}
use sallocator.MemDetector.Threads.ExportLock.{
  place-Inv, stopped-Inv, writes-Inv, locks-Inv, drains-Inv,
}
use sallocator.MemDetector.Threads.GuardSteps.{enters-Inv, leaves-Inv, records-Inv}

Step-Inv :
    (exporting : ℕ) {s s' : System} → Step exporting s s' → Inv exporting s → Inv exporting s'
Step-Inv exporting {s} (enters tid ena g may outside e) v =
    enters-Inv exporting tid ena g s outside e _ refl v
Step-Inv exporting {s} (records d site ptr ena rest g at e) v =
    records-Inv exporting d site ptr ena rest g s _ at e v
Step-Inv exporting {s} (leaves tid ena rest g at e) v =
    leaves-Inv exporting tid ena rest g s at e _ refl v
Step-Inv exporting {s} stops v = stopped-Inv exporting s _ refl v
Step-Inv exporting {s} (tests at) v = place-Inv exporting s _ (ap busy at) v
Step-Inv exporting {s} (locks i last m at lt alone e) v =
    locks-Inv exporting i last m s at lt alone e v
Step-Inv exporting {s} (moves i last at) v = place-Inv exporting s _ (ap busy at) v
Step-Inv exporting {s} (drains i last xs at) v = drains-Inv exporting i last xs s at v _
Step-Inv exporting {s} (writes last at) v = writes-Inv exporting s last at v

pub Reach-Inv : {exporting : ℕ} {s : System} → Reach exporting s → Inv exporting s
Reach-Inv here = record {
  operators = record {
    held = λ t h. absurd (omega (arith, h));
    free = λ i lt e. (new_global-IsReady i lt).1;
    owned = λ i lt h. absurd (omega (arith, h, (new_global-IsReady i lt).0));
    stacks = λ t. tt;
  };
  export = λ i e. cc e;
}
Reach-Inv {exporting} (next r st) = Step-Inv exporting st (Reach-Inv r)

-- In each state that the threads reach, their steps interleaved in any order, two threads with the
-- same entry that both have a guard in force are the same thread, and while a thread has one in
-- force the export thread does not hold the lock of its entry.
pub Reach-mutual_exclusion :
    {exporting : ℕ} {s : System}
    → Reach exporting s
    → (t u : ℕ) → t % 8 ≡ u % 8
    → 0 < length (s.frames t)
    → (0 < length (s.frames u) → t ≡ u) × (busy s.exporter.place ≢ some (get_per_thread u))
Reach-mutual_exclusion {exporting} {s} r t u e ht =
    let v = Reach-Inv r in
    let same : get_per_thread t ≡ get_per_thread u =
      omega (arith, get_per_thread_mod t, get_per_thread_mod u, e) in
    let real = held_real s.global s.frames (busy s.exporter.place) in
    let owner : (entry_of u s.global).mutex.owner ≡ t =
      rw (entry_of, same) at (real t v.operators ht).0 in
    (
      λ hu. sym owner ∙ (real u v.operators hu).0,
      λ is.
          let l : IsLocked (shown (some (get_per_thread u)) s.global) s.frames =
            rw is at v.operators in
          holder-ne s.global s.frames (get_per_thread u) t l ht same,
    )
