-- ===== src/MemDetector/Threads/Order.antt =====
-- The order in which the export thread of MemDetector/include/MemDetector.hpp writes.
use sallocator.Base.{ℕ, ◌<◌, ◌≡◌, ◌++◌}
use sallocator.MemDetector.Spec.{of_entry}
use sallocator.MemDetector.Threads.{System, Reach}
use sallocator.MemDetector.Threads.Records.{gone}
use sallocator.MemDetector.Threads.Kept.{kept}

-- In each state that threads that run the operators and the thread of exprot_thead_entry reach,
-- their steps interleaved in any order, also between the lock of an entry, the two halves of the
-- move of its records and the end of the lock, the records of an entry that are written, then
-- those that are collected and those that are still in the entry, are the records of that entry in
-- the order of the calls of on: no record that comes in between is lost or there twice, and the
-- file has the records of each entry in this order.
pub Reach-in_order :
    {exporting : ℕ} {s : System}
    → Reach exporting s
    → (i : ℕ) → i < 8
    → of_entry i (s.exporter.out ++ s.exporter.actions) ++ (s.global.per_threads i).actions
      ≡ of_entry i s.log
unfolding gone
Reach-in_order r = (kept r).1.total
