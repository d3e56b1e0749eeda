-- ===== src/MemDetector/Threads/Tests.antt =====
-- A schedule of three steps on MemDetector/include/MemDetector.hpp, and the theorems at its end.
use sallocator.Base.{ℕ, ◌<◌, ◌≡◌, ◌≢◌, some, ◌⊎◌, refl, [], ◌++◌, length, arith}
use sallocator.MemDetector.{Site, new_global, on, get_per_thread}
use sallocator.MemDetector.Spec.{new, describe, of_entry}
use sallocator.MemDetector.Slots.{inside, guard_of, enter-IsReady}
use sallocator.MemDetector.Export.{new_global-IsReady}
use sallocator.MemDetector.Threads.{System, busy, enters, records, tests, Reach, here, next}
use sallocator.MemDetector.Threads.Exclusion.{Reach-mutual_exclusion}
use sallocator.MemDetector.Threads.Holders.{Runs, Waits, WaitsForExport}
use sallocator.MemDetector.Threads.Progress.{Reach-Runs}
use sallocator.MemDetector.Threads.Order.{Reach-in_order}

abbrev site : Site
site = record { tid = 3; caller = 77; time = 5 }

-- Thread 3 calls `new`, its guard records the pointer 100, and the export thread enters its loop.
abbrev Scheduled : Type 0
Scheduled = (s : System) × Reach 9 s × (length (s.frames 3) ≡ 1) × (length s.log ≡ 1)

scheduled : Scheduled
unfolding on describe
scheduled = (
  _,
  next
      (next
        (next here (
          enters 3 (guard_of 3) (inside 3 new_global) tt (λ e. refl)
            (enter-IsReady 3 new_global new_global-IsReady)))
        (records (describe (new 24)) site 100 (guard_of 3) [] _ refl refl))
      (tests refl),
  refl,
  refl,
)

Reach-mutual_exclusion_example :
    (0 < length (scheduled.0.frames 3) → ◌≡◌ {A = ℕ} 3 3)
    × (busy scheduled.0.exporter.place ≢ some (get_per_thread 3))
Reach-mutual_exclusion_example =
    Reach-mutual_exclusion scheduled.1 3 3 refl (omega (arith, scheduled.2))

Reach-Runs_example :
    Runs 9 scheduled.0 11 ⊎ (Waits 9 scheduled.0 11 ⊎ WaitsForExport 9 scheduled.0 11)
Reach-Runs_example = Reach-Runs scheduled.1 11

Reach-in_order_example :
    of_entry 3 (scheduled.0.exporter.out ++ scheduled.0.exporter.actions)
      ++ (scheduled.0.global.per_threads 3).actions
    ≡ of_entry 3 scheduled.0.log
Reach-in_order_example = Reach-in_order scheduled.1 3 (omega arith)
