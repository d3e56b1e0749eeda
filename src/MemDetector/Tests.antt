-- ===== src/MemDetector/Tests.antt =====
-- Runs of MemDetector/include/MemDetector.hpp on a library that hands out rising addresses, and the
-- theorems at these inputs.
use sallocator.Base.{
  ℕ, ◌+◌, ◌%◌, ◌^◌, ◌<◌, ◌≡◌, refl, some, List, [], ◌∷◌, Perm, arith, ltb, if◌then◌else◌, length,
}
use sallocator.MemDetector.{GlobalData, Site, get_per_thread, new_global, delete_global}
use sallocator.MemDetector.Operators.{Libc}
use sallocator.MemDetector.Spec.{
  Call, new, new_aligned_nothrow, delete_sized, describe, do_real, call, outcome, spec_run, run,
}
use sallocator.MemDetector.Slots.{Logs, inside}
use sallocator.MemDetector.Refines.{in_state, run-Logs}
use sallocator.MemDetector.Nested.{IsHeldBy, call_nested}
use sallocator.MemDetector.Export.{new_global-IsReady, delete_global-run}

-- A block of at most 1000 bytes at the next address, which is the state.
abbrev take : ℕ → ℕ → ℕ × ℕ
take size s = if ltb 1000 size then (0, s) else (s, s + size)

abbrev rising : Libc
rising = record {
  State = ℕ;
  malloc = take;
  memalign = λ align size s. take size s;
  free = λ ptr s. s;
}

abbrev at_thread : ℕ → Site
at_thread tid = record { tid = tid; caller = 77; time = 5 }

-- The second call finds no memory.
abbrev calls : List (Call × Site)
calls =
    (new 24, at_thread 3)
    ∷ (new 5000, at_thread 4)
    ∷ (new_aligned_nothrow 10 64, at_thread 11)
    ∷ (delete_sized 100 24, at_thread 3)
    ∷ []

recorded : length (spec_run rising calls 100).0 ≡ 3
unfolding describe
recorded = refl

run-Logs_example :
    (g : GlobalData) × (run rising calls (in_state rising 100 new_global)
      ≡ some (in_state rising (spec_run rising calls 100).1 g))
    × Logs new_global g (spec_run rising calls 100).0
run-Logs_example = run-Logs rising calls 100 new_global new_global-IsReady

delete_global-run_example :
    (g : GlobalData) × (run rising calls (in_state rising 100 new_global)
      ≡ some (in_state rising (spec_run rising calls 100).1 g))
    × Perm (delete_global g).0 (spec_run rising calls 100).0
delete_global-run_example = delete_global-run rising calls 100

held : IsHeldBy 3 (inside 3 new_global)
unfolding get_per_thread
held = (refl, omega arith, refl)

call_nested_example :
    (g : GlobalData) × (call rising
        (new 24)
        (at_thread 3)
        (in_state rising 100 (inside 3 new_global))
      ≡ outcome rising (describe (new 24)) (do_real rising (describe (new 24)).real 100) (some g))
    × Logs (inside 3 new_global) g []
call_nested_example = call_nested rising (new 24) (at_thread 3) 100 (inside 3 new_global) held

-- The factor 17 is of no effect, since it is 1 modulo 8.
get_per_thread_lem : (tid : ℕ) → tid < 2 ^ 32 → get_per_thread tid ≡ tid % 8
unfolding get_per_thread
get_per_thread_lem tid lt = omega (arith, lt)

same_entry : get_per_thread 3 ≡ get_per_thread 11
unfolding get_per_thread
same_entry = refl
