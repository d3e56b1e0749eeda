-- ===== src/Stellatus/HistoryTests.antt =====
-- Histories of include/SAllocator.hpp with two threads, and the theorems on them.
use mathlib.Core.List.{mem-cons_self}
use sallocator.Base.{◌+◌, ◌≡◌, refl, [], ◌∷◌, Mem, All, arith, get_elem?, some}
use sallocator.Bits.{round_up}
use sallocator.Os.{Kind, region, posix}
use sallocator.Os.Bump.{bump, bump-IsLawful, grant}
use sallocator.Stellatus.{
  World, returns, bad_alloc, fault, num_fast_bins, align_up, size_to_index, write_chunk, set_arena,
  set_bin, allocate_new, allocate, deallocate, end_thread,
}
use sallocator.Stellatus.Chains.{Chain}
use sallocator.Stellatus.Invariant.{block}
use sallocator.Stellatus.History.{Reach, here, next, allocated, deallocated}
use sallocator.Stellatus.Leak.{IsClearOf, end_thread-Leaks}
use sallocator.Stellatus.Footprint.{class_bytes, large_bytes, total, peak}
use sallocator.Stellatus.Footprint.Peak.{Reach-total}
use sallocator.Stellatus.Footprint.Handover.{made, Reach-grows}
use sallocator.Stellatus.Tests.{world, state, held_world, held, history, no_regions}

-- One block of class 6, of 128 bytes with its header.
Reach-total_example :
    total (bump.live held_world.os)
    ≡ class_bytes num_fast_bins (λ i. peak i history) + large_bytes held + total []
Reach-total_example = Reach-total posix bump-IsLawful 0 no_regions history (tt, refl)

one_chunk : class_bytes num_fast_bins (λ i. peak i history) ≡ 128
unfolding size_to_index align_up
one_chunk = refl

-- Thread 1 gives the block back and ends, and a new thread 1 asks for such a block again.
abbrev freed_world : World bump
freed_world = elim (deallocate bump posix 1 32 100 held_world) [
  | returns u w ↦ w
  | bad_alloc w ↦ w
  | fault ↦ world
]

freed_run : deallocate bump posix 1 32 100 held_world ≡ returns tt freed_world
unfolding deallocate size_to_index set_bin write_chunk allocate allocate_new grant round_up
freed_run = refl

abbrev freed_history : Reach bump posix world [] freed_world []
freed_history = next history (deallocated 1 [] [] (block 32 100) refl freed_run)

abbrev later_world : World bump
later_world = state (allocate bump posix 1 100 (end_thread 1 freed_world))

later_run : allocate bump posix 1 100 (end_thread 1 freed_world) ≡ returns 176 later_world
unfolding deallocate size_to_index set_bin write_chunk allocate allocate_new grant round_up
    end_thread set_arena
later_run = refl

freed_bin : get_elem? (freed_world.arenas 1).fastbins 6 ≡ some 16
unfolding deallocate size_to_index set_bin set_arena write_chunk allocate allocate_new grant
    round_up
freed_bin = refl

freed-Chain : Chain freed_world.cells 16 (16 ∷ [])
unfolding deallocate size_to_index set_bin write_chunk allocate allocate_new grant round_up
freed-Chain = (refl, omega arith, refl)

end_thread-Leaks_example :
    Mem (region Kind.heap 16 128) (bump.live later_world.os)
    × All (IsClearOf (region Kind.heap 16 128)) (block 176 100 ∷ [])
end_thread-Leaks_example =
    end_thread-Leaks posix bump-IsLawful no_regions freed_history 1 6 16 16 (16 ∷ []) freed_bin
      freed-Chain mem-cons_self (next here (allocated 1 100 176 (omega arith) later_run))

-- Thread 0 allocated the block that thread 1 gave back: the arena holds 128 bytes, with no block in
-- use.
Reach-grows_example :
    total (bump.live freed_world.os)
    ≡ class_bytes num_fast_bins (λ i. made i freed_history) + large_bytes [] + total []
Reach-grows_example =
    Reach-grows posix bump-IsLawful 0 1 (λ e. absurd (omega (arith, e))) no_regions freed_history
      ((tt, refl), refl)
