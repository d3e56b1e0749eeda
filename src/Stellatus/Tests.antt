-- ===== src/Stellatus/Tests.antt =====
-- Runs of include/SAllocator.hpp on the instance `bump`, and the theorems at these inputs.
use mathlib.Core.List.{Pairwise}
use sallocator.Base.{ap, ℕ, ◌+◌, ◌*◌, ◌^◌, ◌<◌, ◌≡◌, ◌≢◌, refl, List, [], ◌∷◌, All, arith, mul64}
use sallocator.Bits.{round_up}
use sallocator.Os.{posix, win32, Apart}
use sallocator.Os.Bump.{bump, bump-IsLawful, grant}
use sallocator.Stellatus
use sallocator.Stellatus.{
  World, Cells, returns, bad_alloc, fault, alignment, num_fast_bins, max_fast_size, align_up,
  size_to_index, memset_zero, write_chunk, set_arena, set_bin, page_block, os_alloc, os_free,
  new_chunk, from_pages, from_heap, allocate_new, allocate, deallocate, allocate_n, end_thread,
}
use sallocator.Stellatus.Chains.{Free}
use sallocator.Stellatus.Invariant.{Block, block, IsBlock, Inv, Allocates, Deallocates}
use sallocator.Stellatus.Separate.{Separate}
use sallocator.Stellatus.Allocate.{allocate-Allocates, allocate_n_wraps}
use sallocator.Stellatus.Deallocate.{deallocate-Deallocates}
use sallocator.Stellatus.History.{
  start, start-Inv, Reach, here, next, allocated, Reach-Separate, Reach-allocate_defined,
  Reach-deallocate_returns,
}
use sallocator.Stellatus.RoundTrip.{allocate-deallocate, zero_size_faults}

abbrev no_cells : Cells
no_cells a = record { size = 0; next = 0 }

-- Nothing is allocated.
abbrev pub world : World bump
world = start bump [] no_cells

-- The pointer that a run returns, if it does.
abbrev pointer : Stellatus.Run (World bump) ℕ → ℕ
pointer (returns p w) = p
pointer (bad_alloc w) = 0
pointer fault = 0

first_pointer : pointer (allocate bump posix 0 100 world) ≡ 32
unfolding allocate size_to_index set_bin allocate_new grant round_up
first_pointer = refl

-- The state that a run leaves.
abbrev pub state : Stellatus.Run (World bump) ℕ → World bump
state (returns p w) = w
state (bad_alloc w) = w
state fault = world

abbrev pub held_world : World bump
held_world = state (allocate bump posix 0 100 world)

abbrev pub held : List Block
held = block 32 100 ∷ []

pub first_run : allocate bump posix 0 100 world ≡ returns 32 held_world
unfolding allocate size_to_index set_bin allocate_new grant round_up
first_run = refl

-- A freed chunk of 112 bytes serves the next request of 97 to 112 bytes, here in another thread.
reuse :
    (w : World bump)
    → deallocate bump posix 1 32 100 held_world ≡ returns tt w
    → pointer (allocate bump posix 1 97 w) ≡ 32
unfolding deallocate allocate size_to_index set_bin write_chunk allocate_new grant round_up
reuse w e = rw (← (freed_world e)) refl
  where
    after : Stellatus.Run (World bump) (Unit {0}) → World bump
    after (returns u v) = v
    after (bad_alloc v) = v
    after fault = world

    freed_world :
        deallocate bump posix 1 32 100 held_world ≡ returns tt w
        → after (deallocate bump posix 1 32 100 held_world) ≡ w
    freed_world e = ap after e

pub no_regions : Pairwise Apart []
no_regions = Pairwise.nil

world-Inv : Inv bump world [] [] []
world-Inv = start-Inv bump [] no_cells no_regions

allocate-Allocates_example : Allocates bump [] [] [] 100 (allocate bump posix 0 100 world)
allocate-Allocates_example = allocate-Allocates posix bump-IsLawful world-Inv 0 100 (omega arith)

held-Allocates : Allocates bump [] [] [] 100 (returns 32 held_world)
held-Allocates = rw first_run at allocate-Allocates_example

deallocate-Deallocates_example : Deallocates bump [] [] (deallocate bump posix 1 32 100 held_world)
deallocate-Deallocates_example =
    deallocate-Deallocates [] [] 32 100 held-Allocates.1 posix bump-IsLawful 1

abbrev pub history : Reach bump posix world [] held_world held
history = next here (allocated 0 100 32 (omega arith) first_run)

Reach-Separate_example : All IsBlock held × Separate held
Reach-Separate_example = Reach-Separate posix bump-IsLawful no_regions history

Reach-allocate_defined_example : allocate bump posix 3 5000 held_world ≢ fault
Reach-allocate_defined_example =
    Reach-allocate_defined posix bump-IsLawful no_regions history 3 5000 (omega arith)

Reach-deallocate_returns_example :
    (w : World bump) × (deallocate bump posix 2 32 100 held_world ≡ returns tt w)
Reach-deallocate_returns_example =
    Reach-deallocate_returns posix bump-IsLawful no_regions history 2 [] [] (block 32 100) refl

allocate-deallocate_example :
    (w₁ : World bump) × (w₂ : World bump) × (deallocate bump posix 0 32 100 held_world
      ≡ returns tt w₁)
    × (allocate bump posix 0 112 w₁ ≡ returns 32 w₂)
    × ((u : ℕ) → w₂.arenas u ≡ held_world.arenas u)
allocate-deallocate_example =
    allocate-deallocate posix held_world 0 32 100 112 (held-Allocates.1.bins 0) (omega arith)
      (omega arith) (omega arith) (omega arith) same_class
  where
    same_class : size_to_index 112 ≡ size_to_index 100
    same_class = unfold size_to_index in refl

zero_size_faults_example :
    (allocate bump win32 0 0 world ≡ fault)
    × ((p : ℕ) → p ≢ 0 → deallocate bump win32 0 p 0 world ≡ fault)
zero_size_faults_example = zero_size_faults win32 world 0 refl

-- 2^61 + 1 objects of 8 bytes get a block of 8 bytes.
abbrev wrapped_world : World bump
wrapped_world = state (allocate_n bump posix 8 0 (2 ^ 61 + 1) world)

wrapped_run : allocate_n bump posix 8 0 (2 ^ 61 + 1) world ≡ returns 32 wrapped_world
unfolding allocate_n allocate size_to_index set_bin allocate_new grant round_up
wrapped_run = refl

allocate_n_wraps_example :
    (free' : List Free) × Inv bump wrapped_world free' (block 32 8 ∷ []) []
    × (mul64 (2 ^ 61 + 1) 8 < (2 ^ 61 + 1) * 8)
allocate_n_wraps_example =
    allocate_n_wraps posix bump-IsLawful world-Inv 8 0 (2 ^ 61 + 1) 32 (omega arith) (omega arith)
      wrapped_run
