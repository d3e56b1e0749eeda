-- ===== src/JAllocator/Tests.antt =====
-- Runs of the parts of include/JAllocator.hpp.
use mathlib.Core.List.Perm
use sallocator.Base.{
  ℕ, ◌≡◌, refl, Bool, true, false, none, List, [], ◌∷◌, Perm, arith, ◌+◌, ◌<◌, ◌^◌,
}
use sallocator.Os.Bump.{bump, grant, release}
use sallocator.Bits.{round_up}
use sallocator.JAllocator.{
  MemNode, ResetPtr, container_of, new_mem_node, delete_mem_node, Info, mark_quit, over_timekeeping,
  j_allocate,
}

-- The member of an object leads back to the object.
container_of-member :
    (object offset : ℕ) → object + offset < 2 ^ 64 → container_of (object + offset) offset ≡ object
unfolding container_of
container_of-member object offset fits = omega (arith, fits)

-- It frees the node.
abbrev reset_ptr : ResetPtr bump
reset_ptr n s = (record n { is_free = true }, s)

first_node :
    (new_mem_node bump 64 reset_ptr 7 true []).0 ≡ record { mem = 16; id = 7; is_free = true }
unfolding new_mem_node grant round_up
first_node = refl

freed_node :
    let (n, s) = new_mem_node bump 64 reset_ptr 7 true [] in delete_mem_node bump 64 n s ≡ []
unfolding new_mem_node delete_mem_node grant release round_up
freed_node = refl

-- 5 milliseconds pass between the two marks, and the second has no value to store.
abbrev info : Info
info = record {
  thread_id = 0;
  mem_ptr = 16;
  enter_time = 1000000;
  create_time = 0;
  enter_duration = 2;
  life_duration = 9;
}

five_passed : (over_timekeeping 6000000 info.enter_time info).0.enter_duration ≡ 7
unfolding over_timekeeping
five_passed = refl

quit_undefined : mark_quit 6000000 info ≡ none
unfolding mark_quit over_timekeeping
quit_undefined = refl

never_allocates : j_allocate 8 4 ≡ 0
unfolding j_allocate
never_allocates = refl

-- Two nodes, which go in the order in which they came.
abbrev first : MemNode
first = record { mem = 16; id = 1; is_free = true }

abbrev second : MemNode
second = record { mem = 96; id = 2; is_free = true }

abbrev ids : List (ℕ × Bool)
ids = (1, true) ∷ (2, false) ∷ []
