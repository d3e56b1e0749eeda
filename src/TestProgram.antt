-- ===== src/TestProgram.antt =====
-- src/main.cpp: the test of an allocator, the test of a large block, and the checks of OS_Alloc. The
-- clocks and the output are left out. `test_alloc` is the instance for `SAllocator<char>`, with the
-- number of its allocations as an argument.
pub mod Allocations
pub mod Pages
pub mod Words
pub mod Checks
pub mod Sizes
mod Tests
use sallocator.Base.{
  ℕ, zero, suc, ◌+◌, ◌*◌, ◌%◌, ◌^◌, Option, none, some, List, [], ◌∷◌, ltb, ◌==◌, if◌then◌else◌,
  add64, Bool, true, ◌&&◌, ◌||◌, not,
}
use sallocator.Os.{Platform, Os}
use sallocator.OsAllocator
use sallocator.OsAllocator.{Build, Sys, os_alloc, os_free}
use sallocator.Stellatus
use sallocator.Stellatus.{World, Cells, Run, returns, bad_alloc, fault}

abbrev pub alloc_size : ℕ
alloc_size = 64

abbrev pub large_size : ℕ
large_size = 8 * 1024 * 1024 * 1024

abbrev pub page : ℕ
page = 4096

-- `std::memset (ptr, value, size)` by a client, on the headers in memory.
abbrev pub Memset : Type 0
Memset = (ptr value size : ℕ) → Cells → Cells

-- `ptrs.push_back(p)` in front of the pushes that come later.
abbrev push : {W : Type 0} → ℕ → Run W (List ℕ) → Run W (List ℕ)
push p (returns ps w) = returns (p ∷ ps) w
push p (bad_alloc w) = bad_alloc w
push p fault = fault

module _ (o : Os) (platform : Platform) (memset : Memset) (t : ℕ) where
  -- The first loop of `test_alloc`, from `i` on: the content of `ptrs`.
  unfoldable pub alloc_loop : (n i : ℕ) → World o → Run (World o) (List ℕ)
  unfolding Stellatus.allocate_n
  alloc_loop zero i w = returns [] w
  alloc_loop (suc n) i w = elim (Stellatus.allocate_n o platform 1 t alloc_size w) [
    | returns p w' ↦
        let filled = memset p (i % 2 ^ 32) alloc_size w'.cells in
        push p (alloc_loop n (suc i) (record w' { cells = filled }))
    | bad_alloc w' ↦ bad_alloc w'
    | fault ↦ fault
  ]

  -- The second loop.
  unfoldable pub free_loop : List ℕ → World o → Run (World o) (Unit {0})
  unfolding Stellatus.deallocate_n
  free_loop [] w = returns tt w
  free_loop (p ∷ ps) w = elim (Stellatus.deallocate_n o platform 1 t p alloc_size w) [
    | returns u w' ↦ free_loop ps w'
    | bad_alloc w' ↦ bad_alloc w'
    | fault ↦ fault
  ]

  unfoldable pub test_alloc : ℕ → World o → Run (World o) (Unit {0})
  unfolding alloc_loop free_loop
  test_alloc n w = elim (alloc_loop n 0 w) [
    | returns ps w' ↦ free_loop ps w'
    | bad_alloc w' ↦ bad_alloc w'
    | fault ↦ fault
  ]

-- The lists of `main`.
abbrev pub alignments : List ℕ
alignments = 1 ∷ 2 ∷ 3 ∷ 17 ∷ 32 ∷ 64 ∷ 128 ∷ 256 ∷ 1024 ∷ []

abbrev pub sizes : List ℕ
sizes = 0 ∷ 1 ∷ 100 ∷ 4096 ∷ 8192 ∷ (2 * 1024 * 1024) ∷ (4 * 1024 * 1024 + 123) ∷ []

-- The bytes in memory.
abbrev pub Bytes : Type 0
Bytes = ℕ → ℕ

unfoldable pub write_byte : (a value : ℕ) → Bytes → Bytes
write_byte a value bytes b = if b == a then value else bytes b

-- The loop over the pages of `test_large_alloc`, from `offset` on; `none` is fuel that runs out.
unfoldable pub touch_loop : (fuel limit ptr offset : ℕ) → Bytes → Option Bytes
touch_loop zero limit ptr offset bytes = none
touch_loop (suc fuel) limit ptr offset bytes =
    let rest =
      touch_loop fuel limit ptr (add64 offset page) (write_byte (ptr + offset) 0xCD bytes) in
    if ltb offset limit then rest else some bytes

-- What `alloc_fn` and `free_fn` work on, and the bytes.
pub record Machine (S : Type 0) : Type 0 where
  pub state : S
  pub bytes : Bytes

module _ {S : Type 0} (alloc_fn : S → ℕ × S) (free_fn : ℕ → S → S) where
  abbrev finish : ℕ → S → Option Bytes → Option (Machine S)
  finish ptr s none = none
  finish ptr s (some bytes) = some (record { state = free_fn ptr s; bytes = bytes })

  unfoldable pub test_large_alloc : (fuel : ℕ) → Machine S → Option (Machine S)
  unfolding touch_loop
  test_large_alloc fuel m =
      let (ptr, s) = alloc_fn m.state in
      if ptr == 0
      then some (record m { state = s })
      else finish ptr s (touch_loop fuel large_size ptr 0 m.bytes)

unfoldable pub is_aligned : (ptr alignment : ℕ) → Bool
is_aligned ptr alignment = ptr % alignment == 0

-- `memset` on the words of memory, and the read of a byte.
pub record ByteMemory : Type 0 where
  pub fill : (ptr value size : ℕ) → (ℕ → ℕ) → ℕ → ℕ
  pub load : (ℕ → ℕ) → ℕ → ℕ

-- The loop of `test_allocation` that reads back `n` bytes from `ptr` on.
unfoldable pub holds_value : ByteMemory → (n ptr : ℕ) → (ℕ → ℕ) → Bool
holds_value m zero ptr words = true
holds_value m (suc n) ptr words = (m.load words ptr == 0xAB) && holds_value m n (suc ptr) words

-- A test passes, throws, fails an assertion, or writes where no memory of its own is.
pub data Verdict (W : Type 0) : Type 0 where
  passed : W → Verdict W
  threw : W → Verdict W
  aborted : Verdict W
  crashed : Verdict W

module _ {o : Os} (b : Build) (m : ByteMemory) where
  abbrev use_block : (size ptr : ℕ) → Sys o → Verdict (Sys o)
  use_block size ptr w =
      if (ptr == 0) && not (size == 0)
      then crashed
      else (let words = m.fill ptr 0xAB size w.words in
          if b.ndebug || holds_value m size ptr words
          then passed (os_free b ptr size (record w { words = words }))
          else aborted)

  unfoldable pub test_allocation : (size alignment : ℕ) → Sys o → Verdict (Sys o)
  unfolding holds_value
  test_allocation size alignment w = elim (os_alloc b size alignment w) [
    | OsAllocator.returns ptr w' ↦ use_block size ptr w'
    | OsAllocator.bad_alloc w' ↦ threw w'
    | OsAllocator.aborted ↦ aborted
    | OsAllocator.fault a w' ↦ crashed
  ]

  -- The body of the loops of `main`: an exception is caught.
  abbrev caught : Verdict (Sys o) → (Sys o → Verdict (Sys o)) → Verdict (Sys o)
  caught (passed w) rest = rest w
  caught (threw w) rest = rest w
  caught aborted rest = aborted
  caught crashed rest = crashed

  unfoldable pub test_sizes : List ℕ → (alignment : ℕ) → Sys o → Verdict (Sys o)
  test_sizes [] alignment w = passed w
  test_sizes (size ∷ later) alignment w =
      caught (test_allocation size alignment w) (test_sizes later alignment)

  unfoldable pub test_alignments : List ℕ → Sys o → Verdict (Sys o)
  test_alignments [] w = passed w
  test_alignments (alignment ∷ later) w =
      caught (test_sizes sizes alignment w) (test_alignments later)

  unfoldable pub main : Sys o → Verdict (Sys o)
  unfolding test_alignments
  main = test_alignments alignments
