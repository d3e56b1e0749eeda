-- ===== src/Stellatus/Footprint.antt =====
-- How much memory the arena of include/SAllocator.hpp holds when one thread uses it: what is counted.
pub mod Counts
pub mod Peak
pub mod Bytes
pub mod Full
pub mod Handover
use Prim.Native.Nat.{max}
use sallocator.Base.{ℕ, zero, suc, ◌+◌, ◌*◌, ◌≡◌, List, [], ◌∷◌, ◌&&◌, leb, ◌==◌, if◌then◌else◌}
use sallocator.Bits.{round_up}
use sallocator.Os.{Region, Os, Platform}
use sallocator.Stellatus.{World, max_fast_size, size_to_index}
use sallocator.Stellatus.Chains.{Free}
use sallocator.Stellatus.Invariant.{Block}
use sallocator.Stellatus.History.{
  Step, allocated, refused, deallocated, written, ended, Reach, here, next,
}

-- Blocks of class `i`, those that the bin with this index serves.
abbrev pub used_of : ℕ → List Block → ℕ
used_of i [] = 0
used_of i (b ∷ bs) =
    (if leb b.size max_fast_size && (size_to_index b.size == i) then 1 else 0) + used_of i bs

-- Chunks in the bins with the index `i`.
abbrev pub free_of : ℕ → List Free → ℕ
free_of i [] = 0
free_of i (f ∷ fs) = (if f.bin == i then 1 else 0) + free_of i fs

abbrev pub large_bytes : List Block → ℕ
large_bytes [] = 0
large_bytes (b ∷ bs) =
    (if leb b.size max_fast_size then 0 else round_up 16 (b.size + 16)) + large_bytes bs

abbrev pub total : List Region → ℕ
total [] = 0
total (r ∷ rs) = r.size + total rs

-- The bytes of `count i` chunks, with their headers, of each class below `n`.
abbrev pub class_bytes : ℕ → (ℕ → ℕ) → ℕ
class_bytes zero count = 0
class_bytes (suc n) count = class_bytes n count + count n * (16 * (n + 2))

module _ {o : Os} {platform : Platform} (t : ℕ) where
  abbrev IsBy :
      {w w' : World o} {used used' : List Block} → Step o platform w used w' used' → Type 0
  IsBy (allocated u size p pos e) = u ≡ t
  IsBy (refused u size pos e) = u ≡ t
  IsBy (deallocated u xs ys b split e) = u ≡ t
  IsBy (written cells same) = Unit
  IsBy (ended u) = ⊥

  -- All calls are those of thread `t`, and no thread ends.
  abbrev pub OnlyBy :
      {w : World o} {used : List Block} {w' : World o} {used' : List Block}
      → Reach o platform w used w' used'
      → Type 0
  OnlyBy here = Unit
  OnlyBy (next r s) = OnlyBy r × IsBy s

module _ {o : Os} {platform : Platform} (i : ℕ) where
  -- The most blocks of class `i` that were in use at once.
  abbrev pub peak :
      {w : World o} {used : List Block} {w' : World o} {used' : List Block}
      → Reach o platform w used w' used'
      → ℕ
  peak {used = used} here = used_of i used
  peak {used' = used'} (next r s) = max (peak r) (used_of i used')
