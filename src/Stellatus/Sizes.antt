-- ===== src/Stellatus/Sizes.antt =====
-- The size classes of include/SAllocator.hpp.
use sallocator.Base.{ℕ, ◌+◌, ◌-◌, ◌*◌, ◌/◌, ◌%◌, ◌^◌, ◌≤◌, ◌<◌, ◌≡◌, refl, arith, add64}
pub use sallocator.Bits.{sixteen-IsPow2}
use sallocator.Bits.{
  IsPow2, bit_and_mask_up, round_up, round_up_bounds, round_up-mod, round_up_least,
}
use sallocator.Stellatus.{
  alignment, max_fast_size, num_fast_bins, max_alloc_size, sizeof_chunk, align_up, size_to_index,
}

-- For a power of two a, align_up gives the least multiple of a that is not below the size, as long
-- as the size and a together fit 64 bits.
pub align_up-least :
    (size a : ℕ)
    → IsPow2 a
    → size + a ≤ 2 ^ 64
    → (align_up size a % a ≡ 0)
      × (size ≤ align_up size a)
      × ((m : ℕ) → m % a ≡ 0 → size ≤ m → align_up size a ≤ m)
unfolding align_up
align_up-least size a p h =
    rw (bit_and_mask_up p size h)
      (round_up-mod a size, (round_up_bounds p size).0, λ m e le. round_up_least p size m e le)

pub align_up-eq-round_up : (size : ℕ) → size + 16 ≤ 2 ^ 64 → align_up size 16 ≡ round_up 16 size
unfolding align_up
align_up-eq-round_up size h = bit_and_mask_up sixteen-IsPow2 size h

-- The size of a block with its header, as `allocate` and `deallocate` compute it.
pub total_size_eq :
    (size : ℕ)
    → size ≤ max_alloc_size
    → align_up (add64 size sizeof_chunk) alignment ≡ round_up 16 (size + 16)
total_size_eq size h =
    let e : add64 size sizeof_chunk ≡ size + 16 = omega arith in
    rw e (align_up-eq-round_up (size + 16) (omega arith))

pub size_to_index_eq :
    (size : ℕ) → 0 < size → size ≤ max_alloc_size → size_to_index size ≡ (size - 1) / 16
unfolding size_to_index round_up
size_to_index_eq size pos h = omega (arith, align_up-eq-round_up size (omega arith))

-- A size from 1 to MAX_FAST_SIZE has a bin in range, whose chunks hold the size and waste less
-- than one unit of alignment.
pub size_to_index_bounds :
    (size : ℕ)
    → 0 < size
    → size ≤ max_fast_size
    → let idx = size_to_index size in
      (idx < num_fast_bins)
      × (size ≤ (idx + 1) * alignment)
      × ((idx + 1) * alignment < size + alignment)
size_to_index_bounds size pos h = rw (size_to_index_eq size pos (omega arith)) (omega arith)

-- The block of a fast bin has the same size, whichever size of the class was asked for.
pub total_size_of_index :
    (size : ℕ)
    → 0 < size
    → size ≤ max_fast_size
    → round_up 16 (size + 16) ≡ 16 * (size_to_index size + 2)
unfolding round_up
total_size_of_index size pos h = omega (arith, size_to_index_eq size pos (omega arith))

-- No bin serves the size 0: the index wraps around to the largest `size_t`.
pub size_to_index-zero : size_to_index 0 ≡ 2 ^ 64 - 1
unfolding size_to_index
size_to_index-zero = refl
