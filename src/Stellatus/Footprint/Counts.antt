-- ===== src/Stellatus/Footprint/Counts.antt =====
-- How the calls of include/SAllocator.hpp change the numbers of free chunks and of blocks in use.
use sallocator.Base.{
  ℕ, ◌+◌, ◌≡◌, ◌≢◌, refl, inl, inr, false, List, [], ◌∷◌, ◌++◌, All, arith, leb, ◌==◌,
  if◌then◌else◌, Bool-cases,
}
use sallocator.Stellatus.{max_fast_size}
use sallocator.Stellatus.Chains.{Free, in_bin, bin_chunks, drop_first}
use sallocator.Stellatus.Invariant.{Block, with_freed}
use sallocator.Stellatus.Footprint.{used_of, free_of, large_bytes}

abbrev pub BelongsTo : ℕ → Free → Type 0
BelongsTo t f = f.thread ≡ t

-- Without its first chunk a bin has one chunk less.
pub free_of-drop_first :
    (t i j : ℕ) (fs : List Free)
    → bin_chunks t i fs ≢ []
    → free_of j (drop_first t i fs) + (if i == j then 1 else 0) ≡ free_of j fs
free_of-drop_first t i j [] ne = absurd (ne refl)
free_of-drop_first t i j (f ∷ fs) ne = elim (Bool-cases (in_bin t i f)) [
  | inl here ↦ let e : f.bin ≡ i = ground arith in rw (here, e) (omega arith)
  | inr later ↦ rw later (omega (arith, free_of-drop_first t i j fs (λ e. ne (rw later e))))
]

pub free_of-empty :
    (t i : ℕ) (fs : List Free) → All (BelongsTo t) fs → bin_chunks t i fs ≡ [] → free_of i fs ≡ 0
free_of-empty t i [] own e = refl
free_of-empty t i (f ∷ fs) (same, own) e = elim (Bool-cases (in_bin t i f)) [
  | inl here ↦ absurd (cc (rw here at e))
  | inr later ↦
      let other : (f.bin == i) ≡ false = ground (arith, same) in
      rw other (omega (arith, free_of-empty t i fs own (rw later at e)))
]

pub used_of-middle :
    (i : ℕ) (xs ys : List Block) (b : Block)
    → used_of i (xs ++ b ∷ ys) ≡ used_of i (b ∷ []) + used_of i (xs ++ ys)
used_of-middle i [] ys b = omega arith
used_of-middle i (x ∷ xs) ys b = omega (arith, used_of-middle i xs ys b)

pub large_bytes-middle :
    (xs ys : List Block) (b : Block)
    → large_bytes (xs ++ b ∷ ys) ≡ large_bytes (b ∷ []) + large_bytes (xs ++ ys)
large_bytes-middle [] ys b = omega arith
large_bytes-middle (x ∷ xs) ys b = omega (arith, large_bytes-middle xs ys b)

-- A block that is given back to its bin is free.
pub free_of-with_freed :
    (t i : ℕ) (b : Block) (fs : List Free)
    → free_of i (with_freed t b fs) ≡ used_of i (b ∷ []) + free_of i fs
free_of-with_freed t i b fs = elim (Bool-cases (leb b.size max_fast_size)) [
  | inl small ↦ rw small (omega arith)
  | inr large ↦ rw large (omega arith)
]

pub with_freed-BelongsTo :
    (t : ℕ) (b : Block) (fs : List Free)
    → All (BelongsTo t) fs
    → All (BelongsTo t) (with_freed t b fs)
with_freed-BelongsTo t b fs own = elim (Bool-cases (leb b.size max_fast_size)) [
  | inl small ↦ rw small (refl, own)
  | inr large ↦ rw large own
]
