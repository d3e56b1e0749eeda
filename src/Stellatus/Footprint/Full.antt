-- ===== src/Stellatus/Footprint/Full.antt =====
-- What the proofs on the memory of include/SAllocator.hpp follow along a history, and the steps that
-- are the same in all of them.
use mathlib.Core.List.{Pairwise}
use sallocator.Base.{ℕ, ◌+◌, ◌<◌, ◌≡◌, List, [], ◌∷◌, ◌++◌, All, arith}
use sallocator.Os.{Region, Os, Platform, IsLawful, Apart}
use sallocator.Stellatus.{World, Cells, num_fast_bins, returns, bad_alloc, allocate, deallocate}
use sallocator.Stellatus.Chains.{Free}
use sallocator.Stellatus.Invariant.{Block, Inv, with_freed}
use sallocator.Stellatus.Allocate.{allocate-AllocatesFrom}
use sallocator.Stellatus.Deallocate.{deallocate-DeallocatesTo}
use sallocator.Stellatus.Separate.{OutsideData, Inv-write}
use sallocator.Stellatus.History.{start, start-Inv}
use sallocator.Stellatus.Footprint.{used_of, free_of, total, class_bytes, large_bytes}
use sallocator.Stellatus.Footprint.Bytes.{Inv-total, class_bytes-ext}
use sallocator.Stellatus.Footprint.Counts.{
  BelongsTo, used_of-middle, free_of-with_freed, with_freed-BelongsTo,
}

-- The free chunks and the blocks in use of each class, all of thread `t`, are as many as `most`.
pub record IsFull (o : Os) (t : ℕ) (w : World o) (used : List Block) (others : List Region)
    (most : ℕ → ℕ) : Type 0 where
  pub free : List Free
  pub inv : Inv o w free used others
  pub own : All (BelongsTo t) free
  pub full : (i : ℕ) → free_of i free + used_of i used ≡ most i

module _ {o : Os} {t : ℕ} {w : World o} {used : List Block} {others : List Region}
    {most : ℕ → ℕ} where
  pub IsFull-ext :
      {most' : ℕ → ℕ}
      → ((i : ℕ) → most i ≡ most' i)
      → IsFull o t w used others most
      → IsFull o t w used others most'
  IsFull-ext same f = record {
    free = f.free;
    inv = f.inv;
    own = f.own;
    full = λ i. omega (arith, f.full i, same i);
  }

  pub IsFull-refused :
      (platform : Platform) (law : IsLawful o) (f : IsFull o t w used others most) (u size : ℕ)
      {w' : World o}
      → 0 < size
      → allocate o platform u size w ≡ bad_alloc w'
      → IsFull o t w' used others most
  IsFull-refused platform law f u size pos e = record {
    free = f.free;
    inv = rw e at (allocate-AllocatesFrom platform law f.inv u size pos);
    own = f.own;
    full = f.full;
  }

  pub IsFull-deallocated :
      (platform : Platform) (law : IsLawful o) (f : IsFull o t w used others most)
      (xs ys : List Block) (b : Block) {w' : World o}
      → used ≡ xs ++ b ∷ ys
      → deallocate o platform t b.ptr b.size w ≡ returns tt w'
      → IsFull o t w' (xs ++ ys) others most
  IsFull-deallocated platform law f xs ys b split e = record {
    free = with_freed t b f.free;
    inv = rw e at (deallocate-DeallocatesTo xs ys b.ptr b.size (rw split at f.inv) platform law t);
    own = with_freed-BelongsTo t b f.free f.own;
    full = λ i.
        omega (
          arith,
          rw split at (f.full i),
          used_of-middle i xs ys b,
          free_of-with_freed t i b f.free,
        );
  }

  pub IsFull-written :
      IsFull o t w used others most
      → (cells : Cells) → ((a : ℕ) → All (OutsideData a) used → cells a ≡ w.cells a)
      → IsFull o t (record w { cells = cells }) used others most
  IsFull-written f cells same = record {
    free = f.free;
    inv = Inv-write f.inv cells same;
    own = f.own;
    full = f.full;
  }

  -- The bytes that are allocated.
  pub IsFull-total :
      IsFull o t w used others most
      → total (o.live w.os) ≡ class_bytes num_fast_bins most + large_bytes used + total others
  IsFull-total f = rw (← class_bytes-ext num_fast_bins _ most f.full) (Inv-total f.inv)

pub start-IsFull :
    (o : Os) (s : o.State) (cells : Cells) (t : ℕ)
    → Pairwise Apart (o.live s)
    → IsFull o t (start o s cells) [] (o.live s) (λ i. used_of i [])
start-IsFull o s cells t apart = record {
  free = [];
  inv = start-Inv o s cells apart;
  own = tt;
  full = λ i. omega arith;
}
