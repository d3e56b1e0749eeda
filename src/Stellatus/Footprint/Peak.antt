-- ===== src/Stellatus/Footprint/Peak.antt =====
-- The chunks of a class that the arena of include/SAllocator.hpp holds are as many as were ever in use
-- at once.
use Prim.Native.Nat.{max}
use sallocator.Base.{
  ℕ, ◌+◌, ◌≡◌, inl, inr, true, false, List, [], ◌∷◌, All, arith, leb, ◌==◌, ◌&&◌, Bool-cases,
}
use mathlib.Core.List.{Pairwise}
use sallocator.Os.{Region, Os, Platform, IsLawful, Apart}
use sallocator.Stellatus.{World, Cells, num_fast_bins, max_fast_size, size_to_index, returns}
use sallocator.Stellatus.Chains.{Free, All-drop_first}
use sallocator.Stellatus.Invariant.{Block, block, Takes, AllocatesFrom}
use sallocator.Stellatus.Allocate.{allocate-AllocatesFrom}
use sallocator.Stellatus.History.{
  Step, allocated, refused, deallocated, written, ended, Reach, here, next, start,
}
use sallocator.Stellatus.Footprint.{
  used_of, free_of, IsBy, OnlyBy, peak, total, class_bytes, large_bytes,
}
use sallocator.Stellatus.Footprint.Full.{
  IsFull, IsFull-ext, IsFull-refused, IsFull-deallocated, IsFull-written, start-IsFull,
  IsFull-total,
}
use sallocator.Stellatus.Footprint.Counts.{BelongsTo, free_of-drop_first, free_of-empty}

abbrev pub grown : (ℕ → ℕ) → List Block → ℕ → ℕ
grown most used i = max (most i) (used_of i used)

Takes-counts :
    (t size i : ℕ) (before after : List Free) (p : ℕ) (used : List Block) (most : ℕ → ℕ)
    → All (BelongsTo t) before
    → Takes t size before after
    → free_of i before + used_of i used ≡ most i
    → free_of i after + used_of i (block p size ∷ used) ≡ grown most (block p size ∷ used) i
Takes-counts t size i before after p used most own (inl (e, inl large)) full =
    let big : leb size max_fast_size ≡ false = ground arith in rw (e, big) (omega (arith, full))
Takes-counts t size i before after p used most own (inl (e, inr empty)) full =
    let none = free_of-empty t (size_to_index size) before own empty in
    elim (Bool-cases (leb size max_fast_size && (size_to_index size == i))) [
      | inl hit ↦
          let class : size_to_index size ≡ i = ground arith in
          rw (e, hit) (omega (arith, full, rw class at none))
      | inr miss ↦ rw (e, miss) (omega (arith, full))
    ]
Takes-counts t size i before after p used most own (inr (e, le, ne)) full =
    let small : leb size max_fast_size ≡ true = ground arith in
    let less = free_of-drop_first t (size_to_index size) i before ne in
    rw (e, small) (omega (arith, full, less))

Takes-BelongsTo :
    (t size : ℕ) (before after : List Free)
    → All (BelongsTo t) before
    → Takes t size before after
    → All (BelongsTo t) after
Takes-BelongsTo t size before after own (inl (e, none)) = rw e own
Takes-BelongsTo t size before after own (inr (e, le, ne)) =
    rw e (All-drop_first t (size_to_index size) (BelongsTo t) before own)

module _ {o : Os} (platform : Platform) (law : IsLawful o) (t : ℕ) (others : List Region) where
  Step-IsFull :
      {w : World o} {used : List Block} {w' : World o} {used' : List Block}
      (s : Step o platform w used w' used') (most : ℕ → ℕ)
      → IsBy t s
      → IsFull o t w used others most
      → IsFull o t w' used' others (grown most used')
  Step-IsFull {used = used} (allocated u size p pos e) most by f =
      let (free', v, takes) : AllocatesFrom o f.free used others t size (returns p _) =
        rw by at (rw e at (allocate-AllocatesFrom platform law f.inv u size pos)) in
      record {
        free = free';
        inv = v;
        own = Takes-BelongsTo t size f.free free' f.own takes;
        full = λ i. Takes-counts t size i f.free free' p used most f.own takes (f.full i);
      }
  Step-IsFull (refused u size pos e) most by f =
      IsFull-ext (λ i. omega (arith, f.full i)) (IsFull-refused platform law f u size pos e)
  Step-IsFull (deallocated u xs ys b split e) most by f =
      let g = IsFull-deallocated platform law f xs ys b split (rw by at e) in
      IsFull-ext (λ i. omega (arith, g.full i)) g
  Step-IsFull (written cells same) most by f =
      IsFull-ext (λ i. omega (arith, f.full i)) (IsFull-written f cells same)
  Step-IsFull (ended u) most by f = absurd by

  pub Reach-IsFull :
      {w : World o} {used : List Block} {w' : World o} {used' : List Block}
      (r : Reach o platform w used w' used')
      → OnlyBy t r
      → IsFull o t w used others (λ i. used_of i used)
      → IsFull o t w' used' others (λ i. peak i r)
  Reach-IsFull here by f = f
  Reach-IsFull (next r s) by f = Step-IsFull s (λ i. peak i r) by.1 (Reach-IsFull r by.0 f)

-- After any sequence of allocations of sizes that are not 0 and deallocations by one thread that
-- does not end, and of writes into its blocks, from empty arenas on, the system holds, beside what
-- it held before, for each class of up to MAX_FAST_SIZE as many chunks as there were ever blocks
-- of that class in use at once, and for each larger block in use its size with the header, rounded
-- up to 16.
pub Reach-total :
    {o : Os} {s : o.State} {cells : Cells} (platform : Platform) (law : IsLawful o) (t : ℕ)
    (apart : Pairwise Apart (o.live s)) {w : World o} {used : List Block}
    (r : Reach o platform (start o s cells) [] w used)
    → OnlyBy t r
    → total (o.live w.os)
      ≡ class_bytes num_fast_bins (λ i. peak i r) + large_bytes used + total (o.live s)
Reach-total {o} {s} {cells} platform law t apart {w} {used} r by =
    IsFull-total (Reach-IsFull platform law t (o.live s) r by (start-IsFull o s cells t apart))
