-- ===== src/Stellatus/Footprint/Handover.antt =====
-- How much memory the arenas of include/SAllocator.hpp hold when one thread allocates and another one
-- deallocates: the chunks that are freed are never used again.
use mathlib.Core.List.{Pairwise}
use sallocator.Base.{ℕ, ◌+◌, ◌≡◌, ◌≢◌, refl, inl, inr, false, List, [], ◌∷◌, All, arith}
use sallocator.Os.{Region, Os, Platform, IsLawful, Apart}
use sallocator.Stellatus.{World, Cells, num_fast_bins, returns, size_to_index}
use sallocator.Stellatus.Chains.{Free, in_bin, bin_chunks}
use sallocator.Stellatus.Invariant.{Block, block, Takes, AllocatesFrom}
use sallocator.Stellatus.Allocate.{allocate-AllocatesFrom}
use sallocator.Stellatus.History.{
  Step, allocated, refused, deallocated, written, ended, Reach, here, next, start,
}
use sallocator.Stellatus.Footprint.{used_of, total, class_bytes, large_bytes}
use sallocator.Stellatus.Footprint.Counts.{BelongsTo}
use sallocator.Stellatus.Footprint.Full.{
  IsFull, IsFull-ext, IsFull-refused, IsFull-deallocated, IsFull-written, start-IsFull,
  IsFull-total,
}

module _ {o : Os} {platform : Platform} (a b : ℕ) where
  abbrev IsHandedOver :
      {w w' : World o} {used used' : List Block} → Step o platform w used w' used' → Type 0
  IsHandedOver (allocated t size p pos e) = t ≡ a
  IsHandedOver (refused t size pos e) = t ≡ a
  IsHandedOver (deallocated t xs ys x split e) = t ≡ b
  IsHandedOver (written cells same) = Unit
  IsHandedOver (ended t) = ⊥

  -- Thread `a` allocates, thread `b` deallocates, and none ends.
  abbrev pub HandsOver :
      {w : World o} {used : List Block} {w' : World o} {used' : List Block}
      → Reach o platform w used w' used'
      → Type 0
  HandsOver here = Unit
  HandsOver (next r s) = HandsOver r × IsHandedOver s

module _ {o : Os} {platform : Platform} (i : ℕ) where
  abbrev made_by : {w w' : World o} {used used' : List Block} → Step o platform w used w' used' → ℕ
  made_by (allocated t size p pos e) = used_of i (block p size ∷ [])
  made_by (refused t size pos e) = 0
  made_by (deallocated t xs ys x split e) = 0
  made_by (written cells same) = 0
  made_by (ended t) = 0

  -- How many blocks of class `i` were allocated, with those in use at the start.
  abbrev pub made :
      {w : World o} {used : List Block} {w' : World o} {used' : List Block}
      → Reach o platform w used w' used'
      → ℕ
  made {used = used} here = used_of i used
  made (next r s) = made r + made_by s

-- The bins of a thread that deallocates nothing stay empty.
bin_chunks-foreign :
    (a b i : ℕ) (fs : List Free) → a ≢ b → All (BelongsTo b) fs → bin_chunks a i fs ≡ []
bin_chunks-foreign a b i [] ne own = refl
bin_chunks-foreign a b i (f ∷ fs) ne (same, own) =
    let other : in_bin a i f ≡ false = ground (arith, ne, same) in
    rw other (bin_chunks-foreign a b i fs ne own)

Takes-none :
    (a b size : ℕ) (before after : List Free)
    → a ≢ b
    → All (BelongsTo b) before
    → Takes a size before after
    → after ≡ before
Takes-none a b size before after ne own (inl (e, none)) = e
Takes-none a b size before after ne own (inr (e, le, some)) =
    absurd (some (bin_chunks-foreign a b (size_to_index size) before ne own))

module _ {o : Os} (platform : Platform) (law : IsLawful o) (a b : ℕ) (ne : a ≢ b)
    (others : List Region) where
  Step-IsFull :
      {w : World o} {used : List Block} {w' : World o} {used' : List Block}
      (s : Step o platform w used w' used') (most : ℕ → ℕ)
      → IsHandedOver a b s
      → IsFull o b w used others most
      → IsFull o b w' used' others (λ i. most i + made_by i s)
  Step-IsFull {used = used} (allocated t size p pos e) most by f =
      let (free', v, takes) : AllocatesFrom o f.free used others a size (returns p _) =
        rw by at (rw e at (allocate-AllocatesFrom platform law f.inv t size pos)) in
      record {
        free = f.free;
        inv = rw (Takes-none a b size f.free free' ne f.own takes) at v;
        own = f.own;
        full = λ i. omega (arith, f.full i);
      }
  Step-IsFull (refused t size pos e) most by f =
      IsFull-ext (λ i. omega arith) (IsFull-refused platform law f t size pos e)
  Step-IsFull (deallocated t xs ys x split e) most by f =
      IsFull-ext (λ i. omega arith) (IsFull-deallocated platform law f xs ys x split (rw by at e))
  Step-IsFull (written cells same) most by f =
      IsFull-ext (λ i. omega arith) (IsFull-written f cells same)
  Step-IsFull (ended t) most by f = absurd by

  Reach-IsFull :
      {w : World o} {used : List Block} {w' : World o} {used' : List Block}
      (r : Reach o platform w used w' used')
      → HandsOver a b r
      → IsFull o b w used others (λ i. used_of i used)
      → IsFull o b w' used' others (λ i. made i r)
  Reach-IsFull here by f = f
  Reach-IsFull (next r s) by f = Step-IsFull s (λ i. made i r) by.1 (Reach-IsFull r by.0 f)

-- After any sequence of allocations of sizes that are not 0 by one thread, deallocations by a
-- different one and writes into the blocks, from empty arenas on and with neither thread ended,
-- the system holds, beside what it held before, for each class of up to MAX_FAST_SIZE as many
-- chunks as blocks of that class were ever allocated, however few were in use at once, and for
-- each larger block in use its size with the header, rounded up to 16.
pub Reach-grows :
    {o : Os} {s : o.State} {cells : Cells} (platform : Platform) (law : IsLawful o) (a b : ℕ)
    (ne : a ≢ b) (apart : Pairwise Apart (o.live s)) {w : World o} {used : List Block}
    (r : Reach o platform (start o s cells) [] w used)
    → HandsOver a b r
    → total (o.live w.os)
      ≡ class_bytes num_fast_bins (λ i. made i r) + large_bytes used + total (o.live s)
Reach-grows {o} {s} {cells} platform law a b ne apart {w} {used} r by =
    IsFull-total (Reach-IsFull platform law a b ne (o.live s) r by (start-IsFull o s cells b apart))
