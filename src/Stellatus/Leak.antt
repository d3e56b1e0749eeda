-- ===== src/Stellatus/Leak.antt =====
-- include/SAllocator.hpp: the free chunks of a thread that ends are lost.
use mathlib.Core.List.{
  Pairwise, Pairwise-append, mem-append_left, mem-append_right, mem-cons_self, mem-cons_of_mem,
}
use mathlib.Core.List.Perm
use sallocator.Base.{
  ℕ, ◌+◌, ◌*◌, ◌≤◌, ◌≡◌, ◌⊎◌, List, [], ◌∷◌, ◌++◌, map, Mem, All, arith, refl, sym, ◌∙◌, get_elem?,
  some,
}
use sallocator.Bits.{round_up_bounds}
use sallocator.Os.{Kind, Region, region, Os, Platform, IsLawful, Apart}
use sallocator.Os.Owned.{Apart-prop}
use sallocator.Stellatus.{World, Cells, end_thread}
use sallocator.Stellatus.Sizes.{sixteen-IsPow2}
use sallocator.Stellatus.Chains.{Free, Chain, bin_chunks}
use sallocator.Stellatus.Invariant.{Block, block_region, free_region, IsBlock, Inv}
use sallocator.Stellatus.ThreadEnd.{without, left_behind, mem-left_behind, Inv-end_thread}
use sallocator.Stellatus.History.{start, Reach, Reach-Sound, reached}

-- The chain of a bin is one list of chunks.
Chain-unique :
    (cells : Cells) (head : ℕ) (cs ds : List ℕ)
    → Chain cells head cs
    → Chain cells head ds
    → cs ≡ ds
Chain-unique cells head [] [] h k = refl
Chain-unique cells head [] (d ∷ ds) h k = absurd (omega (arith, h, k.0, k.1))
Chain-unique cells head (c ∷ cs) [] h k = absurd (omega (arith, k, h.0, h.1))
Chain-unique cells head (c ∷ cs) (d ∷ ds) h k =
    let same : c ≡ d = sym h.0 ∙ k.0 in
    let rest = Chain-unique cells (cells d).next cs ds (rw same at h.2) k.2 in rw (same, rest) refl

-- No byte of the block's data lies in the region.
abbrev pub IsClearOf : Region → Block → Type 0
IsClearOf r b = (r.base + r.size ≤ b.ptr) ⊎ (b.ptr + b.size ≤ r.base)

All-IsClearOf :
    (r : Region) (bs : List Block)
    → All IsBlock bs
    → ((q : Region) → Mem q (map block_region bs) → Apart q r)
    → All (IsClearOf r) bs
All-IsClearOf r [] oks apart = tt
All-IsClearOf r (c ∷ bs) oks apart = (
  ground (
    arith,
    oks.0.above_header,
    apart (block_region c) mem-cons_self,
    round_up_bounds sixteen-IsPow2 (c.size + 16),
  ),
  All-IsClearOf r bs oks.1 (λ q m. apart q (mem-cons_of_mem (block_region c) m)),
)

-- What belongs to others stays allocated, and no block in use lies in it.
Inv-others :
    {o : Os} {w : World o} {free : List Free} {used : List Block} {others : List Region}
    (r : Region)
    → Inv o w free used others
    → Mem r others
    → Mem r (o.live w.os) × All (IsClearOf r) used
Inv-others {free} {used} {others} r v m =
    let rest = ((Pairwise-append Apart-prop).0 v.owns.apart).1 in
    (
      (Perm.mem_iff v.owns.same).1
          (mem-append_right (map free_region free) (mem-append_right (map block_region used) m)),
      All-IsClearOf r used v.blocks (λ q k. ((Pairwise-append Apart-prop).0 rest).2 q k r m),
    )

module _ {o : Os} {s : o.State} {cells : Cells} (platform : Platform) (law : IsLawful o)
    (apart : Pairwise Apart (o.live s)) {w : World o} {used : List Block}
    (reach : Reach o platform (start o s cells) [] w used) where
  -- After any sequence of allocations of sizes that are not 0 and deallocations by any threads, of
  -- writes of the clients into their own blocks and of ends of threads, from empty arenas on, a
  -- chunk that is in a bin of a thread when it ends stays allocated from the system after any
  -- further such sequence, and no block in use lies in it.
  pub end_thread-Leaks :
      (t i head c : ℕ) (cs : List ℕ)
      → get_elem? (w.arenas t).fastbins i ≡ some head
      → Chain w.cells head cs
      → Mem c cs
      → {w' : World o} {used' : List Block} → Reach o platform (end_thread t w) used w' used'
      → let r = region Kind.heap c (16 * (i + 2)) in Mem r (o.live w'.os) × All (IsClearOf r) used'
  end_thread-Leaks t i head c cs e chain m later =
      let (left, (free, v)) = reached platform law apart reach in
      let same = Chain-unique w.cells head cs (bin_chunks t i free) chain (v.chains t i head e) in
      let lost = left_behind t free ++ (left ++ o.live s) in
      let (left', (free', v')) =
        Reach-Sound o platform law lost later ([], (without t free, Inv-end_thread t v)) in
      Inv-others (region Kind.heap c (16 * (i + 2))) v' (
        mem-append_right left'
          (mem-append_left (left ++ o.live s) (mem-left_behind t i c free (rw same at m))))
