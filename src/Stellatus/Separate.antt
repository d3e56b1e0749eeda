-- ===== src/Stellatus/Separate.antt =====
-- Blocks that clients hold do not overlap, nor do they overlap the headers of free chunks.
pub use sallocator.Os.Blocks.{NoOverlap, Separate}
use mathlib.Core.List.{
  Pairwise, Pairwise-append, Pairwise-cons, mem-append_left, mem-map_of_mem, mem-cons_self,
  mem-cons_of_mem,
}
use sallocator.Base.{ℕ, ◌+◌, ◌≤◌, ◌≡◌, ◌⊎◌, refl, List, [], ◌∷◌, ◌++◌, map, Mem, All, arith}
use sallocator.Bits.{round_up_bounds}
use sallocator.Os.{Region, Os, Apart}
use sallocator.Os.Owned.{Apart-prop}
use sallocator.Stellatus.{World, Cells}
use sallocator.Stellatus.Sizes.{sixteen-IsPow2}
use sallocator.Stellatus.Chains.{Free, Chain-frame}
use sallocator.Stellatus.Invariant.{Block, block_region, free_region, IsBlock, Inv}

-- No byte of the header at `a` belongs to the block's client.
abbrev pub OutsideData : ℕ → Block → Type 0
OutsideData a b = (a + 16 ≤ b.ptr) ⊎ (b.ptr + b.size ≤ a)

All-NoOverlap :
    (b : Block) (bs : List Block)
    → IsBlock b
    → All IsBlock bs
    → ((c : Block) → Mem c bs → Apart (block_region b) (block_region c))
    → All (NoOverlap b) bs
All-NoOverlap b [] ok oks apart = tt
All-NoOverlap b (c ∷ bs) ok oks apart = (
  ground (
    arith,
    apart c mem-cons_self,
    round_up_bounds sixteen-IsPow2 (b.size + 16),
    round_up_bounds sixteen-IsPow2 (c.size + 16),
  ),
  All-NoOverlap b bs ok oks.1 (λ d m. apart d (mem-cons_of_mem c m)),
)

Pairwise-Separate :
    (bs : List Block) (others : List Region)
    → All IsBlock bs
    → Pairwise Apart (map block_region bs ++ others)
    → Separate bs
Pairwise-Separate [] others oks h = tt
Pairwise-Separate (b ∷ bs) others oks h =
    let (apart, rest) = Pairwise-cons.0 h in
    (
      All-NoOverlap b bs oks.0 oks.1
          (λ c m. apart (block_region c) (mem-append_left others (mem-map_of_mem block_region m))),
      Pairwise-Separate bs others oks.1 rest,
    )

outside_of_Apart :
    (f : Free) (bs : List Block)
    → All IsBlock bs
    → ((c : Block) → Mem c bs → Apart (free_region f) (block_region c))
    → All (OutsideData f.chunk) bs
outside_of_Apart f [] oks apart = tt
outside_of_Apart f (c ∷ bs) oks apart = (
  ground (arith, apart c mem-cons_self, round_up_bounds sixteen-IsPow2 (c.size + 16)),
  outside_of_Apart f bs oks.1 (λ d m. apart d (mem-cons_of_mem c m)),
)

module _ {o : Os} {w : World o} {free : List Free} {used : List Block} {others : List Region}
    (v : Inv o w free used others) where
  parts :
      Pairwise Apart (map free_region free)
      × Pairwise Apart (map block_region used ++ others)
      × ((r : Region)
          → Mem r (map free_region free)
          → (q : Region) → Mem q (map block_region used ++ others)
          → Apart r q)
  parts = (Pairwise-append Apart-prop).0 v.owns.apart

  pub Inv-Separate : Separate used
  Inv-Separate = Pairwise-Separate used others v.blocks parts.1

  All-OutsideData : (f : Free) → Mem f free → All (OutsideData f.chunk) used
  All-OutsideData f m = outside_of_Apart f used v.blocks (λ c k.
      parts.2 (free_region f) (mem-map_of_mem free_region m) (block_region c)
        (mem-append_left others (mem-map_of_mem block_region k)))

  -- Clients write into their own blocks only.
  pub Inv-write :
      (cells : Cells)
      → ((a : ℕ) → All (OutsideData a) used → cells a ≡ w.cells a)
      → Inv o (record w { cells = cells }) free used others
  Inv-write cells same = record {
    bins = v.bins;
    chains = λ t i head e.
        Chain-frame t i w.cells cells head free
          (λ f m. rw (same f.chunk (All-OutsideData f m)) refl) (v.chains t i head e);
    owns = v.owns;
    blocks = v.blocks;
    frees = v.frees;
  }
