-- ===== src/Stellatus/Invariant.antt =====
-- The invariant of all arenas together: every allocated region is a free chunk of one bin, a block
-- that a client holds, or a region of somebody else, and none of these overlap.
pub use sallocator.Os.Blocks.{Block, block}
use mathlib.Core.List.{perm_middle}
use mathlib.Core.List.Perm
use sallocator.Base.{
  Perm, arith, false, ℕ, ◌+◌, ◌-◌, ◌*◌, ◌%◌, ◌≤◌, ◌<◌, ◌≡◌, ◌≢◌, ◌⊎◌, refl, inl, List, [], ◌∷◌,
  ◌++◌, map, All, leb, if◌then◌else◌, length, get_elem?, some,
}
use sallocator.Bits.{round_up}
use sallocator.Os.{Kind, Region, region, Os}
use sallocator.Os.Owned.{Owns}
use sallocator.Stellatus.{
  max_fast_size, size_to_index, World, Run, returns, bad_alloc, fault, num_fast_bins,
  mmap_threshold, max_alloc_size,
}
use sallocator.Stellatus.Sizes.{total_size_of_index}
use sallocator.Stellatus.Chains.{Free, Chain, bin_chunks, free_chunk, drop_first}

abbrev pub kind_of : ℕ → Kind
kind_of size = if leb mmap_threshold size then Kind.pages else Kind.heap

-- The region behind a block: the header and the bytes up to the next multiple of 16.
abbrev pub block_region : Block → Region
block_region b = region (kind_of b.size) (b.ptr - 16) (round_up 16 (b.size + 16))

-- A chunk of bin `i` has a header and `16 * (i + 1)` bytes.
abbrev pub free_region : Free → Region
free_region f = region Kind.heap f.chunk (16 * (f.bin + 2))

abbrev pub owned : List Free → List Block → List Region → List Region
owned free used others = map free_region free ++ (map block_region used ++ others)

-- What a client may rely on for one block.
pub record IsBlock (b : Block) : Type 0 where
  pub size_pos : 0 < b.size
  pub size_le : b.size ≤ max_alloc_size
  pub above_header : 16 < b.ptr
  pub aligned : b.ptr % 16 ≡ 0

pub record IsFree (f : Free) : Type 0 where
  pub bin_lt : f.bin < num_fast_bins
  pub chunk_pos : 0 < f.chunk
  pub chunk_aligned : f.chunk % 16 ≡ 0

pub record Inv (o : Os) (w : World o) (free : List Free) (used : List Block) (others : List Region)
    : Type 0 where
  pub bins : (t : ℕ) → length (w.arenas t).fastbins ≡ num_fast_bins
  pub chains :
      (t i head : ℕ)
      → get_elem? (w.arenas t).fastbins i ≡ some head
      → Chain w.cells head (bin_chunks t i free)
  pub owns : Owns (o.live w.os) (owned free used others)
  pub blocks : All IsBlock used
  pub frees : All IsFree free

-- What an allocation of `size` bytes may do: return a new block, or throw and change nothing of
-- what is owned. It never runs into undefined behaviour.
module _ (o : Os) (free : List Free) (used : List Block) (others : List Region) where
  abbrev pub Allocates : ℕ → Run (World o) ℕ → Type 0
  Allocates size (returns p w') = (free' : List Free) × Inv o w' free' (block p size ∷ used) others
  Allocates size (bad_alloc w') = Inv o w' free used others
  Allocates size fault = ⊥

-- Where the block comes from the system, the free chunks stay as they are.
module _ (o : Os) (free : List Free) (used : List Block) (others : List Region) where
  abbrev pub AllocatesNew : ℕ → Run (World o) ℕ → Type 0
  AllocatesNew size (returns p w') = Inv o w' free (block p size ∷ used) others
  AllocatesNew size (bad_alloc w') = Inv o w' free used others
  AllocatesNew size fault = ⊥

-- The free chunks after an allocation on the arena of `t`: the first chunk of the bin is gone, or
-- none is, if there is no bin for the size or the bin is empty.
abbrev pub Takes : ℕ → ℕ → (before after : List Free) → Type 0
Takes t size before after =
    ((after ≡ before) × ((max_fast_size < size) ⊎ (bin_chunks t (size_to_index size) before ≡ [])))
    ⊎ ((after ≡ drop_first t (size_to_index size) before)
        × (size ≤ max_fast_size)
        × (bin_chunks t (size_to_index size) before ≢ []))

module _ (o : Os) (free : List Free) (used : List Block) (others : List Region) where
  abbrev pub AllocatesFrom : ℕ → ℕ → Run (World o) ℕ → Type 0
  AllocatesFrom t size (returns p w') =
      (free' : List Free) × Inv o w' free' (block p size ∷ used) others × Takes t size free free'
  AllocatesFrom t size (bad_alloc w') = Inv o w' free used others
  AllocatesFrom t size fault = ⊥

  pub AllocatesFrom-Allocates :
      (t size : ℕ) (r : Run (World o) ℕ)
      → AllocatesFrom t size r
      → Allocates o free used others size r
  AllocatesFrom-Allocates t size (returns p w') (free', v, takes) = (free', v)
  AllocatesFrom-Allocates t size (bad_alloc w') v = v
  AllocatesFrom-Allocates t size fault h = h

  pub AllocatesNew-From :
      (t size : ℕ) (r : Run (World o) ℕ)
      → (max_fast_size < size) ⊎ (bin_chunks t (size_to_index size) free ≡ [])
      → AllocatesNew o free used others size r
      → AllocatesFrom t size r
  AllocatesNew-From t size (returns p w') none v = (free, v, inl (refl, none))
  AllocatesNew-From t size (bad_alloc w') none v = v
  AllocatesNew-From t size fault none h = h

-- A small block is a chunk of the bin of its size.
pub block_region_small :
    (p size : ℕ)
    → 0 < size
    → size ≤ max_fast_size
    → block_region (block p size) ≡ region Kind.heap (p - 16) (16 * (size_to_index size + 2))
block_region_small p size pos le =
    let small : leb mmap_threshold size ≡ false = ground arith in
    rw (small, total_size_of_index size pos le)

-- Giving a block of the list `xs ++ b ∷ ys` back takes that block out of the list, and nothing else
-- can happen.
module _ (o : Os) (left : List Block) (others : List Region) where
  abbrev pub Deallocates : Run (World o) (Unit {0}) → Type 0
  Deallocates (returns _ w') = (free' : List Free) × Inv o w' free' left others
  Deallocates (bad_alloc w') = ⊥
  Deallocates fault = ⊥

-- The free chunks after a deallocation on the arena of `t`.
abbrev pub with_freed : ℕ → Block → List Free → List Free
with_freed t b free =
    if leb b.size max_fast_size
    then free_chunk t (size_to_index b.size) (b.ptr - 16) ∷ free
    else free

module _ (o : Os) (left : List Block) (others : List Region) where
  abbrev pub DeallocatesTo : List Free → Run (World o) (Unit {0}) → Type 0
  DeallocatesTo free' (returns _ w') = Inv o w' free' left others
  DeallocatesTo free' (bad_alloc w') = ⊥
  DeallocatesTo free' fault = ⊥

  pub DeallocatesTo-Deallocates :
      (free' : List Free) (r : Run (World o) (Unit {0}))
      → DeallocatesTo free' r
      → Deallocates o left others r
  DeallocatesTo-Deallocates free' (returns u w') v = (free', v)
  DeallocatesTo-Deallocates free' (bad_alloc w') h = h
  DeallocatesTo-Deallocates free' fault h = h

-- The region of a block in the middle of the list, brought to the front.
pub owned-middle :
    (free : List Free) (xs ys : List Block) (others : List Region) (b : Block)
    → Perm (owned free (xs ++ b ∷ ys) others) (block_region b ∷ owned free (xs ++ ys) others)
owned-middle free xs ys others b =
    Perm.trans
      (Perm.append_left (map free_region free)
        (Perm.append_right others (Perm.map block_region (perm_middle xs ys))))
      (perm_middle (map free_region free) (map block_region (xs ++ ys) ++ others))
