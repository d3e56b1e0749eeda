-- ===== src/Stellatus/New.antt =====
-- `allocate` where the block comes from the system.
use mathlib.Core.List.{mem-append_left, mem-map_of_mem}
use mathlib.Core.List.{perm_middle}
use mathlib.Core.List.Perm
use sallocator.Base.{
  ℕ, ◌+◌, ◌-◌, ◌%◌, ◌≤◌, ◌<◌, ◌≡◌, ap, sym, subst, inl, inr, true, false, List, ◌∷◌, map, Mem, Perm,
  arith, leb, ltb, ◌==◌, Bool-cases,
}
use sallocator.Bits.{round_up, round_up_bounds, IsPow2-mod, IsPow2}
use sallocator.Os.{
  Kind, Region, region, Os, Apart, ApartFrom, IsLawful, Grants, Granted, win32, posix, Platform,
  map_failed,
}
use sallocator.Os.Owned.{Owns-add, Owns-perm}
use sallocator.Stellatus.{
  Cells, World, memset_zero, write_chunk, page_block, os_alloc, new_chunk, from_pages, from_heap,
  allocate_new, max_alloc_size, mmap_threshold,
}
use sallocator.Stellatus.Sizes.{sixteen-IsPow2, total_size_eq}
use sallocator.Stellatus.Chains.{Free, Chain-frame}
use sallocator.Stellatus.Invariant.{
  Block, block, kind_of, block_region, free_region, owned, IsBlock, Inv, AllocatesNew,
}

-- The block that a new region becomes.
pub owned-new_block :
    (free : List Free) (used : List Block) (others : List Region) (b : Block)
    → Perm (block_region b ∷ owned free used others) (owned free (b ∷ used) others)
owned-new_block free used others b = Perm.symm (perm_middle (map free_region free) _)

module _ {o : Os} {w : World o} {free : List Free} {used : List Block} {others : List Region}
    (v : Inv o w free used others) where
  -- A region that is apart from all that is allocated holds no free chunk.
  pub Apart-of_free :
      (r : Region) → ApartFrom r (o.live w.os) → (f : Free) → Mem f free → Apart r (free_region f)
  Apart-of_free r apart f m =
      apart (free_region f)
        ((Perm.mem_iff v.owns.same).1 (mem-append_left _ (mem-map_of_mem free_region m)))

  -- A new region becomes a block; memory changes in that region only.
  pub Inv-new_block :
      (b : Block) (s : o.State) (cells : Cells)
      → IsBlock b
      → o.live s ≡ block_region b ∷ o.live w.os
      → ApartFrom (block_region b) (o.live w.os)
      → ((a : ℕ) → Apart (block_region b) (region Kind.heap a 16) → cells a ≡ w.cells a)
      → Inv o (record w { os = s; cells = cells }) free (b ∷ used) others
  Inv-new_block b s cells ok added apart spared = record {
    bins = v.bins;
    chains = λ t i head e.
        Chain-frame t i w.cells cells head free
          (λ f m.
            ap (λ c. c.next)
              (spared f.chunk (ground (arith, Apart-of_free (block_region b) apart f m))))
          (v.chains t i head e);
    owns =
        Owns-perm (owned-new_block free used others b)
          (Owns-add (block_region b) added apart v.owns);
    blocks = (ok, v.blocks);
    frees = v.frees;
  }

  -- A failed call of the system changes nothing.
  pub Inv-refused :
      (s : o.State) → o.live s ≡ o.live w.os → Inv o (record w { os = s }) free used others
  Inv-refused s same = record {
    bins = v.bins;
    chains = v.chains;
    owns = rw same v.owns;
    blocks = v.blocks;
    frees = v.frees;
  }

  block_region_eq :
      (raw size : ℕ)
      → block_region (block (raw + 16) size) ≡ region (kind_of size) raw (round_up 16 (size + 16))
  block_region_eq raw size =
      ap (λ p. region (kind_of size) p (round_up 16 (size + 16))) {x = raw + 16 - 16} (omega arith)

  module _ (size : ℕ) (pos : 0 < size) (le : size ≤ max_alloc_size) where
    -- The block is zeroed, and its header is written.
    pub new_chunk-AllocatesNew :
        (fail align : ℕ) (r : ℕ × o.State)
        → Granted o fail (kind_of size) align (round_up 16 (size + 16)) w.os r
        → r.0 % 16 ≡ 0
        → AllocatesNew o free used others size (
            new_chunk o r.0 size
              (record w { os = r.1; cells = memset_zero r.0 (round_up 16 (size + 16)) w.cells }))
    unfolding new_chunk write_chunk memset_zero
    new_chunk-AllocatesNew fail align r g al =
        Inv-new_block (block (r.0 + 16) size) r.1 _
          (record {
            size_pos = pos;
            size_le = le;
            above_header = omega (arith, g.positive);
            aligned = omega (arith, al);
          })
          (rw (block_region_eq r.0 size) g.added)
          (subst (λ q. ApartFrom q (o.live w.os)) (sym (block_region_eq r.0 size)) g.apart)
          (λ a apart. ground (arith, round_up_bounds sixteen-IsPow2 (size + 16)))

    from_heap-AllocatesNew :
        (r : ℕ × o.State)
        → ltb size mmap_threshold ≡ true
        → Grants o 0 Kind.heap 16 (round_up 16 (size + 16)) w.os r
        → AllocatesNew o free used others size (from_heap o size (round_up 16 (size + 16)) w r)
    unfolding from_heap
    from_heap-AllocatesNew r small (inl g) = rw g.fails (Inv-refused r.1 g.same)
    from_heap-AllocatesNew r small (inr g) =
        let some_block : (r.0 == 0) ≡ false = ground (arith, g.succeeds) in
        let kind : kind_of size ≡ Kind.heap = ground arith in
        rw some_block (new_chunk-AllocatesNew 0 16 r (rw kind g) g.aligns)

    from_pages-AllocatesNew :
        (fail : ℕ) {a : ℕ} (r : ℕ × o.State)
        → leb mmap_threshold size ≡ true
        → IsPow2 a
        → 16 ≤ a
        → Grants o fail Kind.pages a (round_up 16 (size + 16)) w.os r
        → AllocatesNew o free used others size
            (from_pages o size (page_block o fail (round_up 16 (size + 16)) w r))
    unfolding from_pages page_block
    from_pages-AllocatesNew fail r big al header (inl g) =
        let failed : (r.0 == fail) ≡ true = ground (arith, g.fails) in
        rw failed (Inv-refused r.1 g.same)
    from_pages-AllocatesNew fail {a} r big al header (inr g) =
        let mapped : (r.0 == fail) ≡ false = ground (arith, g.succeeds) in
        let nonnull : (r.0 == 0) ≡ false = ground (arith, g.positive) in
        let kind : kind_of size ≡ Kind.pages = ground arith in
        rw (mapped, nonnull)
          (new_chunk-AllocatesNew fail a r (rw kind g)
            (IsPow2-mod al sixteen-IsPow2 r.0 header g.aligns))

    total_pos : 0 < round_up 16 (size + 16)
    total_pos = omega (arith, round_up_bounds sixteen-IsPow2 (size + 16))

    os_alloc-AllocatesNew :
        (platform : Platform)
        → leb mmap_threshold size ≡ true
        → IsLawful o
        → AllocatesNew o free used others size
            (from_pages o size (os_alloc o platform (round_up 16 (size + 16)) w))
    unfolding os_alloc
    os_alloc-AllocatesNew win32 big law =
        from_pages-AllocatesNew 0 (o.virtual_alloc false (round_up 16 (size + 16)) w.os) big
          law.granularity_pow2 (omega (arith, law.page_size_holds_header, law.page_size_le))
          (law.virtual_alloc_law false _ w.os total_pos)
    os_alloc-AllocatesNew posix big law =
        from_pages-AllocatesNew map_failed (o.mmap false (round_up 16 (size + 16)) w.os) big
          law.page_size_pow2 (omega (arith, law.page_size_holds_header))
          (law.mmap_law false _ w.os total_pos)

    -- A block from the page allocator or the heap keeps the invariant.
    pub allocate_new-AllocatesNew :
        (platform : Platform)
        → IsLawful o
        → AllocatesNew o free used others size (allocate_new o platform size w)
    unfolding allocate_new
    allocate_new-AllocatesNew platform law = elim (Bool-cases (leb mmap_threshold size)) [
      | inl big ↦ rw (total_size_eq size le, big) (os_alloc-AllocatesNew platform big law)
      | inr small ↦
          rw (total_size_eq size le, small)
            (from_heap-AllocatesNew (o.malloc (round_up 16 (size + 16)) w.os) (ground arith)
              (law.malloc_law _ w.os total_pos))
    ]
