-- ===== src/Stellatus/Deallocate.antt =====
-- `Arena::deallocate` of a block that a client holds.
use mathlib.Core.List.{mem-append_left, mem-map_of_mem}
use mathlib.Core.List.Perm
use sallocator.Base.{
  ℕ, ◌+◌, ◌-◌, ◌≤◌, ◌<◌, ◌≡◌, ◌≢◌, ◌∙◌, inl, inr, true, false, List, ◌∷◌, ◌++◌, Mem, All-middle,
  arith, leb, ◌==◌, Bool-cases, get_elem?, get_elem?-is_some, some,
}
use sallocator.Bits.{round_up}
use sallocator.Os.{Region, Os, Platform, win32, posix, IsLawful}
use sallocator.Os.Owned.{Owns, Owns-perm, Owns-apart, Owns-release}
use sallocator.Stellatus.{
  Cells, World, max_fast_size, mmap_threshold, num_fast_bins, size_to_index, set_bin, write_chunk,
  os_free, deallocate,
}
use sallocator.Stellatus.Sizes.{size_to_index_bounds, total_size_eq}
use sallocator.Stellatus.Chains.{Free, free_chunk, in_bin, bin_chunks, Chain, Chain-frame}
use sallocator.Stellatus.Invariant.{
  Block, block, block_region, free_region, owned, IsBlock, Inv, Deallocates, DeallocatesTo,
  DeallocatesTo-Deallocates, with_freed, owned-middle, block_region_small,
}
use sallocator.Stellatus.Reuse.{length-set_bin, set_bin-cases}

module _ {o : Os} {w : World o} {free : List Free} (xs ys : List Block) {others : List Region}
    (p size : ℕ) (v : Inv o w free (xs ++ block p size ∷ ys) others) where
  given : IsBlock (block p size)
  given = (All-middle IsBlock xs ys (block p size) v.blocks).0

  Owns-block : Owns (o.live w.os) (block_region (block p size) ∷ owned free (xs ++ ys) others)
  Owns-block = Owns-perm (owned-middle free xs ys others (block p size)) v.owns

  -- No free chunk begins at the block's header.
  chunk_ne : (f : Free) → Mem f free → f.chunk ≢ p - 16
  chunk_ne f m = ground (
    arith,
    Owns-apart Owns-block (free_region f) (mem-append_left _ (mem-map_of_mem free_region m)),
  )

  -- The block becomes the first chunk of its bin.
  Inv-freed :
      (t head : ℕ)
      → size ≤ max_fast_size
      → get_elem? (w.arenas t).fastbins (size_to_index size) ≡ some head
      → Inv o
          (record w {
            cells = write_chunk (p - 16) (record (w.cells (p - 16)) { next = head }) w.cells;
            arenas = set_bin t (size_to_index size) (p - 16) w.arenas;
          })
          (free_chunk t (size_to_index size) (p - 16) ∷ free)
          (xs ++ ys)
          others
  Inv-freed t head le at = record {
    bins = λ u. length-set_bin t (size_to_index size) (p - 16) w.arenas u ∙ v.bins u;
    chains = λ u j h e.
        elim (set_bin-cases t (size_to_index size) (p - 16) w.arenas u j h
          (omega (arith, v.bins t, bounds)) e) [
            | inl (a, b, c) ↦
                let hit : in_bin u j (free_chunk t (size_to_index size) (p - 16)) ≡ true =
                  ground arith in
                rw hit (
                  c,
                  omega (arith, given.above_header),
                  rw next (framed u j head (v.chains u j head (rw (a, b) at))),
                )
            | inr (ne, old) ↦
                let miss : in_bin u j (free_chunk t (size_to_index size) (p - 16)) ≡ false =
                  ground arith in
                rw miss (framed u j h (v.chains u j h old))
          ];
    owns = Owns-perm (rw (block_region_small p size given.size_pos le) (Perm.refl _)) Owns-block;
    blocks = (All-middle IsBlock xs ys (block p size) v.blocks).1;
    frees = (
      record {
        bin_lt = omega (arith, bounds);
        chunk_pos = omega (arith, given.above_header);
        chunk_aligned = omega (arith, given.above_header, given.aligned);
      },
      v.frees,
    );
  }
    where
      written : Cells
      written = write_chunk (p - 16) (record (w.cells (p - 16)) { next = head }) w.cells

      next : (written (p - 16)).next ≡ head
      next = unfold write_chunk in ground arith

      framed :
          (u j h : ℕ)
          → Chain w.cells h (bin_chunks u j free)
          → Chain written h (bin_chunks u j free)
      framed u j h =
          Chain-frame u j w.cells written h free
            (λ f m. unfold write_chunk in ground (arith, chunk_ne f m))

      bounds : (size_to_index size < num_fast_bins) × Unit {0}
      bounds = ((size_to_index_bounds size given.size_pos le).0, tt)

  -- `free`, `munmap` or `VirtualFree` takes the block away, and nothing else.
  Inv-released :
      (s : o.State)
      → Owns (o.live s) (owned free (xs ++ ys) others)
      → Inv o (record w { os = s }) free (xs ++ ys) others
  Inv-released s owns = record {
    bins = v.bins;
    chains = v.chains;
    owns = owns;
    blocks = (All-middle IsBlock xs ys (block p size) v.blocks).1;
    frees = v.frees;
  }

  os_free-Inv :
      (platform : Platform)
      → IsLawful o
      → leb mmap_threshold size ≡ true
      → Inv o (os_free o platform (p - 16) (round_up 16 (size + 16)) w) free (xs ++ ys) others
  unfolding os_free
  os_free-Inv win32 law big =
      Inv-released (o.virtual_free (p - 16) w.os)
        (Owns-release o (law.virtual_free_law (p - 16) _ w.os) (rw big at Owns-block))
  os_free-Inv posix law big =
      Inv-released (o.munmap (p - 16) (round_up 16 (size + 16)) w.os)
        (Owns-release o (law.munmap_law (p - 16) _ w.os) (rw big at Owns-block))

  pub deallocate-DeallocatesTo :
      (platform : Platform)
      → IsLawful o
      → (t : ℕ)
      → DeallocatesTo o
          (xs ++ ys)
          others
          (with_freed t (block p size) free)
          (deallocate o platform t p size w)
  unfolding deallocate
  deallocate-DeallocatesTo platform law t =
      let nonnull : (p == 0) ≡ false = ground (arith, given.above_header) in
      elim (Bool-cases (leb size max_fast_size)) [
        | inl fast ↦
            let le : size ≤ max_fast_size = ground arith in
            let (head, at) =
              get_elem?-is_some (w.arenas t).fastbins (size_to_index size)
                (omega (arith, v.bins t, size_to_index_bounds size given.size_pos le)) in
            rw (nonnull, fast, at) (Inv-freed t head le at)
        | inr slow ↦ elim (Bool-cases (leb mmap_threshold size)) [
          | inl big ↦
              rw (nonnull, slow, total_size_eq size given.size_le, big)
                (os_free-Inv platform law big)
          | inr small ↦
              rw (nonnull, slow, total_size_eq size given.size_le, small)
                (Inv-released (o.free (p - 16) w.os)
                  (Owns-release o (law.free_law (p - 16) _ w.os) (rw small at Owns-block)))
        ]
      ]

  -- From a state that satisfies the invariant, Arena::deallocate of a block in use, with its size
  -- and on the arena of any thread, returns and keeps the invariant of all other blocks.
  pub deallocate-Deallocates :
      (platform : Platform)
      → IsLawful o
      → (t : ℕ) → Deallocates o (xs ++ ys) others (deallocate o platform t p size w)
  deallocate-Deallocates platform law t =
      DeallocatesTo-Deallocates o (xs ++ ys) others _ _ (deallocate-DeallocatesTo platform law t)
