-- ===== src/Stellatus/Reuse.antt =====
-- The fast path of `allocate`: the first chunk of a bin becomes a block.
use native.Mathlib.Decide.{ℕ_discrete}
use mathlib.Core.List.Perm
use sallocator.Base.{
  ℕ, ◌+◌, ◌*◌, ◌≤◌, ◌<◌, ◌≡◌, ◌≢◌, ◌⊎◌, refl, ap, sym, ◌∙◌, inl, inr, List, [], ◌∷◌, Perm, arith,
  length, get_elem?, length-set, get_elem?-set_self, get_elem?-set_ne, some,
}
use sallocator.Os.{Kind, Region, region, Os}
use sallocator.Os.Owned.{Owns-perm}
use sallocator.Stellatus.{World, Arena, set_bin, num_fast_bins, max_fast_size, size_to_index}
use sallocator.Stellatus.Sizes.{size_to_index_bounds}
use sallocator.Stellatus.Chains.{
  Free, Chain, bin_chunks, drop_first, First, bin_chunks-First, free_chunk, All-first,
  All-drop_first, bin_chunks-drop_first,
}
use sallocator.Stellatus.Invariant.{
  Block, block, block_region, free_region, owned, IsBlock, IsFree, Inv, block_region_small,
}
use sallocator.Stellatus.New.{owned-new_block}

module _ (t idx head : ℕ) (arenas : ℕ → Arena) where
  pub length-set_bin :
      (u : ℕ) → length (set_bin t idx head arenas u).fastbins ≡ length (arenas u).fastbins
  unfolding set_bin
  length-set_bin u = ground (arith, length-set (arenas t).fastbins idx head)

  -- What a bin holds after the write.
  pub set_bin-cases :
      (u j h : ℕ)
      → idx < length (arenas t).fastbins
      → get_elem? (set_bin t idx head arenas u).fastbins j ≡ some h
      → ((u ≡ t) × (j ≡ idx) × (h ≡ head))
        ⊎ (((u ≢ t) ⊎ (j ≢ idx)) × (get_elem? (arenas u).fastbins j ≡ some h))
  unfolding set_bin
  set_bin-cases u j h lt e = elim (ℕ_discrete u t) [
    | no n ↦ inr (inl n, ground arith)
    | yes p ↦ elim (ℕ_discrete j idx) [
      | no n ↦
          inr (
            inr n,
            ground (arith, get_elem?-set_ne (arenas t).fastbins idx j head (λ q. n (sym q))),
          )
      | yes q ↦ inl (p, q, ground (arith, get_elem?-set_self (arenas t).fastbins idx head lt))
    ]
  ]

module _ {o : Os} {w : World o} {free : List Free} {used : List Block} {others : List Region}
    (v : Inv o w free used others) where
  -- Taking the first chunk of a bin off, for a block of that size.
  Inv-taken :
      (t idx c : ℕ) (cs : List ℕ) (size : ℕ)
      → get_elem? (w.arenas t).fastbins idx ≡ some c
      → bin_chunks t idx free ≡ c ∷ cs
      → Chain w.cells (w.cells c).next cs
      → IsBlock (block (c + 16) size)
      → idx < num_fast_bins
      → block_region (block (c + 16) size) ≡ region Kind.heap c (16 * (idx + 2))
      → Inv o
          (record w { arenas = set_bin t idx (w.cells c).next w.arenas })
          (drop_first t idx free)
          (block (c + 16) size ∷ used)
          others
  Inv-taken t idx c cs size head front chain ok lt same = record {
    bins = λ u. length-set_bin t idx (w.cells c).next w.arenas u ∙ v.bins u;
    chains = λ u j h e.
        elim (set_bin-cases t idx (w.cells c).next w.arenas u j h (rw (v.bins t) lt) e) [
          | inl (p, q, r) ↦ rw (p, q, r, first.left) chain
          | inr (ne, old) ↦ rw (bin_chunks-drop_first t idx u j free ne) (v.chains u j h old)
        ];
    owns =
        Owns-perm (Perm.trans moved (owned-new_block (drop_first t idx free) used others _)) v.owns;
    blocks = (ok, v.blocks);
    frees = All-drop_first t idx IsFree free v.frees;
  }
    where
      first : First t idx free c cs
      first = bin_chunks-First t idx free c cs front

      region_eq : free_region (free_chunk t idx c) ≡ block_region (block (c + 16) size)
      region_eq = sym same

      moved :
          Perm
            (owned free used others)
            (block_region (block (c + 16) size) ∷ owned (drop_first t idx free) used others)
      moved = rw (← region_eq) (Perm.append_right _ (Perm.map free_region first.splits))

  -- A bin whose head is not null serves a block of its size.
  pub Inv-reuse :
      (t idx c : ℕ) (size : ℕ)
      → get_elem? (w.arenas t).fastbins idx ≡ some c
      → c ≢ 0
      → 0 < size
      → size ≤ max_fast_size
      → size_to_index size ≡ idx
      → Inv o
          (record w { arenas = set_bin t idx (w.cells c).next w.arenas })
          (drop_first t idx free)
          (block (c + 16) size ∷ used)
          others
  Inv-reuse t idx c size head ne pos le class = go (bin_chunks t idx free) refl
    where
      fits : idx < num_fast_bins
      fits = omega (arith, size_to_index_bounds size pos le)

      go :
          (cs : List ℕ)
          → bin_chunks t idx free ≡ cs
          → Inv o
              (record w { arenas = set_bin t idx (w.cells c).next w.arenas })
              (drop_first t idx free)
              (block (c + 16) size ∷ used)
              others
      go [] e = let k : Chain w.cells c [] = rw e at (v.chains t idx c head) in absurd (ne k)
      go (d ∷ cs) e =
          let k : Chain w.cells c (d ∷ cs) = rw e at (v.chains t idx c head) in
          let front : bin_chunks t idx free ≡ c ∷ cs = rw (k.0) e in
          let known = All-first t idx IsFree free c cs front v.frees in
          Inv-taken t idx c cs size head front (rw k.0 k.2)
            (record {
              size_pos = pos;
              size_le = omega arith;
              above_header = omega (arith, known.chunk_pos);
              aligned = omega (arith, known.chunk_aligned);
            })
            fits
            (block_region_small (c + 16) size pos le
              ∙ ap (λ p. region Kind.heap p (16 * (size_to_index size + 2))) {y = c} (omega arith)
              ∙ ap (λ i. region Kind.heap c (16 * (i + 2))) class)
