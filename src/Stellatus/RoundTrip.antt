-- ===== src/Stellatus/RoundTrip.antt =====
-- What `allocate` and `deallocate` of include/SAllocator.hpp do on the fast path, whatever the
-- state: the last block freed is the next one of its class, and the size 0 has no bin.
use sallocator.Base.{
  ℕ, zero, suc, ◌+◌, ◌-◌, ◌^◌, ◌≤◌, ◌<◌, ◌≡◌, ◌≢◌, refl, ap, ◌∙◌, true, false, List, [], ◌∷◌, arith,
  ltb, leb, ◌==◌, get_elem?, get_elem?-none, get_elem?-is_some, get_elem?-set_self, set, some, none,
  length,
}
use sallocator.Os.{Os, Platform}
use sallocator.Stellatus.{
  World, Arena, returns, fault, max_fast_size, max_alloc_size, num_fast_bins, size_to_index,
  set_bin, write_chunk, allocate, deallocate,
}
use sallocator.Stellatus.Sizes.{size_to_index_bounds, size_to_index-zero}

module _ {A : Type 0} where
  set-set_back :
      (xs : List A) (i : ℕ) (v h : A) → get_elem? xs i ≡ some h → set (set xs i v) i h ≡ xs
  set-set_back [] i v h e = refl
  set-set_back (x ∷ xs) zero v h e = ground arith
  set-set_back (x ∷ xs) (suc i) v h e = ap (◌∷◌ x) (set-set_back xs i v h e)

set_bin-set_bin :
    (t idx head c : ℕ) (arenas : ℕ → Arena) (u : ℕ)
    → get_elem? (arenas t).fastbins idx ≡ some head
    → set_bin t idx head (set_bin t idx c arenas) u ≡ arenas u
unfolding set_bin
set_bin-set_bin t idx head c arenas u e =
    ground (arith, set-set_back (arenas t).fastbins idx c head e)

set_bin_self :
    (t idx c : ℕ) (arenas : ℕ → Arena)
    → idx < length (arenas t).fastbins
    → get_elem? (set_bin t idx c arenas t).fastbins idx ≡ some c
unfolding set_bin
set_bin_self t idx c arenas lt = ground (arith, get_elem?-set_self (arenas t).fastbins idx c lt)

module _ {o : Os} (platform : Platform) (w : World o) (t : ℕ) where
  -- The state after `deallocate` on the fast path, and after `allocate`.
  abbrev freed : ℕ → ℕ → ℕ → World o
  freed idx chunk head = record w {
    cells = write_chunk chunk (record (w.cells chunk) { next = head }) w.cells;
    arenas = set_bin t idx chunk w.arenas;
  }

  abbrev taken : ℕ → ℕ → World o
  taken idx chunk = record w { arenas = set_bin t idx (w.cells chunk).next w.arenas }

  deallocate_fast :
      (p size idx head : ℕ)
      → 16 < p
      → size ≤ max_fast_size
      → size_to_index size ≡ idx
      → get_elem? (w.arenas t).fastbins idx ≡ some head
      → deallocate o platform t p size w ≡ returns tt (freed idx (p - 16) head)
  unfolding deallocate
  deallocate_fast p size idx head nonnull le class at =
      let live : (p == 0) ≡ false = ground arith in
      let fast : leb size max_fast_size ≡ true = ground arith in rw (live, fast, class, at, class)

  allocate_fast :
      (size idx c : ℕ)
      → size ≤ max_fast_size
      → c ≢ 0
      → size_to_index size ≡ idx
      → get_elem? (w.arenas t).fastbins idx ≡ some c
      → allocate o platform t size w ≡ returns (c + 16) (taken idx c)
  unfolding allocate
  allocate_fast size idx c le ne class at =
      let fits : ltb max_alloc_size size ≡ false = ground arith in
      let fast : leb size max_fast_size ≡ true = ground arith in
      let full : (c == 0) ≡ false = ground arith in rw (fits, fast, class, at, full, class)

module _ {o : Os} (platform : Platform) (w : World o) (t : ℕ) where
  -- On an arena with all its bins, freeing a pointer above 16 with a size from 1 to MAX_FAST_SIZE
  -- and then asking for a size of at most MAX_FAST_SIZE of the same class gives the same pointer
  -- back, and every bin of every arena is as before.
  pub allocate-deallocate :
      (p size size' : ℕ)
      → length (w.arenas t).fastbins ≡ num_fast_bins
      → 16 < p
      → 0 < size
      → size ≤ max_fast_size
      → size' ≤ max_fast_size
      → size_to_index size' ≡ size_to_index size
      → (w₁ : World o) × (w₂ : World o) × (deallocate o platform t p size w ≡ returns tt w₁)
        × (allocate o platform t size' w₁ ≡ returns p w₂)
        × ((u : ℕ) → w₂.arenas u ≡ w.arenas u)
  allocate-deallocate p size size' full nonnull pos le le' class =
      let idx = size_to_index size in
      let lt : idx < length (w.arenas t).fastbins =
        omega (arith, full, size_to_index_bounds size pos le) in
      let (head, at) = get_elem?-is_some (w.arenas t).fastbins idx lt in
      let w₁ : World o = freed platform w t idx (p - 16) head in
      let next : (w₁.cells (p - 16)).next ≡ head = unfold write_chunk in ground arith in
      let top = set_bin_self t idx (p - 16) w.arenas lt in
      (
        w₁,
        taken platform w₁ t idx (p - 16),
        deallocate_fast platform w t p size idx head nonnull le refl at,
        allocate_fast platform w₁ t size' idx (p - 16) le' (omega arith) class top
            ∙ ap (λ q. returns q (taken platform w₁ t idx (p - 16))) {y = p} (omega arith),
        λ u. rw next (set_bin-set_bin t idx head (p - 16) w.arenas u at),
      )

  -- On arenas with all their bins, allocate of the size 0 and deallocate of a non-null pointer
  -- with the size 0 index the bins out of range.
  pub zero_size_faults :
      length (w.arenas t).fastbins ≡ num_fast_bins
      → (allocate o platform t 0 w ≡ fault)
        × ((p : ℕ) → p ≢ 0 → deallocate o platform t p 0 w ≡ fault)
  unfolding allocate deallocate
  zero_size_faults full =
      let none_there : get_elem? (w.arenas t).fastbins (size_to_index 0) ≡ none =
        rw size_to_index-zero
          (get_elem?-none (w.arenas t).fastbins (2 ^ 64 - 1) (rw full (omega arith))) in
      (rw none_there, λ p ne. let live : (p == 0) ≡ false = ground arith in rw (live, none_there))
