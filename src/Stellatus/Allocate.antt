-- ===== src/Stellatus/Allocate.antt =====
-- `Arena::allocate` and `SAllocator::allocate` keep the invariant and return blocks of their own.
use native.Mathlib.Nat.{mod-eq_of_lt}
use sallocator.Base.{
  ◌∷◌, mul64, ℕ, ◌*◌, ◌^◌, ◌≤◌, ◌<◌, ◌≡◌, refl, ◌≢◌, inl, inr, List, [], get_elem?, some, arith,
  ltb, leb, ◌==◌, Bool-cases, get_elem?-is_some,
}
use sallocator.Os.{Region, Os, Platform, IsLawful}
use sallocator.Stellatus.{
  World, returns, max_fast_size, max_alloc_size, size_to_index, allocate, allocate_n,
}
use sallocator.Stellatus.Sizes.{size_to_index_bounds}
use sallocator.Stellatus.Chains.{Free, Chain, bin_chunks, drop_first}
use sallocator.Stellatus.Invariant.{
  Block, block, Inv, Allocates, AllocatesFrom, AllocatesFrom-Allocates, AllocatesNew-From,
}
use sallocator.Stellatus.New.{allocate_new-AllocatesNew}
use sallocator.Stellatus.Reuse.{Inv-reuse}

module _ {o : Os} {w : World o} {free : List Free} {used : List Block} {others : List Region}
    (platform : Platform) (law : IsLawful o) (v : Inv o w free used others) where
  -- A bin whose head is null is empty.
  empty_bin :
      (t i c : ℕ) → get_elem? (w.arenas t).fastbins i ≡ some c → c ≡ 0 → bin_chunks t i free ≡ []
  empty_bin t i c head null = go (bin_chunks t i free) refl
    where
      go : (cs : List ℕ) → bin_chunks t i free ≡ cs → bin_chunks t i free ≡ []
      go [] e = e
      go (d ∷ cs) e =
          let k : Chain w.cells c (d ∷ cs) = rw e at (v.chains t i c head) in
          absurd (omega (arith, k.0, k.1, null))

  full_bin :
      (t i c : ℕ) → get_elem? (w.arenas t).fastbins i ≡ some c → c ≢ 0 → bin_chunks t i free ≢ []
  full_bin t i c head live e = let k : Chain w.cells c [] = rw e at (v.chains t i c head) in live k

  pub allocate-AllocatesFrom :
      (t size : ℕ)
      → 0 < size
      → AllocatesFrom o free used others t size (allocate o platform t size w)
  unfolding allocate
  allocate-AllocatesFrom t size pos = elim (Bool-cases (ltb max_alloc_size size)) [
    | inl over ↦ rw over v
    | inr fits ↦ elim (Bool-cases (leb size max_fast_size)) [
      | inr slow ↦
          rw (fits, slow)
            (AllocatesNew-From o free used others t size _ (inl (ground arith))
              (allocate_new-AllocatesNew v size pos (ground arith) platform law))
      | inl fast ↦
          let le : size ≤ max_fast_size = ground arith in
          let (c, head) =
            get_elem?-is_some (w.arenas t).fastbins (size_to_index size)
              (omega (arith, v.bins t, size_to_index_bounds size pos le)) in
          rw (fits, fast, head)
            (elim (Bool-cases (c == 0)) [
              | inl empty ↦ rw empty (
                  AllocatesNew-From o free used others t size _
                    (inr (empty_bin t (size_to_index size) c head (ground arith)))
                    (allocate_new-AllocatesNew v size pos (ground arith) platform law))
              | inr full ↦ rw full (
                drop_first t (size_to_index size) free,
                Inv-reuse v t (size_to_index size) c size head (ground arith) pos le refl,
                inr (refl, le, full_bin t (size_to_index size) c head (ground arith)),
              )
            ])
    ]
  ]

  -- From a state that satisfies the invariant, Arena::allocate of a size that is not 0 on the
  -- arena of any thread returns a block of its own and keeps the invariant of all arenas, or
  -- throws std::bad_alloc and leaves what is owned as it was; it never runs into undefined
  -- behaviour.
  pub allocate-Allocates :
      (t size : ℕ) → 0 < size → Allocates o free used others size (allocate o platform t size w)
  allocate-Allocates t size pos =
      AllocatesFrom-Allocates o free used others t size _ (allocate-AllocatesFrom t size pos)

  -- From a state that satisfies the invariant, SAllocator::allocate(n) allocates n * sizeof(T)
  -- bytes, or throws std::bad_alloc and leaves what is owned as it was, if this product is not 0
  -- and fits 64 bits.
  pub allocate_n-Allocates :
      (sizeof_t t n : ℕ)
      → 0 < n * sizeof_t
      → n * sizeof_t < 2 ^ 64
      → Allocates o free used others (n * sizeof_t) (allocate_n o platform sizeof_t t n w)
  unfolding allocate_n
  allocate_n-Allocates sizeof_t t n pos fits =
      let exact : mul64 n sizeof_t ≡ n * sizeof_t = mod-eq_of_lt fits in
      rw exact (allocate-Allocates t (n * sizeof_t) pos)

  -- From a state that satisfies the invariant, if n * sizeof(T) does not fit 64 bits and does not
  -- wrap to 0, a SAllocator::allocate(n) that returns gives a block of fewer bytes than the n
  -- objects need.
  pub allocate_n_wraps :
      (sizeof_t t n p : ℕ) {w' : World o}
      → 2 ^ 64 ≤ n * sizeof_t
      → 0 < mul64 n sizeof_t
      → allocate_n o platform sizeof_t t n w ≡ returns p w'
      → (free' : List Free) × Inv o w' free' (block p (mul64 n sizeof_t) ∷ used) others
        × (mul64 n sizeof_t < n * sizeof_t)
  unfolding allocate_n
  allocate_n_wraps sizeof_t t n p {w'} over pos e =
      let (free', inv) = wrapped in (free', inv, omega arith)
    where
      wrapped : Allocates o free used others (mul64 n sizeof_t) (returns p w')
      wrapped = rw e at (allocate-Allocates t (mul64 n sizeof_t) pos)
