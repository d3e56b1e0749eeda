-- ===== src/Stellatus/History.antt =====
-- Any sequence of calls by any number of threads: what the clients hold never overlaps, and no call
-- runs into undefined behaviour.
use mathlib.Core.List.{Pairwise, append_assoc}
use mathlib.Core.List.Perm
use sallocator.Base.{ℕ, ◌<◌, ◌≡◌, ◌≢◌, refl, List, [], ◌∷◌, ◌++◌, All}
use sallocator.Os.{Region, Os, Platform, IsLawful, Apart}
use sallocator.Stellatus.{
  World, Cells, Run, returns, bad_alloc, fault, empty_arena, num_fast_bins, allocate, deallocate,
  end_thread,
}
use sallocator.Stellatus.Chains.{Free}
use sallocator.Stellatus.Invariant.{Block, block, IsBlock, Inv, Deallocates}
use sallocator.Stellatus.Allocate.{allocate-Allocates}
use sallocator.Stellatus.Deallocate.{deallocate-Deallocates}
use sallocator.Stellatus.ThreadEnd.{without, left_behind, get_elem?-replicate_inv, Inv-end_thread}
use sallocator.Stellatus.Separate.{Separate, OutsideData, Inv-Separate, Inv-write}

module _ (o : Os) (platform : Platform) where
  -- One call of a thread `t`, a write of a client into its blocks, or the end of a thread.
  pub data Step (w : World o) (used : List Block) : World o → List Block → Type 0 where
    allocated :
        (t size p : ℕ) {w' : World o}
        → 0 < size
        → allocate o platform t size w ≡ returns p w'
        → Step w used w' (block p size ∷ used)
    refused :
        (t size : ℕ) {w' : World o}
        → 0 < size
        → allocate o platform t size w ≡ bad_alloc w'
        → Step w used w' used
    deallocated :
        (t : ℕ) (xs ys : List Block) (b : Block) {w' : World o}
        → used ≡ xs ++ b ∷ ys
        → deallocate o platform t b.ptr b.size w ≡ returns tt w'
        → Step w used w' (xs ++ ys)
    written :
        (cells : Cells)
        → ((a : ℕ) → All (OutsideData a) used → cells a ≡ w.cells a)
        → Step w used (record w { cells = cells }) used
    ended : (t : ℕ) → Step w used (end_thread t w) used

  pub data Reach (w : World o) (used : List Block) : World o → List Block → Type 0 where
    here : Reach w used w used
    next :
        {w₁ w₂ : World o} {u₁ u₂ : List Block}
        → Reach w used w₁ u₁
        → Step w₁ u₁ w₂ u₂
        → Reach w used w₂ u₂

  abbrev pub Good : List Region → World o → List Block → Type 0
  Good others w used = (free : List Free) × Inv o w free used others

  -- The invariant beside `others` and what the threads that ended left behind.
  abbrev pub Sound : List Region → World o → List Block → Type 0
  Sound others w used = (left : List Region) × Good (left ++ others) w used

  Step-Sound :
      (law : IsLawful o) (others : List Region) {w w' : World o} {used used' : List Block}
      → Step w used w' used'
      → Sound others w used
      → Sound others w' used'
  Step-Sound law others (allocated t size p pos e) (left, (free, v)) =
      (left, rw e at (allocate-Allocates platform law v t size pos))
  Step-Sound law others (refused t size pos e) (left, (free, v)) =
      (left, (free, rw e at (allocate-Allocates platform law v t size pos)))
  Step-Sound law others (deallocated t xs ys b split e) (left, (free, v)) =
      (left, rw e at (deallocate-Deallocates xs ys b.ptr b.size (rw split at v) platform law t))
  Step-Sound law others (written cells same) (left, (free, v)) =
      (left, (free, Inv-write v cells same))
  Step-Sound law others (ended t) (left, (free, v)) = (
    left_behind t free ++ left,
    (without t free, rw (append_assoc (left_behind t free) left others) (Inv-end_thread t v)),
  )

  pub Reach-Sound :
      (law : IsLawful o) (others : List Region) {w : World o} {used : List Block} {w' : World o}
      {used' : List Block}
      → Reach w used w' used'
      → Sound others w used
      → Sound others w' used'
  Reach-Sound law others here g = g
  Reach-Sound law others (next r s) g = Step-Sound law others s (Reach-Sound law others r g)

-- Before the first call: the arenas are empty, and what is allocated belongs to others.
abbrev pub start : (o : Os) → o.State → Cells → World o
start o s cells = record { os = s; cells = cells; arenas = λ t. empty_arena }

pub start-Inv :
    (o : Os) (s : o.State) (cells : Cells)
    → Pairwise Apart (o.live s)
    → Inv o (start o s cells) [] [] (o.live s)
start-Inv o s cells apart = record {
  bins = λ t. refl;
  chains = λ t i head e. get_elem?-replicate_inv num_fast_bins i e;
  owns = record { same = Perm.refl (o.live s); apart = apart };
  blocks = tt;
  frees = tt;
}

module _ {o : Os} {s : o.State} {cells : Cells} (platform : Platform) (law : IsLawful o)
    (apart : Pairwise Apart (o.live s)) {w : World o} {used : List Block}
    (reach : Reach o platform (start o s cells) [] w used) where
  pub reached : Sound o platform (o.live s) w used
  reached = Reach-Sound o platform law (o.live s) reach ([], ([], start-Inv o s cells apart))

  -- After any sequence of allocations of sizes that are not 0 and deallocations by any threads, of
  -- writes of the clients into their own blocks and of ends of threads, from empty arenas on,
  -- every block in use is aligned to 16 and the bytes of no two of them overlap.
  pub Reach-Separate : All IsBlock used × Separate used
  Reach-Separate = (reached.1.1.blocks, Inv-Separate reached.1.1)

  -- After any sequence of allocations of sizes that are not 0 and deallocations by any threads, of
  -- writes of the clients into their own blocks and of ends of threads, from empty arenas on, an
  -- allocation of a size that is not 0 returns or throws std::bad_alloc, and is not undefined
  -- behaviour.
  pub Reach-allocate_defined : (t size : ℕ) → 0 < size → allocate o platform t size w ≢ fault
  Reach-allocate_defined t size pos e =
      rw e at (allocate-Allocates platform law reached.1.1 t size pos)

  -- After any sequence of allocations of sizes that are not 0 and deallocations by any threads, of
  -- writes of the clients into their own blocks and of ends of threads, from empty arenas on, any
  -- thread can give any block in use back: the call returns.
  pub Reach-deallocate_returns :
      (t : ℕ) (xs ys : List Block) (b : Block)
      → used ≡ xs ++ b ∷ ys
      → (w' : World o) × (deallocate o platform t b.ptr b.size w ≡ returns tt w')
  Reach-deallocate_returns t xs ys b split =
      go _ refl (deallocate-Deallocates xs ys b.ptr b.size (rw split at reached.1.1) platform law t)
    where
      go :
          (r : Run (World o) (Unit {0}))
          → deallocate o platform t b.ptr b.size w ≡ r
          → Deallocates o (xs ++ ys) (reached.0 ++ o.live s) r
          → (w' : World o) × (deallocate o platform t b.ptr b.size w ≡ returns tt w')
      go (returns u w') e h = (w', e)
      go (bad_alloc w') e h = absurd h
      go fault e h = absurd h
