-- ===== src/TestProgram/Allocations.antt =====
-- `test_alloc` of src/main.cpp over the arena of the calling thread.
use sallocator.Base.{
  ℕ, zero, suc, ◌%◌, ◌^◌, ◌<◌, ◌≡◌, refl, sym, subst, List, [], ◌∷◌, ◌++◌, arith, length,
}
use sallocator.Os.{Region, Platform, Os, IsLawful}
use sallocator.Stellatus
use sallocator.Stellatus.{World, Cells, Run, returns, bad_alloc, fault}
use sallocator.Stellatus.Invariant.{Block, block, Inv, Allocates, Deallocates}
use sallocator.Stellatus.Allocate.{allocate-Allocates}
use sallocator.Stellatus.Deallocate.{deallocate-Deallocates}
use sallocator.Stellatus.History.{Good}
use sallocator.Stellatus.Separate.{OutsideData, Inv-write}
use sallocator.TestProgram.{Memset, alloc_size, alloc_loop, free_loop, test_alloc, push}

-- `memset` leaves the headers outside of the block alone.
abbrev pub WritesInside : Memset → Type 0
WritesInside memset =
    (p value size a : ℕ) (cells : Cells)
    → OutsideData a (block p size)
    → memset p value size cells a ≡ cells a

-- The blocks in use, after `used`, once the pointers were pushed.
abbrev pub held : List ℕ → List Block → List Block
held [] used = used
held (p ∷ ps) used = held ps (block p alloc_size ∷ used)

held-split : (ps : List ℕ) (bs used : List Block) → held ps (bs ++ used) ≡ held ps bs ++ used
held-split [] bs used = refl
held-split (p ∷ ps) bs used = held-split ps (block p alloc_size ∷ bs) used

module _ (o : Os) (platform : Platform) (others : List Region) (used : List Block) where
  -- The loop returned `n` pointers to blocks in use, or threw with fewer of them in use.
  abbrev Fills : ℕ → Run (World o) (List ℕ) → Type 0
  Fills n (returns ps w) = (length ps ≡ n) × Good o platform others w (held ps used)
  Fills n (bad_alloc w) =
      (ps : List ℕ) × ((length ps < n) × Good o platform others w (held ps used))
  Fills n fault = ⊥

  -- What was in use before is in use after, or an allocation failed and the blocks before it are
  -- still in use.
  abbrev pub Restores : ℕ → Run (World o) (Unit {0}) → Type 0
  Restores n (returns u w) = Good o platform others w used
  Restores n (bad_alloc w) =
      (ps : List ℕ) × ((length ps < n) × Good o platform others w (held ps used))
  Restores n fault = ⊥

module _ {o : Os} (platform : Platform) (law : IsLawful o) (others : List Region) (memset : Memset)
    (inside : WritesInside memset) (t : ℕ) where
  push-Fills :
      (n p : ℕ) (used : List Block) (r : Run (World o) (List ℕ))
      → Fills o platform others (block p alloc_size ∷ used) n r
      → Fills o platform others used (suc n) (push p r)
  push-Fills n p used (returns ps w) h = (omega (arith, h.0), h.1)
  push-Fills n p used (bad_alloc w) h = (p ∷ h.0, (omega (arith, h.1.0), h.1.1))
  push-Fills n p used fault h = h

  alloc_loop-Fills :
      (n i : ℕ) (w : World o) (used : List Block)
      → Good o platform others w used
      → Fills o platform others used n (alloc_loop o platform memset t n i w)
  unfolding alloc_loop Stellatus.allocate_n
  alloc_loop-Fills zero i w used g = (refl, g)
  alloc_loop-Fills (suc n) i w used (free, v) =
      go (Stellatus.allocate o platform t alloc_size w)
        (λ p w'. alloc_loop-Fills n (suc i) w' (block p alloc_size ∷ used))
        (allocate-Allocates platform law v t alloc_size (omega arith))
    where
      go :
          (r : Run (World o) ℕ)
          → ((p : ℕ) (w' : World o)
              → Good o platform others w' (block p alloc_size ∷ used)
              → Fills o platform others
                  (block p alloc_size ∷ used)
                  n
                  (alloc_loop o platform memset t n (suc i) w'))
          → Allocates o free used others alloc_size r
          → Fills o platform others used (suc n) (elim r [
            | returns p w' ↦
                let filled = memset p (i % 2 ^ 32) alloc_size w'.cells in
                push p (alloc_loop o platform memset t n (suc i) (record w' { cells = filled }))
            | bad_alloc w' ↦ bad_alloc w'
            | fault ↦ fault
          ])
      go (returns p w') rest (free', v') =
          let filled = memset p (i % 2 ^ 32) alloc_size w'.cells in
          push-Fills n p used _ (
            rest p (record w' { cells = filled })
              (
                free',
                Inv-write v' filled (λ a out. inside p (i % 2 ^ 32) alloc_size a w'.cells out.0),
              ))
      go (bad_alloc w') rest v' = ([], (omega arith, (free, v')))
      go fault rest h = absurd h

  free_loop-Restores :
      (n : ℕ) (ps : List ℕ) (w : World o) (used : List Block)
      → Good o platform others w (held ps used)
      → Restores o platform others used n (free_loop o platform memset t ps w)
  unfolding free_loop Stellatus.deallocate_n
  free_loop-Restores n [] w used g = g
  free_loop-Restores n (p ∷ ps) w used (free, v) =
      let back = held ps [] in
      let v' =
        subst (λ bs. Inv o w free bs others) (held-split ps [] (block p alloc_size ∷ used)) v in
      go (Stellatus.deallocate o platform t p alloc_size w) (λ w'. free_loop-Restores n ps w' used)
        (deallocate-Deallocates back used p alloc_size v' platform law t)
    where
      go :
          (r : Run (World o) (Unit {0}))
          → ((w' : World o)
              → Good o platform others w' (held ps used)
              → Restores o platform others used n (free_loop o platform memset t ps w'))
          → Deallocates o (held ps [] ++ used) others r
          → Restores o platform others used n (elim r [
            | returns u w' ↦ free_loop o platform memset t ps w'
            | bad_alloc w' ↦ bad_alloc w'
            | fault ↦ fault
          ])
      go (returns u w') rest (free', v') =
          rest w' (free', subst (λ bs. Inv o w' free' bs others) (sym (held-split ps [] used)) v')
      go (bad_alloc w') rest h = absurd h
      go fault rest h = absurd h

  -- From a state that satisfies the invariant of the arenas, and with a memset that writes no
  -- headers outside of its block, test_alloc with any number of allocations over SAllocator<char>
  -- returns, and what was in use before is in use after, or it throws std::bad_alloc with fewer
  -- than that number of its blocks still in use; no call is undefined behaviour.
  pub test_alloc-Restores :
      (n : ℕ) (w : World o) (used : List Block)
      → Good o platform others w used
      → Restores o platform others used n (test_alloc o platform memset t n w)
  unfolding test_alloc
  test_alloc-Restores n w used g =
      go (alloc_loop o platform memset t n 0 w) (alloc_loop-Fills n 0 w used g)
    where
      go :
          (r : Run (World o) (List ℕ))
          → Fills o platform others used n r
          → Restores o platform others used n (elim r [
            | returns ps w' ↦ free_loop o platform memset t ps w'
            | bad_alloc w' ↦ bad_alloc w'
            | fault ↦ fault
          ])
      go (returns ps w') h = free_loop-Restores n ps w' used h.1
      go (bad_alloc w') h = h
      go fault h = absurd h
