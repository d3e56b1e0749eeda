-- ===== src/TestProgram/Checks.antt =====
-- `test_allocation` and `main` of src/main.cpp.
use mathlib.Core.List.Perm
use native.Mathlib.Nat.{mod_self}
use sallocator.Base.{
  ℕ, ◌+◌, ◌%◌, ◌^◌, ◌≤◌, ◌<◌, ◌≡◌, ◌≢◌, ◌⊎◌, refl, inl, inr, Bool, true, false, List, Perm, arith,
  ◌==◌, ◌||◌, ◌&&◌, not,
}
use sallocator.Bits.{sixteen-IsPow2, IsPow2-mod, IsPow2-lt}
use sallocator.Os.{Region, Os, Platform, win32, posix, IsLawful}
use sallocator.OsAllocator
use sallocator.OsAllocator.{
  Build, Sys, Outcome, os_alloc, os_free, get_page_size, read_header, check_alignment, unmap,
}
use sallocator.OsAllocator.Pages.{IsPageRequest}
use sallocator.OsAllocator.Small.{IsSmallRequest, ServesSmall, os_alloc-ServesSmall}
use sallocator.OsAllocator.Blocks.{Serves, os_alloc-Serves, GivenBack, os_free-os_alloc}
use sallocator.OsAllocator.Aborts.{os_alloc-aborts, IsAccepted}
use sallocator.TestProgram.Words.{IsByteMemory, os_free-words, all_hold, header_kept}
use sallocator.TestProgram.{
  ByteMemory, Verdict, passed, threw, aborted, crashed, holds_value, test_allocation, test_sizes,
  test_alignments, main, use_block,
}

-- The requests that `OS_Alloc` serves and `OS_Free` gives back.
pub data IsServed (o : Os) (b : Build) (size alignment : ℕ) (w : Sys o) : Type 0 where
  empty : size ≡ 0 → check_alignment o b alignment ≡ true → IsServed o b size alignment w
  small : IsSmallRequest o b size alignment w → IsServed o b size alignment w
  pages : IsPageRequest o b size alignment w → alignment ≤ 16 → IsServed o b size alignment w

-- Nothing stays allocated, and only a null pointer from `OS_Alloc` ends the program.
abbrev pub Passes : {o : Os} → Build → (size alignment : ℕ) → Sys o → Verdict (Sys o) → Type 0
Passes {o} b size alignment w (passed w') = Perm (o.live w'.os) (o.live w.os)
Passes {o} b size alignment w (threw w') = o.live w'.os ≡ o.live w.os
Passes b size alignment w aborted = ⊥
Passes {o} b size alignment w crashed =
    (size ≢ 0)
    × (w' : Sys o) × (os_alloc b size alignment w ≡ OsAllocator.returns 0 w')
    × (o.live w'.os ≡ o.live w.os)

module _ {m : ByteMemory} (law : IsByteMemory m) where
  or_true : (c : Bool) → (c || true) ≡ true
  or_true true = refl
  or_true false = refl

  -- The block can be used, and after it is given back nothing but `owned` is allocated.
  use_block-passed :
      {o : Os} (b : Build) (size p : ℕ) (w : Sys o) (owned : List Region)
      → size + 16 ≤ 2 ^ 64
      → (p ≢ 0) ⊎ (size ≡ 0)
      → Perm (o.live (os_free b p size w).os) owned
      → (w' : Sys o) × (use_block b m size p w ≡ passed w') × Perm (o.live w'.os) owned
  use_block-passed {o} b size p w owned fits usable back =
      let words = m.fill p 0xAB size w.words in
      let holds : holds_value m size p words ≡ true =
        all_hold law size p words (λ a le lt. law.filled p 0xAB size w.words a le lt) in
      let same =
        os_free-words o b.platform b.ndebug p size w words (header_kept law p size w.words fits) in
      let safe : ((p == 0) && not (size == 0)) ≡ false = safe_block usable in
      (
        os_free b p size (record w { words = words }),
        rw (safe, holds, or_true b.ndebug) refl,
        rw same back,
      )
    where
      safe_block : (p ≢ 0) ⊎ (size ≡ 0) → ((p == 0) && not (size == 0)) ≡ false
      safe_block (inl ne) = ground (arith, ne)
      safe_block (inr e) = ground (arith, e)

  -- What the test needs of the outcome of `OS_Alloc`.
  abbrev Usable : {o : Os} → Build → ℕ → List Region → Outcome (Sys o) ℕ → Type 0
  Usable {o} b size owned (OsAllocator.returns p w) =
      ((p ≡ 0) × (0 < size) × (o.live w.os ≡ owned))
      ⊎ (((p ≢ 0) ⊎ (size ≡ 0)) × Perm (o.live (os_free b p size w).os) owned)
  Usable {o} b size owned (OsAllocator.bad_alloc w) = o.live w.os ≡ owned
  Usable b size owned OsAllocator.aborted = ⊥
  Usable b size owned (OsAllocator.fault a w) = ⊥

  Usable-Passes :
      {o : Os} (b : Build) (size alignment : ℕ) (w : Sys o)
      → size + 16 ≤ 2 ^ 64
      → (r : Outcome (Sys o) ℕ) → os_alloc b size alignment w ≡ r
      → Usable b size (o.live w.os) r
      → Passes b size alignment w (test_allocation b m size alignment w)
  unfolding test_allocation
  Usable-Passes b size alignment w fits (OsAllocator.returns p w') e (inl (null, pos, same)) =
      let unsafe : ((p == 0) && not (size == 0)) ≡ true = ground (arith, null, pos) in
      rw (e, test_allocation, unsafe) (omega (arith, pos), w', rw null at e, same)
  Usable-Passes b size alignment w fits (OsAllocator.returns p w') e (inr (usable, back)) =
      let (w'', passes, left) = use_block-passed b size p w' _ fits usable back in
      rw (e, test_allocation, passes) left
  Usable-Passes b size alignment w fits (OsAllocator.bad_alloc w') e same =
      rw (e, test_allocation) same
  Usable-Passes b size alignment w fits OsAllocator.aborted e h = absurd h
  Usable-Passes b size alignment w fits (OsAllocator.fault a w') e h = absurd h

  served-Usable :
      {o : Os} (law_os : IsLawful o) (b : Build) (size alignment : ℕ) (w : Sys o)
      → IsServed o b size alignment w
      → Usable b size (o.live w.os) (os_alloc b size alignment w)
  unfolding os_alloc
  served-Usable {o} law_os b size alignment w (empty none checked) =
      let zero_size : (size == 0) ≡ true = ground (arith, none) in
      rw (checked, zero_size) (inr (inr none, unfold os_free in Perm.refl _))
  served-Usable {o} law_os b size alignment w (small q) =
      from_small (os_alloc b size alignment w) (os_alloc-ServesSmall law_os q)
    where
      from_small :
          (r : Outcome (Sys o) ℕ)
          → ServesSmall b size alignment (o.live w.os) r
          → Usable b size (o.live w.os) r
      from_small (OsAllocator.returns p w') (inl (null, same)) = inl (null, q.positive, same)
      from_small (OsAllocator.returns p w') (inr (n, le, ne, aligned, added, apart, back)) =
          inr (inl ne, back)
      from_small (OsAllocator.bad_alloc w') h = absurd h
      from_small OsAllocator.aborted h = absurd h
      from_small (OsAllocator.fault a w') h = absurd h
  served-Usable {o} law_os b size alignment w (pages q le) =
      from_pages (os_alloc b size alignment w)
        (os_alloc-Serves law_os q (omega (arith, le, law_os.page_size_holds_header)))
        (os_free-os_alloc law_os q le)
    where
      from_pages :
          (r : Outcome (Sys o) ℕ)
          → Serves size alignment w r
          → GivenBack b size w r
          → Usable b size (o.live w.os) r
      from_pages (OsAllocator.returns p w') (base, total, added, apart, aligned, ge, lt) back =
          inr (inl (λ e. absurd (omega (arith, ge, e))), back)
      from_pages (OsAllocator.bad_alloc w') same back = same
      from_pages OsAllocator.aborted h back = absurd h
      from_pages (OsAllocator.fault a w') h back = absurd h

  served-fits :
      (o : Os) (law_os : IsLawful o) (b : Build) (size alignment : ℕ) (w : Sys o)
      → IsServed o b size alignment w
      → size + 16 ≤ 2 ^ 64
  served-fits o law_os b size alignment w (empty none checked) = omega (arith, none)
  served-fits o law_os b size alignment w (small q) =
      let whole : o.page_size % 16 ≡ 0 =
        IsPow2-mod law_os.page_size_pow2 sixteen-IsPow2 o.page_size
          (omega (arith, law_os.page_size_holds_header)) (mod_self o.page_size) in
      omega (arith, q.below, whole, IsPow2-lt law_os.page_size_pow2)
  served-fits o law_os b size alignment w (pages q le) = omega (arith, q.fits)

  -- With a memset that sets the bytes of its block and no word outside of it, test_allocation of
  -- size 0, of a size below a page, or of a page or more with an alignment of at most 16, for
  -- requests that OS_Alloc accepts without overflow, passes with all that it allocated given back,
  -- or throws with nothing allocated, or, if OS_Alloc returned null for a size that is not 0,
  -- writes through that pointer; no assertion fails.
  pub test_allocation-Passes :
      {o : Os} (law_os : IsLawful o) (b : Build) (size alignment : ℕ) (w : Sys o)
      → IsServed o b size alignment w
      → Passes b size alignment w (test_allocation b m size alignment w)
  test_allocation-Passes {o} law_os b size alignment w q =
      Usable-Passes b size alignment w (served-fits o law_os b size alignment w q) _ refl
        (served-Usable law_os b size alignment w q)

module _ {o : Os} (law : IsLawful o) (m : ByteMemory) (x : Platform) where
  refused : (alignment : ℕ) → alignment < o.page_size → IsAccepted o x alignment → ⊥
  refused alignment lt = too_small x
    where
      too_small : (y : Platform) → IsAccepted o y alignment → ⊥
      too_small win32 (p, le) = absurd (omega (arith, le, lt, law.page_size_le))
      too_small posix (p, le) = absurd (omega (arith, le, lt))

  test_allocation-aborts :
      (size alignment : ℕ) (w : Sys o)
      → alignment < o.page_size
      → test_allocation (record { platform = x; ndebug = false }) m size alignment w ≡ aborted
  unfolding test_allocation
  test_allocation-aborts size alignment w lt =
      rw
        (
          (os_alloc-aborts x size alignment w (omega (arith, lt, IsPow2-lt law.page_size_pow2))).1
              (refused alignment lt),
          test_allocation,
        )
        refl

  -- A build with assertions.
  main-aborts : (w : Sys o) → main (record { platform = x; ndebug = false }) m w ≡ aborted
  unfolding main test_alignments test_sizes
  main-aborts w = rw (test_allocation-aborts 0 1 w (omega (arith, law.page_size_holds_header))) refl
