-- ===== src/TestProgram/Sizes.antt =====
-- The loops of `main` in src/main.cpp.
use mathlib.Core.List.Perm
use sallocator.Base.{
  ℕ, ◌≡◌, ◌≢◌, inl, inr, List, [], ◌∷◌, All, Perm, arith, ltb, ◌==◌, Bool-cases, ◌&&◌, ◌||◌, not,
}
use sallocator.Os.{Region, Os, IsLawful}
use sallocator.OsAllocator
use sallocator.OsAllocator.{
  Build, Sys, Outcome, os_alloc, os_free, get_page_size, check_alignment, effective, alloc_small,
  alloc_pages, use_mapping,
}
use sallocator.OsAllocator.Pages.{IsCached}
use sallocator.OsAllocator.Requests.{IsServable}
use sallocator.TestProgram.{
  ByteMemory, Verdict, passed, threw, aborted, crashed, test_allocation, test_sizes, use_block,
  caught, holds_value,
}
use sallocator.OsAllocator.Cached.{KeepsCached, os_alloc-KeepsCached, os_free-IsCached}
use sallocator.TestProgram.Words.{IsByteMemory}
use sallocator.TestProgram.Checks.{IsServed, empty, small, pages, Passes, test_allocation-Passes}

module _ {o : Os} (b : Build) (m : ByteMemory) where
  -- The state that a test goes on from, if it does.
  abbrev KeepsOn : Verdict (Sys o) → Type 0
  KeepsOn (passed w) = IsCached w
  KeepsOn (threw w) = IsCached w
  KeepsOn aborted = Unit
  KeepsOn crashed = Unit

  use_block-KeepsOn : (size p : ℕ) (w : Sys o) → IsCached w → KeepsOn (use_block b m size p w)
  use_block-KeepsOn size p w c = elim (Bool-cases ((p == 0) && not (size == 0))) [
    | inl unsafe ↦ rw unsafe tt
    | inr safe ↦
        let words = m.fill p 0xAB size w.words in
        elim (Bool-cases (b.ndebug || holds_value m size p words)) [
          | inl holds ↦
              rw (safe, holds)
                (os_free-IsCached b.platform b.ndebug p size (record w { words = words }) c)
          | inr differs ↦ rw (safe, differs) tt
        ]
  ]

  test_allocation-KeepsOn :
      (size alignment : ℕ) (w : Sys o) → IsCached w → KeepsOn (test_allocation b m size alignment w)
  unfolding test_allocation
  test_allocation-KeepsOn size alignment w c =
      after (os_alloc b size alignment w) (os_alloc-KeepsCached b size alignment w c)
    where
      after :
          (r : Outcome (Sys o) ℕ)
          → KeepsCached r
          → KeepsOn (elim r [
            | OsAllocator.returns ptr w' ↦ use_block b m size ptr w'
            | OsAllocator.bad_alloc w' ↦ threw w'
            | OsAllocator.aborted ↦ aborted
            | OsAllocator.fault a w' ↦ crashed
          ])
      after (OsAllocator.returns p w') c' = use_block-KeepsOn size p w' c'
      after (OsAllocator.bad_alloc w') c' = c'
      after OsAllocator.aborted c' = tt
      after (OsAllocator.fault a w') c' = tt

served :
    (o : Os) (b : Build) (alignment size : ℕ) (w : Sys o)
    → IsServable o b size alignment
    → IsCached w
    → IsServed o b size alignment w
served o b alignment size w good c = elim (Bool-cases (size == 0)) [
  | inl none ↦ empty (ground arith) good.passes
  | inr some_size ↦ elim (Bool-cases (ltb size o.page_size)) [
    | inl below ↦ small (record {
      passes = good.passes;
      pow2 = good.pow2;
      positive = ground arith;
      below = ground arith;
      fits = omega (arith, good.fits);
      cached = c;
    })
    | inr paged ↦
        pages
          (record {
            passes = good.passes;
            pow2 = good.pow2;
            pages = ground arith;
            fits = good.fits;
            cached = c;
          })
          (good.header_fits (ground arith))
  ]
]

-- All tests pass, with nothing left allocated on top of `owned`, unless `OS_Alloc` returns a null
-- pointer in one of them.
abbrev pub PassesAll : {o : Os} → Build → List Region → Verdict (Sys o) → Type 0
PassesAll {o} b owned (passed w') = Perm (o.live w'.os) owned × IsCached w'
PassesAll b owned (threw w') = ⊥
PassesAll b owned aborted = ⊥
PassesAll {o} b owned crashed =
    (size : ℕ) × (size ≢ 0)
    × (alignment : ℕ) × (w₁ : Sys o) × (w₂ : Sys o) × (os_alloc b size alignment w₁
        ≡ OsAllocator.returns 0 w₂)
    × Perm (o.live w₂.os) owned

module _ {o : Os} (b : Build) {m : ByteMemory} (law : IsByteMemory m) (law_os : IsLawful o) where
  -- With a memset that sets the bytes of its block and no word outside of it, for an alignment
  -- that is a power of two and passes the check and any list of sizes that do not overflow with
  -- it, those from a page on only with an alignment of up to 16, the inner loop of main over these
  -- sizes, with assertions or without, never throws and no assertion of it fails: it ends with
  -- everything given back, or it runs into the null pointer that OS_Alloc returned for a size that
  -- is not 0, with nothing else left.
  pub test_sizes-PassesAll :
      (alignment : ℕ) (sizes : List ℕ) (w : Sys o) (owned : List Region)
      → All (λ size. IsServable o b size alignment) sizes
      → IsCached w
      → Perm (o.live w.os) owned
      → PassesAll b owned (test_sizes b m sizes alignment w)
  unfolding test_sizes
  test_sizes-PassesAll alignment [] w owned good c same = (same, c)
  test_sizes-PassesAll alignment (size ∷ sizes) w owned (good, goods) c same =
      after (test_allocation b m size alignment w)
        (λ w'. test_sizes-PassesAll alignment sizes w' owned goods)
        (test_allocation-Passes law law_os b size alignment w (served o b alignment size w good c))
        (test_allocation-KeepsOn b m size alignment w c)
    where
      after :
          (v : Verdict (Sys o))
          → ((w' : Sys o)
              → IsCached w'
              → Perm (o.live w'.os) owned
              → PassesAll b owned (test_sizes b m sizes alignment w'))
          → Passes b size alignment w v
          → KeepsOn b m v
          → PassesAll b owned (caught b m v (test_sizes b m sizes alignment))
      after (passed w') rest h k = rest w' k (Perm.trans h same)
      after (threw w') rest h k = rest w' k (rw h same)
      after aborted rest h k = absurd h
      after crashed rest (ne, w', e, h) k = (size, ne, alignment, w, w', e, rw h same)
