-- ===== src/OsAllocator/Aborts.antt =====
-- The assertions of CHECK_ALIGNMENT in include/JAllocatorImpl/SysApi.h, in front of OS_Alloc.
use sallocator.Base.{
  ℕ, ◌^◌, ◌≤◌, ◌<◌, ◌≡◌, ◌≢◌, ◌↔◌, refl, inl, inr, Bool, true, false, arith, ltb, leb, ◌==◌, ◌&&◌,
  sub64, bit_and, Bool-cases,
}
use sallocator.Bits.{IsPow2, IsPow2-pos}
use sallocator.Bits.Powers.{test-IsPow2, IsPow2-test}
use sallocator.Os.{Os, Platform, win32, posix, map_failed}
use sallocator.OsAllocator.{
  Build, Sys, aborted, check_alignment, place, header_size_of, total_size_of, holds_header,
  store_header, use_mapping, alloc_small, alloc_pages, get_page_size, os_alloc,
}

-- The least alignment that the assertions accept.
abbrev pub minimum : Os → Platform → ℕ
minimum o win32 = o.granularity
minimum o posix = o.page_size

-- What they accept.
abbrev pub IsAccepted : Os → Platform → ℕ → Type 0
IsAccepted o x alignment = IsPow2 alignment × (minimum o x ≤ alignment)

abbrev debug : Platform → Build
debug x = record { platform = x; ndebug = false }

module _ (o : Os) where
  three : (a b c : Bool) → ((a && b) && c) ≡ true → (a ≡ true) × (b ≡ true) × (c ≡ true)
  three true true true e = (refl, refl, refl)
  three false b c e = cc e
  three true false c e = cc e
  three true true false e = cc e

  tests-IsAccepted :
      (x : Platform) (least alignment : ℕ)
      → least ≡ minimum o x
      → alignment < 2 ^ 64
      → ((ltb 0 alignment && (bit_and alignment (sub64 alignment 1) == 0)) && leb least alignment)
        ≡ true
      → IsAccepted o x alignment
  tests-IsAccepted x least alignment same lt e =
      let (positive, power, large) =
        three (ltb 0 alignment) (bit_and alignment (sub64 alignment 1) == 0) (leb least alignment)
          e in
      (
        test-IsPow2 alignment (ground (arith, positive)) lt (ground (arith, power)),
        rw (← same) (ground (arith, large)),
      )

  check_alignment-IsAccepted :
      (x : Platform) (alignment : ℕ)
      → alignment < 2 ^ 64
      → check_alignment o (debug x) alignment ≡ true
      → IsAccepted o x alignment
  unfolding check_alignment
  check_alignment-IsAccepted win32 alignment lt e = tests-IsAccepted win32 _ alignment refl lt e
  check_alignment-IsAccepted posix alignment lt e = tests-IsAccepted posix _ alignment refl lt e

  IsAccepted-check_alignment :
      (x : Platform) (alignment : ℕ)
      → IsAccepted o x alignment
      → check_alignment o (debug x) alignment ≡ true
  unfolding check_alignment
  IsAccepted-check_alignment win32 alignment (p, le) =
      let positive : ltb 0 alignment ≡ true = ground (arith, IsPow2-pos p) in
      let large : leb o.granularity alignment ≡ true = ground (arith, le) in
      rw (positive, IsPow2-test alignment p, large) refl
  IsAccepted-check_alignment posix alignment (p, le) =
      let positive : ltb 0 alignment ≡ true = ground (arith, IsPow2-pos p) in
      let large : leb o.page_size alignment ≡ true = ground (arith, le) in
      rw (positive, IsPow2-test alignment p, large) refl

module _ {o : Os} where
  store_header-aborted :
      (alignment total_size base : ℕ) (w : Sys o)
      → store_header alignment total_size base w ≢ aborted
  unfolding store_header
  store_header-aborted alignment total_size base w =
      elim (Bool-cases
        (holds_header base total_size (sub64 (place base alignment) (header_size_of alignment)))) [
          | inl inside ↦ rw inside (λ e. cc e)
          | inr outside ↦ rw outside (λ e. cc e)
        ]

  use_mapping-aborted :
      (failed alignment total_size : ℕ) (w : Sys o) (r : ℕ × o.State)
      → use_mapping failed alignment total_size w r ≢ aborted
  unfolding use_mapping
  use_mapping-aborted failed alignment total_size w r = elim (Bool-cases (r.0 == failed)) [
    | inl none ↦ rw none (λ e. cc e)
    | inr mapped ↦ rw mapped (store_header-aborted alignment total_size r.0 _)
  ]

  alloc_pages-aborted :
      (x : Platform) (size alignment : ℕ) (w : Sys o)
      → alloc_pages (debug x) size alignment w ≢ aborted
  unfolding alloc_pages
  alloc_pages-aborted win32 size alignment w =
      use_mapping-aborted 0 alignment (total_size_of size alignment) w _
  alloc_pages-aborted posix size alignment w =
      use_mapping-aborted map_failed alignment (total_size_of size alignment) w _

  alloc_small-aborted :
      (x : Platform) (size alignment : ℕ) (w : Sys o)
      → alloc_small (debug x) size alignment w ≢ aborted
  unfolding alloc_small
  alloc_small-aborted win32 size alignment w = λ e. cc e
  alloc_small-aborted posix size alignment w = λ e. cc e

  checked-aborted :
      (x : Platform) (size alignment : ℕ) (w : Sys o)
      → check_alignment o (debug x) alignment ≡ true
      → os_alloc (debug x) size alignment w ≢ aborted
  unfolding os_alloc
  checked-aborted x size alignment w checked = elim (Bool-cases (size == 0)) [
    | inl none ↦ rw (checked, none) (λ e. cc e)
    | inr some_size ↦ elim (Bool-cases (ltb size (get_page_size w).0)) [
      | inl below ↦
          rw (checked, some_size, below) (alloc_small-aborted x size _ (get_page_size w).1)
      | inr paged ↦
          rw (checked, some_size, paged) (alloc_pages-aborted x size _ (get_page_size w).1)
    ]
  ]

  -- In a build with assertions, for an alignment of a 64-bit word, OS_Alloc aborts if and only if
  -- the alignment is not a power of two of at least the page size, or on Windows the allocation
  -- granularity.
  pub os_alloc-aborts :
      (x : Platform) (size alignment : ℕ) (w : Sys o)
      → alignment < 2 ^ 64
      → (os_alloc (record { platform = x; ndebug = false }) size alignment w ≡ aborted)
        ↔ (IsAccepted o x alignment → ⊥)
  unfolding os_alloc
  os_alloc-aborts x size alignment w lt = (
    λ e good. checked-aborted x size alignment w (IsAccepted-check_alignment o x alignment good) e,
    λ bad. elim (Bool-cases (check_alignment o (debug x) alignment)) [
      | inl checked ↦ absurd (bad (check_alignment-IsAccepted o x alignment lt checked))
      | inr refused ↦ rw refused refl
    ],
  )
