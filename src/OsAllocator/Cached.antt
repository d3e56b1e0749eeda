-- ===== src/OsAllocator/Cached.antt =====
-- The cache of GetPageSize in src/SysApi.cpp: OS_Alloc and OS_Free keep it right.
use sallocator.Base.{ℕ, refl, inl, inr, Bool, ltb, ◌==◌, sub64, Bool-cases}
use sallocator.Os.{Os, Platform, win32, posix, map_failed}
use sallocator.OsAllocator
use sallocator.OsAllocator.{
  Build, Sys, Outcome, os_alloc, os_free, get_page_size, check_alignment, alloc_small, alloc_pages,
  use_mapping, store_header, holds_header, place, header_size_of, total_size_of,
}
use sallocator.OsAllocator.Pages.{IsCached}

-- The page size is cached or not yet known, also after the call.
abbrev pub KeepsCached : {o : Os} → Outcome (Sys o) ℕ → Type 0
KeepsCached (OsAllocator.returns p w) = IsCached w
KeepsCached (OsAllocator.bad_alloc w) = IsCached w
KeepsCached OsAllocator.aborted = Unit
KeepsCached (OsAllocator.fault a w) = IsCached w

get_page_size-IsCached : {o : Os} (w : Sys o) → IsCached w → IsCached (get_page_size w).1
unfolding get_page_size
get_page_size-IsCached w c = elim (Bool-cases (w.cached_page_size == 0)) [
  | inl fresh ↦ rw fresh (inr refl)
  | inr known ↦ rw known c
]

store_header-KeepsCached :
    {o : Os} (alignment total_size base : ℕ) (w : Sys o)
    → IsCached w
    → KeepsCached (store_header alignment total_size base w)
unfolding store_header
store_header-KeepsCached alignment total_size base w c =
    elim (Bool-cases
      (holds_header base total_size (sub64 (place base alignment) (header_size_of alignment)))) [
        | inl inside ↦ rw inside c
        | inr outside ↦ rw outside c
      ]

use_mapping-KeepsCached :
    {o : Os} (failed alignment total_size : ℕ) (w : Sys o) (r : ℕ × o.State)
    → IsCached w
    → KeepsCached (use_mapping failed alignment total_size w r)
unfolding use_mapping
use_mapping-KeepsCached failed alignment total_size w r c = elim (Bool-cases (r.0 == failed)) [
  | inl none ↦ rw none c
  | inr some_block ↦ rw some_block (store_header-KeepsCached alignment total_size r.0 _ c)
]

alloc_small-KeepsCached :
    {o : Os} (x : Platform) (nd : Bool) (size alignment : ℕ) (w : Sys o)
    → IsCached w
    → KeepsCached (alloc_small (record { platform = x; ndebug = nd }) size alignment w)
unfolding alloc_small
alloc_small-KeepsCached win32 nd size alignment w c = c
alloc_small-KeepsCached posix nd size alignment w c = c

alloc_pages-KeepsCached :
    {o : Os} (x : Platform) (nd : Bool) (size alignment : ℕ) (w : Sys o)
    → IsCached w
    → KeepsCached (alloc_pages (record { platform = x; ndebug = nd }) size alignment w)
unfolding alloc_pages
alloc_pages-KeepsCached win32 nd size alignment w c =
    use_mapping-KeepsCached 0 alignment (total_size_of size alignment) w _ c
alloc_pages-KeepsCached posix nd size alignment w c =
    use_mapping-KeepsCached map_failed alignment (total_size_of size alignment) w _ c

pub os_alloc-KeepsCached :
    {o : Os} (b : Build) (size alignment : ℕ) (w : Sys o)
    → IsCached w
    → KeepsCached (os_alloc b size alignment w)
unfolding os_alloc
os_alloc-KeepsCached {o} b size alignment w c = elim (Bool-cases (check_alignment o b alignment)) [
  | inr refused ↦ rw refused tt
  | inl checked ↦ elim (Bool-cases (size == 0)) [
    | inl none ↦ rw (checked, none) c
    | inr some_size ↦
        let w' = (get_page_size w).1 in
        let c' = get_page_size-IsCached w c in
        elim (Bool-cases (ltb size (get_page_size w).0)) [
          | inl below ↦
              rw (checked, some_size, below)
                (alloc_small-KeepsCached b.platform b.ndebug size _ w' c')
          | inr paged ↦
              rw (checked, some_size, paged)
                (alloc_pages-KeepsCached b.platform b.ndebug size _ w' c')
        ]
  ]
]

pub os_free-IsCached :
    {o : Os} (x : Platform) (nd : Bool) (p size : ℕ) (w : Sys o)
    → IsCached w
    → IsCached (os_free (record { platform = x; ndebug = nd }) p size w)
unfolding os_free
os_free-IsCached win32 nd p size w c = elim (Bool-cases (p == 0)) [
  | inl null ↦ rw null c
  | inr live ↦ elim (Bool-cases (ltb size (get_page_size w).0)) [
    | inl below ↦ rw (live, below) (get_page_size-IsCached w c)
    | inr paged ↦ rw (live, paged) (get_page_size-IsCached w c)
  ]
]
os_free-IsCached posix nd p size w c = elim (Bool-cases (p == 0)) [
  | inl null ↦ rw null c
  | inr live ↦ elim (Bool-cases (ltb size (get_page_size w).0)) [
    | inl below ↦ rw (live, below) (get_page_size-IsCached w c)
    | inr paged ↦ rw (live, paged) (get_page_size-IsCached w c)
  ]
]
