-- ===== src/OsAllocator/BigPage.antt =====
-- `OS_AllocBigPage` of src/SysApi.cpp.
use sallocator.Base.{
  ℕ, ◌*◌, ◌≤◌, ◌<◌, ◌≡◌, ◌⊎◌, refl, inl, inr, Bool, true, false, List, ◌∷◌, arith, ltb, ◌==◌,
  if◌then◌else◌, Bool-cases,
}
use sallocator.Os.{
  Kind, Region, region, Os, win32, posix, Platform, map_failed, ApartFrom, IsLawful, Grants,
}
use sallocator.OsAllocator.{
  Build, Sys, Outcome, returns, bad_alloc, aborted, fault, effective, total_size_of, big_mapping,
  map_big, os_alloc_big_page,
}
use sallocator.OsAllocator.Pages.{IsPageRequest, os_alloc-cases}
use sallocator.OsAllocator.Mappings.{outcomes}
use sallocator.OsAllocator.Blocks.{past}

-- A block of exactly `size` bytes at `p` on top of the regions `owned`, or the same regions.
abbrev pub MapsBig : {o : Os} → ℕ → List Region → Outcome (Sys o) ℕ → Type 0
MapsBig {o} size owned (returns p w') =
    (o.live w'.os ≡ region Kind.pages p size ∷ owned) × ApartFrom (region Kind.pages p size) owned
MapsBig {o} size owned (bad_alloc w') = (o.live w'.os ≡ owned) × (w'.error ≡ o.last_error w'.os)
MapsBig size owned aborted = ⊥
MapsBig size owned (fault a w') = ⊥

-- A call that returns leaves two mappings more, of which the client gets one; one that throws may
-- leave the first of them. With an alignment above the page size the header can lie outside of it.
abbrev pub MapsTwice :
    {o : Os} → (alignment size total : ℕ) → List Region → Outcome (Sys o) ℕ → Type 0
MapsTwice {o} alignment size total owned (returns p w') =
    (q : ℕ) × (o.live w'.os ≡ region Kind.pages p size ∷ region Kind.pages q total ∷ owned)
MapsTwice {o} alignment size total owned (bad_alloc w') =
    (o.live w'.os ≡ owned) ⊎ ((q : ℕ) × (o.live w'.os ≡ region Kind.pages q total ∷ owned))
MapsTwice alignment size total owned aborted = ⊥
MapsTwice {o} alignment size total owned (fault a w') = o.page_size < alignment

-- What the two branches leave.
abbrev pub MapsPages :
    {o : Os} → (alignment size total : ℕ) → List Region → Outcome (Sys o) ℕ → Type 0
MapsPages alignment size total owned r =
    if ltb size (2 * 1024 * 1024)
    then MapsTwice alignment size total owned r
    else MapsBig size owned r

module _ {o : Os} (law : IsLawful o) where
  big_mapping-Maps :
      (fail al size : ℕ) (w : Sys o) (r : ℕ × o.State)
      → Grants o fail Kind.pages al size w.os r
      → MapsBig size (o.live w.os) (big_mapping fail size w r)
  unfolding big_mapping
  big_mapping-Maps fail al size w r (inl g) =
      let failed : (r.0 == fail) ≡ true = ground (arith, g.fails) in rw failed (g.same, refl)
  big_mapping-Maps fail al size w r (inr g) =
      let mapped : (r.0 == fail) ≡ false = ground (arith, g.succeeds) in
      rw mapped (g.added, g.apart)

  map_big_on :
      (x : Platform) (nd : Bool) (size : ℕ) (w : Sys o)
      → 0 < size
      → MapsBig size (o.live w.os) (map_big (record { platform = x; ndebug = nd }) size w)
  unfolding map_big
  map_big_on win32 nd size w pos =
      big_mapping-Maps 0 o.granularity size w _ (law.virtual_alloc_law true size w.os pos)
  map_big_on posix nd size w pos =
      big_mapping-Maps map_failed o.page_size size w _ (law.mmap_law true size w.os pos)

  -- From 2 MB on, OS_AllocBigPage maps exactly the size, apart from all that is allocated, or
  -- throws with the error of the system stored and allocates nothing.
  pub os_alloc_big_page-Maps :
      (b : Build) (size alignment : ℕ) (w : Sys o)
      → 2 * 1024 * 1024 ≤ size
      → MapsBig size (o.live w.os) (os_alloc_big_page b size alignment w)
  unfolding os_alloc_big_page
  os_alloc_big_page-Maps b size alignment w le =
      let big : ltb size (2 * 1024 * 1024) ≡ false = ground arith in
      rw big (map_big_on b.platform b.ndebug size w (omega arith))

  twice :
      (alignment size total q : ℕ) (owned : List Region) (r : Outcome (Sys o) ℕ)
      → MapsBig size (region Kind.pages q total ∷ owned) r
      → MapsTwice alignment size total owned r
  twice alignment size total q owned (returns p w) (e, apart) = (q, e)
  twice alignment size total q owned (bad_alloc w) (e, error) = inr (q, e)
  twice alignment size total q owned aborted h = elim h [ ]
  twice alignment size total q owned (fault a w) h = elim h [ ]

  -- From a page on and below 2 MB, an OS_AllocBigPage that returns leaves two new mappings, of
  -- which the caller gets one; one that throws leaves at most the first.
  pub os_alloc_big_page-MapsTwice :
      {b : Build} {size alignment : ℕ} {w : Sys o}
      → IsPageRequest o b size alignment w
      → size < 2 * 1024 * 1024
      → MapsTwice alignment size
          (total_size_of size (effective alignment))
          (o.live w.os)
          (os_alloc_big_page b size alignment w)
  unfolding os_alloc_big_page
  os_alloc_big_page-MapsTwice {b} {size} {alignment} {w} q lt =
      let small : ltb size (2 * 1024 * 1024) ≡ true = ground arith in
      rw small (elim (os_alloc-cases law q) [
        | inl u ↦ rw u.threw (inl u.same)
        | inr m ↦ elim (outcomes law q m) [
          | inl (above, e) ↦ rw e (
              twice alignment size _ m.base _ _ (
                rw (← m.added) (
                  map_big_on b.platform b.ndebug size _
                    (omega (arith, q.pages, law.page_size_holds_header)))))
          | inr (below, e) ↦ rw e (past law q m below)
        ]
      ])

  -- For a request of a page or more that passes the check, with an alignment that is a power of
  -- two and sizes that do not overflow, OS_AllocBigPage from 2 MB on maps exactly the size, apart
  -- from all that is allocated, or throws with the error of the system stored and allocates
  -- nothing; below 2 MB, if it returns, it leaves two new mappings, of which the caller gets one,
  -- if it throws, at most the first, and it stores a header outside of the mapping only with an
  -- alignment above the page size.
  pub os_alloc_big_page-MapsPages :
      {b : Build} {size alignment : ℕ} {w : Sys o}
      → IsPageRequest o b size alignment w
      → MapsPages alignment size
          (total_size_of size (effective alignment))
          (o.live w.os)
          (os_alloc_big_page b size alignment w)
  os_alloc_big_page-MapsPages {b} {size} {alignment} {w} q =
      elim (Bool-cases (ltb size (2 * 1024 * 1024))) [
        | inl below ↦ rw below (os_alloc_big_page-MapsTwice q (ground arith))
        | inr above ↦ rw above (os_alloc_big_page-Maps b size alignment w (ground arith))
      ]
