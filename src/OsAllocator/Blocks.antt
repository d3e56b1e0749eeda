-- ===== src/OsAllocator/Blocks.antt =====
-- What the mappings of `OS_Alloc` serve, and what `OS_Free` makes of them.
use mathlib.Core.List.Perm
use sallocator.Base.{
  ℕ, ◌+◌, ◌%◌, ◌≤◌, ◌<◌, ◌≡◌, ◌≢◌, refl, inl, inr, ◌∷◌, Perm, arith, ◌==◌, sub64, Bool-cases, leb,
}
use sallocator.Os.{Kind, region, Os, ApartFrom, IsLawful}
use sallocator.OsAllocator.{
  Build, Sys, Outcome, returns, bad_alloc, aborted, fault, place, total_size_of, read_header,
  effective, os_alloc, os_free, unmap,
}
use sallocator.OsAllocator.Header.{unmap-Releases, os_free_pages}
use sallocator.OsAllocator.Pages.{mod-effective, IsPageRequest, Mapped, os_alloc-cases}
use sallocator.OsAllocator.Mappings.{
  bounds, block_inside, header_addr, stored, outcomes, aligned_inside, pages_returned,
  stored-header, stored-zero, unaligned_below, pages_inside, header_far, stored_at,
}

-- A request of whole pages is served by a new mapping in which the block lies, behind room for a
-- header and with the alignment that was asked for, or nothing is allocated.
abbrev pub Serves : {o : Os} → ℕ → ℕ → Sys o → Outcome (Sys o) ℕ → Type 0
Serves {o} size alignment w (returns p w') =
    (base : ℕ) × (total : ℕ) × (o.live w'.os ≡ region Kind.pages base total ∷ o.live w.os)
    × ApartFrom (region Kind.pages base total) (o.live w.os)
    × (p % alignment ≡ 0)
    × (base + 16 ≤ p)
    × (p + size ≤ base + total)
Serves {o} size alignment w (bad_alloc w') = o.live w'.os ≡ o.live w.os
Serves size alignment w aborted = ⊥
Serves size alignment w (fault a w') = ⊥

-- After `OS_Free` of the block the mapping is gone, and all else is as before the allocation.
abbrev pub GivenBack : {o : Os} → Build → ℕ → Sys o → Outcome (Sys o) ℕ → Type 0
GivenBack {o} b size w (returns p w') = Perm (o.live (os_free b p size w').os) (o.live w.os)
GivenBack {o} b size w (bad_alloc w') = o.live w'.os ≡ o.live w.os
GivenBack b size w aborted = ⊥
GivenBack b size w (fault a w') = ⊥

-- `OS_Free` of the block unmaps 0 bytes at the address 0, and not the mapping, whose header is
-- stored further below the block.
abbrev pub FreedAtZero :
    {o : Os} → Build → (size alignment : ℕ) → Sys o → Outcome (Sys o) ℕ → Type 0
FreedAtZero {o} b size alignment w (returns p w') =
    ((os_free b p size w').os ≡ unmap o b (record { base_ptr = 0; total_size = 0 }) w'.os)
    × ((base : ℕ) × (total : ℕ) × (o.live w'.os ≡ region Kind.pages base total ∷ o.live w.os)
        × (base ≢ 0)
        × (h : ℕ) × (base ≤ h)
        × (h + 32 ≤ p)
        × (read_header h w'.words ≡ record { base_ptr = base; total_size = total }))
FreedAtZero {o} b size alignment w (bad_alloc w') = o.live w'.os ≡ o.live w.os
FreedAtZero b size alignment w aborted = ⊥
FreedAtZero {o} b size alignment w (fault a w') = o.page_size < alignment

-- The new mapping begins at a multiple of the alignment, or the header is stored below its start.
abbrev pub HeaderMisplaced : {o : Os} → ℕ → Sys o → Outcome (Sys o) ℕ → Type 0
HeaderMisplaced {o} alignment w (returns p w') =
    (base : ℕ) × (total : ℕ) × (o.live w'.os ≡ region Kind.pages base total ∷ o.live w.os)
    × (base % alignment ≡ 0)
HeaderMisplaced {o} alignment w (bad_alloc w') = o.live w'.os ≡ o.live w.os
HeaderMisplaced alignment w aborted = ⊥
HeaderMisplaced {o} alignment w (fault h w') =
    (base : ℕ) × (total : ℕ) × (o.live w'.os ≡ region Kind.pages base total ∷ o.live w.os)
    × (base % alignment ≢ 0)
    × (h < base)

module _ {o : Os} (law : IsLawful o) {b : Build} {size alignment : ℕ} {w : Sys o}
    (q : IsPageRequest o b size alignment w) where
  module _ {r : Outcome (Sys o) ℕ}
      (m : Mapped size (effective alignment) (record w { cached_page_size = o.page_size }) r) where
    -- `OS_Free` unmaps what the two words below the block name.
    freed :
        (os_free b (place m.base (effective alignment)) size (stored law q m)).os
        ≡ unmap o b
            (read_header (sub64 (place m.base (effective alignment)) 16) (stored law q m).words)
            m.os'
    freed =
        os_free_pages law b _ size (stored law q m)
          (ground (arith, bounds law q m, law.page_size_holds_header)) (inr refl) q.pages

    pub past : header_addr law q m < m.base → o.page_size < alignment
    past below = elim (Bool-cases (leb alignment o.page_size)) [
      | inl le ↦ absurd (omega (arith, below, pages_inside law q m (ground (arith, le))))
      | inr more ↦ ground (arith, more)
    ]

    back :
        alignment ≤ 16
        → Perm
            (o.live (os_free b (place m.base (effective alignment)) size (stored law q m)).os)
            (o.live w.os)
    back small =
        rw (freed, stored-header law q m small)
          (unmap-Releases law b.platform b.ndebug _ m.os' (o.live w.os) (rw m.added (Perm.refl _))
            m.apart)

  -- A request of OS_Alloc for a page or more that passes the check, with an alignment that is a
  -- power of two and at most the page size and sizes that do not overflow, returns a pointer
  -- aligned to it, inside a new mapping that overlaps nothing, with the size after it and 16 bytes
  -- before it, or throws std::bad_alloc and allocates nothing; it never stores its header outside
  -- of the mapping.
  pub os_alloc-Serves :
      alignment ≤ o.page_size → Serves size alignment w (os_alloc b size alignment w)
  os_alloc-Serves le = elim (os_alloc-cases law q) [
    | inl u ↦ rw u.threw u.same
    | inr m ↦ rw (pages_returned law q m le) (
      m.base,
      total_size_of size (effective alignment),
      m.added,
      m.apart,
      mod-effective alignment _ q.pow2 (bounds law q m).0,
      (bounds law q m).1,
      block_inside law q m,
    )
  ]

  -- OS_Free of what OS_Alloc returns.
  pub os_free-os_alloc : alignment ≤ 16 → GivenBack b size w (os_alloc b size alignment w)
  os_free-os_alloc small = elim (os_alloc-cases law q) [
    | inl u ↦ rw u.threw u.same
    | inr m ↦
        rw (pages_returned law q m (omega (arith, small, law.page_size_holds_header)))
          (back m small)
  ]

  -- With an alignment above the page size, a request of OS_Alloc for a page or more that passes
  -- the check, with an alignment that is a power of two and sizes that do not overflow, throws and
  -- allocates nothing, or maps pages at a multiple of the alignment and returns, or maps pages
  -- elsewhere and then stores the header below the mapping, which is undefined behaviour.
  pub os_alloc-HeaderMisplaced :
      o.page_size < alignment → HeaderMisplaced alignment w (os_alloc b size alignment w)
  os_alloc-HeaderMisplaced big = elim (os_alloc-cases law q) [
    | inl u ↦ rw u.threw u.same
    | inr m ↦
        let same : effective alignment ≡ alignment = ground (arith, law.page_size_holds_header) in
        elim (outcomes law q m) [
          | inl (above, e) ↦ elim (Bool-cases (m.base % alignment == 0)) [
            | inl whole ↦
                rw e
                  (m.base, total_size_of size (effective alignment), m.added, ground (arith, whole))
            | inr part ↦ absurd (omega (arith, above, unaligned_below law q m big part))
          ]
          | inr (below, e) ↦ rw e (
            m.base,
            total_size_of size (effective alignment),
            m.added,
            λ whole. absurd (omega (arith, below, aligned_inside law q m (rw same whole))),
            below,
          )
        ]
  ]

  -- For a request of OS_Alloc for a page or more that passes the check, with an alignment that is
  -- a power of two and sizes that do not overflow, and with an alignment above 16, OS_Free of what
  -- it returns unmaps the size 0 at the address 0, the zeros of the new mapping right below the
  -- block, although the address and the size of the mapping, which is not at 0, are stored in it
  -- at least 32 bytes below the block; one that throws allocates nothing, and the header is stored
  -- outside of the mapping only with an alignment above the page size.
  pub os_alloc-FreedAtZero :
      16 < alignment → FreedAtZero b size alignment w (os_alloc b size alignment w)
  os_alloc-FreedAtZero big = elim (os_alloc-cases law q) [
    | inl u ↦ rw u.threw u.same
    | inr m ↦ elim (outcomes law q m) [
      | inl (above, e) ↦ rw e (
        rw (freed m, stored-zero law q m big) refl,
        (
          m.base,
          total_size_of size (effective alignment),
          m.added,
          omega (arith, m.base_ge, law.page_size_holds_header),
          header_addr law q m,
          above,
          header_far law q m big,
          stored_at law q m,
        ),
      )
      | inr (below, e) ↦ rw e (past m below)
    ]
  ]
