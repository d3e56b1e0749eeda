-- ===== src/OsAllocator/Pages.antt =====
-- `OS_Alloc` and `OS_Free` of src/SysApi.cpp from a page on.
use native.Mathlib.Nat.{mod-eq_of_lt, le_refl}
use sallocator.Base.{
  ℕ, ◌+◌, ◌*◌, ◌%◌, ◌^◌, ◌≤◌, ◌<◌, ◌≡◌, ◌⊎◌, refl, inl, inr, Bool, true, false, ◌∷◌, arith, ltb,
  ◌==◌, Bool-cases,
}
use sallocator.Bits.{IsPow2, IsPow2-pos, IsPow2-mod}
use sallocator.Os.{
  Kind, region, Os, win32, posix, Platform, map_failed, ApartFrom, IsLawful, Grants,
}
use sallocator.OsAllocator.{
  Build, Sys, Outcome, bad_alloc, check_alignment, total_size_of, fill_zero, store_header,
  use_mapping, alloc_pages, effective, get_page_size, os_alloc,
}
use sallocator.OsAllocator.Place.{total_size_eq}

eight-IsPow2 : IsPow2 8
eight-IsPow2 = record { exp = 3; exp_lt = omega arith; value = refl }

pub effective-IsPow2 : (a : ℕ) → IsPow2 a → IsPow2 (effective a)
effective-IsPow2 a p = elim (Bool-cases (ltb 8 a)) [
  | inl big ↦ rw big p
  | inr small ↦ rw small eight-IsPow2
]

-- A block of `effective alignment` is aligned to the alignment that was asked for.
pub mod-effective : (a x : ℕ) → IsPow2 a → x % effective a ≡ 0 → x % a ≡ 0
mod-effective a x p h = IsPow2-mod (effective-IsPow2 a p) p x (ground arith) h

-- The static variable of `GetPageSize` holds nothing yet, or the page size.
abbrev pub IsCached : {o : Os} → Sys o → Type 0
IsCached {o} w = (w.cached_page_size ≡ 0) ⊎ (w.cached_page_size ≡ o.page_size)

-- A request for whole pages with which no size overflows.
pub record IsPageRequest (o : Os) (b : Build) (size alignment : ℕ) (w : Sys o) : Type 0 where
  pub passes : check_alignment o b alignment ≡ true
  pub pow2 : IsPow2 alignment
  pub pages : o.page_size ≤ size
  pub fits : size + (2 * effective alignment + 16) < 2 ^ 64
  pub cached : IsCached w

-- The outcome where the system maps the pages.
pub record Mapped {o : Os} (size a : ℕ) (w : Sys o) (r : Outcome (Sys o) ℕ) : Type 0 where
  pub base : ℕ
  pub os' : o.State
  pub base_ge : o.page_size ≤ base
  pub base_aligned : base % o.page_size ≡ 0
  pub bounded : base + total_size_of size a < 2 ^ 64
  pub added : o.live os' ≡ region Kind.pages base (total_size_of size a) ∷ o.live w.os
  pub apart : ApartFrom (region Kind.pages base (total_size_of size a)) (o.live w.os)
  pub returned :
      r
      ≡ store_header a
          (total_size_of size a)
          base
          (record w { os = os'; words = fill_zero base (total_size_of size a) w.words })

-- And where it has none.
pub record Unmapped {o : Os} (w : Sys o) (r : Outcome (Sys o) ℕ) : Type 0 where
  pub os' : o.State
  pub same : o.live os' ≡ o.live w.os
  pub threw : r ≡ bad_alloc (record w { os = os' })

module _ {o : Os} (law : IsLawful o) where
  pub get_page_size_eq :
      (w : Sys o)
      → IsCached w
      → get_page_size w ≡ (o.page_size, record w { cached_page_size = o.page_size })
  unfolding get_page_size
  get_page_size_eq w (inl e) = rw e
  get_page_size_eq w (inr e) =
      let stored : (w.cached_page_size == 0) ≡ false = ground (arith, law.page_size_holds_header) in
      rw stored (λ i. (e i, record w { cached_page_size = e i }))

  use_mapping-cases :
      (fail : ℕ) {al : ℕ} (size a : ℕ) (w : Sys o) (r : ℕ × o.State)
      → IsPow2 al
      → o.page_size ≤ al
      → Grants o fail Kind.pages al (total_size_of size a) w.os r
      → Unmapped w (use_mapping fail a (total_size_of size a) w r)
        ⊎ Mapped size a w (use_mapping fail a (total_size_of size a) w r)
  unfolding use_mapping
  use_mapping-cases fail size a w r p le (inl g) =
      let failed : (r.0 == fail) ≡ true = ground (arith, g.fails) in
      rw failed (inl (record { os' = r.1; same = g.same; threw = refl }))
  use_mapping-cases fail size a w r p le (inr g) =
      let mapped : (r.0 == fail) ≡ false = ground (arith, g.succeeds) in
      let paged : r.0 % o.page_size ≡ 0 = IsPow2-mod p law.page_size_pow2 r.0 le g.aligns in
      let page_le : o.page_size ≤ r.0 = grind (arith, mod-eq_of_lt, g.positive) in
      rw mapped (
        inr (record {
          base = r.0;
          os' = r.1;
          base_ge = page_le;
          base_aligned = paged;
          bounded = g.bounded;
          added = g.added;
          apart = g.apart;
          returned = refl;
        }))

  alloc_pages_on :
      (x : Platform) (nd : Bool) (size a : ℕ) (w : Sys o)
      → 0 < total_size_of size a
      → let b : Build = record { platform = x; ndebug = nd } in
        Unmapped w (alloc_pages b size a w) ⊎ Mapped size a w (alloc_pages b size a w)
  unfolding alloc_pages
  alloc_pages_on win32 nd size a w pos =
      use_mapping-cases 0 size a w (o.virtual_alloc false (total_size_of size a) w.os)
        law.granularity_pow2 law.page_size_le (law.virtual_alloc_law false _ w.os pos)
  alloc_pages_on posix nd size a w pos =
      use_mapping-cases map_failed size a w (o.mmap false (total_size_of size a) w.os)
        law.page_size_pow2 (le_refl o.page_size) (law.mmap_law false _ w.os pos)

  module _ {b : Build} {size alignment : ℕ} {w : Sys o}
      (q : IsPageRequest o b size alignment w) where
    -- The state after `GetPageSize`.
    abbrev known : Sys o
    known = record w { cached_page_size = o.page_size }

    alloc_pages-cases :
        Unmapped known (alloc_pages b size (effective alignment) known)
        ⊎ Mapped size (effective alignment) known (alloc_pages b size (effective alignment) known)
    alloc_pages-cases = alloc_pages_on b.platform b.ndebug size (effective alignment) known (
        omega (
          arith,
          total_size_eq (effective-IsPow2 alignment q.pow2) size q.fits,
          IsPow2-pos (effective-IsPow2 alignment q.pow2),
        ))

    -- `OS_Alloc` of such a request either maps new pages or throws.
    pub os_alloc-cases :
        Unmapped known (os_alloc b size alignment w)
        ⊎ Mapped size (effective alignment) known (os_alloc b size alignment w)
    unfolding os_alloc
    os_alloc-cases =
        let some_size : (size == 0) ≡ false = ground (arith, q.pages, law.page_size_holds_header) in
        let big : ltb size o.page_size ≡ false = ground (arith, q.pages) in
        rw (q.passes, some_size, get_page_size_eq w q.cached, big) alloc_pages-cases
