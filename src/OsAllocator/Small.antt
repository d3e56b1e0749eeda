-- ===== src/OsAllocator/Small.antt =====
-- `OS_Alloc` and `OS_Free` of src/SysApi.cpp below a page.
use mathlib.Core.List.Perm
use native.Mathlib.Nat.{div-mul-le_self}
use sallocator.Base.{
  ℕ, ◌+◌, ◌-◌, ◌/◌, ◌%◌, ◌^◌, ◌≤◌, ◌<◌, ◌≡◌, ◌≢◌, ◌⊎◌, refl, inl, inr, Bool, true, false, List, ◌∷◌,
  Perm, arith, ltb, ◌==◌, mul64, sub64, add64,
}
use sallocator.Bits.{IsPow2, IsPow2-pos, round_up, round_up_bounds, round_up-mod}
use sallocator.Os.{
  Kind, Region, region, Os, win32, posix, Platform, ApartFrom, IsLawful, Releases, Grants,
}
use sallocator.OsAllocator.{
  Build, Sys, Outcome, returns, bad_alloc, aborted, fault, check_alignment, effective, os_alloc,
  alloc_small, os_free,
}
use sallocator.OsAllocator.Pages.{effective-IsPow2, mod-effective, get_page_size_eq, IsCached}

-- The kind of the blocks below a page.
abbrev pub small_kind : Platform → Kind
small_kind win32 = Kind.aligned
small_kind posix = Kind.heap

-- A request below a page whose rounding does not overflow.
pub record IsSmallRequest (o : Os) (b : Build) (size alignment : ℕ) (w : Sys o) : Type 0 where
  pub passes : check_alignment o b alignment ≡ true
  pub pow2 : IsPow2 alignment
  pub positive : 0 < size
  pub below : size < o.page_size
  pub fits : size + effective alignment ≤ 2 ^ 64
  pub cached : IsCached w

-- A null pointer and nothing allocated, or a new aligned block that `OS_Free` takes away.
abbrev pub ServesSmall : {o : Os} → Build → ℕ → ℕ → List Region → Outcome (Sys o) ℕ → Type 0
ServesSmall {o} b size alignment owned (returns p w') =
    ((p ≡ 0) × (o.live w'.os ≡ owned))
    ⊎ ((n : ℕ) × (size ≤ n)
        × (p ≢ 0)
        × (p % alignment ≡ 0)
        × (o.live w'.os ≡ region (small_kind b.platform) p n ∷ owned)
        × ApartFrom (region (small_kind b.platform) p n) owned
        × Perm (o.live (os_free b p size w').os) owned)
ServesSmall b size alignment owned (bad_alloc w') = ⊥
ServesSmall b size alignment owned aborted = ⊥
ServesSmall b size alignment owned (fault a w) = ⊥

module _ {o : Os} (law : IsLawful o) where
  pub os_free_small :
      (x : Platform) (nd : Bool) (p size : ℕ) (w : Sys o)
      → p ≢ 0
      → size < o.page_size
      → IsCached w
      → (n : ℕ)
      → Releases o
          (small_kind x)
          p
          n
          w.os
          (os_free (record { platform = x; ndebug = nd }) p size w).os
  unfolding os_free
  os_free_small win32 nd p size w ne lt cached n =
      let live : (p == 0) ≡ false = ground arith in
      let small : ltb size o.page_size ≡ true = ground arith in
      rw (live, get_page_size_eq law w cached, small) (law.aligned_free_law p n w.os)
  os_free_small posix nd p size w ne lt cached n =
      let live : (p == 0) ≡ false = ground arith in
      let small : ltb size o.page_size ≡ true = ground arith in
      rw (live, get_page_size_eq law w cached, small) (law.free_law p n w.os)

  granted :
      (x : Platform) (nd : Bool) (size a n : ℕ) (w : Sys o)
      → size ≤ n
      → size < o.page_size
      → w.cached_page_size ≡ o.page_size
      → (r : ℕ × o.State) → Grants o 0 (small_kind x) a n w.os r
      → ServesSmall
          (record { platform = x; ndebug = nd })
          size
          a
          (o.live w.os)
          (returns r.0 (record w { os = r.1 }))
  granted x nd size a n w le lt cached r (inl g) = inl (g.fails, g.same)
  granted x nd size a n w le lt cached r (inr g) = inr (
    n,
    le,
    g.succeeds,
    g.aligns,
    g.added,
    g.apart,
    os_free_small x nd r.0 size (record w { os = r.1 }) g.succeeds lt (inr cached) n (o.live w.os)
        (rw g.added (Perm.refl _)) g.apart,
  )

  -- A block of the effective alignment has the one that was asked for.
  weaken :
      (b : Build) (size alignment : ℕ) (owned : List Region) (r : Outcome (Sys o) ℕ)
      → IsPow2 alignment
      → ServesSmall b size (effective alignment) owned r
      → ServesSmall b size alignment owned r
  weaken b size alignment owned (returns p w) pow2 (inl null) = inl null
  weaken b size alignment owned (returns p w) pow2 (inr (n, le, ne, aligned, e, apart, back)) =
      inr (n, le, ne, mod-effective alignment p pow2 aligned, e, apart, back)
  weaken b size alignment owned (bad_alloc w) pow2 h = elim h [ ]
  weaken b size alignment owned aborted pow2 h = elim h [ ]
  weaken b size alignment owned (fault a w) pow2 h = elim h [ ]

  round_up_word :
      {a : ℕ} → IsPow2 a → (x : ℕ) → x + a ≤ 2 ^ 64 → mul64 ((x + a - 1) / a) a ≡ round_up a x
  unfolding round_up
  round_up_word {a} p x h = omega (arith, div-mul-le_self (x + a - 1) a, IsPow2-pos p)

  alloc_small-Serves :
      (x : Platform) (nd : Bool) (size a : ℕ) (w : Sys o)
      → IsPow2 a
      → 0 < size
      → size + a ≤ 2 ^ 64
      → size < o.page_size
      → w.cached_page_size ≡ o.page_size
      → let b : Build = record { platform = x; ndebug = nd } in
        ServesSmall b size a (o.live w.os) (alloc_small b size a w)
  unfolding alloc_small
  alloc_small-Serves win32 nd size a w p pos fits lt cached =
      granted win32 nd size a size w (omega arith) lt cached _
        (law.aligned_malloc_law size a w.os p pos)
  alloc_small-Serves posix nd size a w p pos fits lt cached =
      let shift : sub64 (add64 size a) 1 ≡ size + a - 1 = omega arith in
      let up = round_up_bounds p size in
      let whole : mul64 (sub64 (add64 size a) 1 / a) a ≡ round_up a size =
        rw shift (round_up_word p size fits) in
      rw whole (
        granted posix nd size a (round_up a size) w (omega (arith, up)) lt cached _ (
          law.aligned_alloc_law a (round_up a size) w.os p (omega (arith, up, pos))
            (round_up-mod a size)))

  -- A request of OS_Alloc below a page that passes the check, of a size that is not 0, with an
  -- alignment that is a power of two and without overflow, returns null and allocates nothing, or
  -- returns a block of at least the size with the alignment, and OS_Free with the size takes away
  -- that block and no other.
  pub os_alloc-ServesSmall :
      {b : Build} {size alignment : ℕ} {w : Sys o}
      → IsSmallRequest o b size alignment w
      → ServesSmall b size alignment (o.live w.os) (os_alloc b size alignment w)
  unfolding os_alloc
  os_alloc-ServesSmall {b} {size} {alignment} {w} q =
      let some_size : (size == 0) ≡ false = ground (arith, q.positive) in
      let small : ltb size o.page_size ≡ true = ground (arith, q.below) in
      rw (q.passes, some_size, get_page_size_eq law w q.cached, small)
        (weaken b size alignment _ _ q.pow2 (
          alloc_small-Serves b.platform b.ndebug size (effective alignment)
            (record w { cached_page_size = o.page_size }) (effective-IsPow2 alignment q.pow2)
            q.positive q.fits q.below refl))
