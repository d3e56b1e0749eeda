-- ===== src/OsAllocator/Tracks.antt =====
-- The state of src/SysApi.cpp with the blocks that are in use: what a call of OS_Alloc or OS_Free
-- makes of it.
use mathlib.Core.List.{mem-append_left}
use mathlib.Core.List.Perm
use sallocator.Base.{
  ℕ, ◌+◌, ◌≤◌, ◌<◌, ◌≡◌, ◌≢◌, ◌⊎◌, refl, ◌∙◌, sym, inl, inr, Bool, true, false, List, ◌∷◌, ◌++◌,
  Mem, arith, ltb, ◌==◌, sub64, Bool-cases, subst,
}
use sallocator.Os.{Kind, Region, region, Os, Platform, win32, posix, Apart, IsLawful}
use sallocator.Os.Blocks.{Block, block}
use sallocator.Os.Owned.{Owns, Owns-add}
use sallocator.OsAllocator.{
  Build, Sys, Outcome, returns, bad_alloc, aborted, fault, effective, place, total_size_of,
  read_header, alloc_small, os_alloc,
}
use sallocator.OsAllocator.Pages.{IsCached, IsPageRequest, Mapped, get_page_size_eq, os_alloc-cases}
use sallocator.OsAllocator.Small.{small_kind, ServesSmall, os_alloc-ServesSmall}
use sallocator.OsAllocator.Mappings.{
  bounds, block_inside, mapped, stored, stored-header, header_size_small, pages_returned,
}
use sallocator.OsAllocator.Header.{read_header-write_header_apart, read_header-fill_zero_apart}
use sallocator.OsAllocator.Cached.{KeepsCached, os_alloc-KeepsCached}
use sallocator.OsAllocator.Held.{IsPaged, Holds, Holds-frame}
use sallocator.OsAllocator.Requests.{IsServable}

-- The regions `rs` behind the blocks in use, and `others`, are what is allocated.
pub record Tracks (o : Os) (x : Platform) (w : Sys o) (used : List Block) (rs others : List Region)
    : Type 0 where
  pub cached : IsCached w
  pub holds : Holds o x w.words used rs
  pub owns : Owns (o.live w.os) (rs ++ others)

-- A call of `OS_Alloc` gives a block of its own, or none and leaves what is owned as it was.
module _ (o : Os) (x : Platform) (size : ℕ) (used : List Block) (rs others : List Region) where
  abbrev pub Allocates : Outcome (Sys o) ℕ → Type 0
  Allocates (returns p w') =
      ((p ≡ 0) × Tracks o x w' used rs others)
      ⊎ ((p ≢ 0) × ((r : Region) × Tracks o x w' (block p size ∷ used) (r ∷ rs) others))
  Allocates (bad_alloc w') = Tracks o x w' used rs others
  Allocates aborted = ⊥
  Allocates (fault a w') = ⊥

abbrev KeepsWords : {o : Os} → Sys o → Outcome (Sys o) ℕ → Type 0
KeepsWords w (returns p w') = w'.words ≡ w.words
KeepsWords w (bad_alloc w') = w'.words ≡ w.words
KeepsWords w aborted = Unit
KeepsWords w (fault a w') = Unit

alloc_small-KeepsWords :
    {o : Os} (x : Platform) (nd : Bool) (size alignment page : ℕ) (w : Sys o)
    → KeepsWords w (
        alloc_small
          (record { platform = x; ndebug = nd })
          size
          alignment
          (record w { cached_page_size = page }))
unfolding alloc_small
alloc_small-KeepsWords win32 nd size alignment page w = refl
alloc_small-KeepsWords posix nd size alignment page w = refl

-- The regions of the blocks are allocated.
mem-live :
    {o : Os} {x : Platform} {w : Sys o} {used : List Block} {rs others : List Region}
    → Tracks o x w used rs others
    → (r : Region) → Mem r rs
    → Mem r (o.live w.os)
mem-live {others} v r m = (Perm.mem_iff v.owns.same).1 (mem-append_left others m)

module _ {o : Os} (law : IsLawful o) (b : Build) {w : Sys o} {used : List Block}
    {rs others : List Region} (v : Tracks o b.platform w used rs others) where
  module _ (size alignment : ℕ) (good : IsServable o b size alignment) where
    small-Allocates :
        0 < size
        → size < o.page_size
        → (r : Outcome (Sys o) ℕ) → ServesSmall b size alignment (o.live w.os) r
        → KeepsCached r
        → KeepsWords w r
        → Allocates o b.platform size used rs others r
    small-Allocates pos lt (returns p w') (inl (null, same)) c words = inl (
      null,
      record {
        cached = c;
        holds = subst (λ f. Holds o b.platform f used rs) (sym words) v.holds;
        owns = rw same v.owns;
      },
    )
    small-Allocates pos lt (returns p w') (inr (n, le, ne, aligned, added, apart, back)) c words =
        inr (
          ne,
          (
            region (small_kind b.platform) p n,
            record {
              cached = c;
              holds = (
                inl (record {
                  below = lt;
                  positive = pos;
                  ptr_ne = ne;
                  is_region = refl;
                  size_le = le;
                }),
                subst (λ f. Holds o b.platform f used rs) (sym words) v.holds,
              );
              owns = Owns-add (region (small_kind b.platform) p n) added apart v.owns;
            },
          ),
        )
    small-Allocates pos lt (bad_alloc w') h c words = absurd h
    small-Allocates pos lt aborted h c words = absurd h
    small-Allocates pos lt (fault a w') h c words = absurd h

    module _ (le : o.page_size ≤ size) where
      request : IsPageRequest o b size alignment w
      request = record {
        passes = good.passes;
        pow2 = good.pow2;
        pages = le;
        fits = good.fits;
        cached = v.cached;
      }

      module _ {r : Outcome (Sys o) ℕ}
          (m : Mapped size
            (effective alignment)
            (record w { cached_page_size = o.page_size })
            r) where
        abbrev ptr : ℕ
        ptr = place m.base (effective alignment)

        abbrev mapping : Region
        mapping = region Kind.pages m.base (total_size_of size (effective alignment))

        inside :
            (m.base + 16 ≤ ptr) × (ptr + size ≤ m.base + total_size_of size (effective alignment))
        inside = ((bounds law request m).1, block_inside law request m)

        new-IsPaged : IsPaged o (stored law request m).words (block ptr size) mapping
        new-IsPaged = record {
          pages = le;
          positive = omega (arith, le, law.page_size_holds_header);
          is_region = refl;
          room = inside.0;
          within = inside.1;
          bounded = m.bounded;
          header = stored-header law request m (good.header_fits le);
        }

        header_kept :
            (c : Block) (q : Region)
            → Mem q rs
            → IsPaged o w.words c q
            → read_header (sub64 c.ptr 16) (stored law request m).words
              ≡ read_header (sub64 c.ptr 16) w.words
        header_kept c q k h =
            let away : Apart mapping q = m.apart q (mem-live v q k) in
            rw (header_size_small law request m (good.header_fits le)) (
              read_header-write_header_apart ptr c.ptr _ (mapped law request m).words
                (ground (arith, away, inside, h.room, h.within)) (omega (arith, inside))
                (omega (arith, h.room)) (omega (arith, inside, m.bounded))
                (omega (arith, h.within, h.bounded))
              ∙ read_header-fill_zero_apart m.base _ c.ptr w.words
                  (ground (arith, away, h.room, h.within)) (omega (arith, h.room))
                  (omega (arith, h.within, h.bounded)))

        mapped-Tracks :
            Tracks o b.platform (stored law request m) (block ptr size ∷ used) (mapping ∷ rs) others
        mapped-Tracks = record {
          cached = inr refl;
          holds = (inr new-IsPaged, Holds-frame o b.platform w.words _ used rs v.holds header_kept);
          owns = Owns-add mapping m.added m.apart v.owns;
        }

      paged-Allocates : Allocates o b.platform size used rs others (os_alloc b size alignment w)
      paged-Allocates = elim (os_alloc-cases law request) [
        | inl u ↦
            rw u.threw (record { cached = inr refl; holds = v.holds; owns = rw u.same v.owns })
        | inr m ↦
            rw
              (pages_returned law request m
                (omega (arith, good.header_fits le, law.page_size_holds_header)))
              (inr (omega (arith, (inside m).0), (mapping m, mapped-Tracks m)))
      ]

    small-KeepsWords :
        (size == 0) ≡ false
        → ltb size o.page_size ≡ true
        → KeepsWords w (os_alloc b size alignment w)
    unfolding os_alloc
    small-KeepsWords some_size below =
        rw (good.passes, some_size, get_page_size_eq law w v.cached, below)
          (alloc_small-KeepsWords b.platform b.ndebug size (effective alignment) o.page_size w)

    -- Any request.
    pub os_alloc-Allocates :
        Allocates o b.platform size used rs others (os_alloc b size alignment w)
    os_alloc-Allocates = elim (Bool-cases (size == 0)) [
      | inl none ↦ unfold os_alloc in rw (good.passes, none) (inl (refl, v))
      | inr some_size ↦ elim (Bool-cases (ltb size o.page_size)) [
        | inr paged ↦ paged-Allocates (ground arith)
        | inl below ↦
            small-Allocates (ground arith) (ground arith) (os_alloc b size alignment w)
              (os_alloc-ServesSmall law (record {
                passes = good.passes;
                pow2 = good.pow2;
                positive = ground arith;
                below = ground arith;
                fits = omega (arith, good.fits);
                cached = v.cached;
              }))
              (os_alloc-KeepsCached b size alignment w v.cached) (small-KeepsWords some_size below)
      ]
    ]
