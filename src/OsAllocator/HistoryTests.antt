-- ===== src/OsAllocator/HistoryTests.antt =====
-- A history of src/SysApi.cpp on the instance `bump`, and the theorems on it.
use mathlib.Core.List.{Pairwise}
use sallocator.Base.{ℕ, ◌-◌, ◌^◌, ◌≡◌, ◌≢◌, refl, inl, true, [], ◌∷◌, Perm, arith}
use sallocator.Bits.{sixteen-IsPow2, round_up}
use sallocator.Os.{posix, Apart}
use sallocator.Os.Blocks.{block, Separate}
use sallocator.Os.Bump.{bump, bump-IsLawful, grant}
use sallocator.OsAllocator.{
  Build, Sys, Outcome, returns, bad_alloc, aborted, fault, os_alloc, os_free, check_alignment,
  get_page_size, alloc_pages, alloc_small, use_mapping, store_header, place, header_size_of,
  total_size_of,
}
use sallocator.OsAllocator.Requests.{IsServable}
use sallocator.OsAllocator.History.{
  Reach, here, next, allocated, freed, Reach-no_overlap, Reach-no_leak,
}

abbrev release : Build
release = record { platform = posix; ndebug = true }

abbrev sys : Sys bump
sys = record { os = []; words = λ a. 0; cached_page_size = 0; error = 2 ^ 64 - 1 }

abbrev state : Outcome (Sys bump) ℕ → Sys bump
state (returns p w) = w
state (bad_alloc w) = w
state aborted = sys
state (fault a w) = w

paged-IsServable : IsServable bump release 10000 16
unfolding check_alignment
paged-IsServable = record {
  passes = refl;
  pow2 = sixteen-IsPow2;
  header_fits = λ le. omega arith;
  fits = omega arith;
}

-- Below a page the alignment can be larger.
small-IsServable : IsServable bump release 100 64
unfolding check_alignment
small-IsServable = record {
  passes = refl;
  pow2 = record { exp = 6; exp_lt = omega arith; value = refl };
  header_fits = λ le. absurd (omega (arith, le));
  fits = omega arith;
}

-- A mapping, and then a block of the C library.
abbrev paged : Sys bump
paged = state (os_alloc release 10000 16 sys)

paged_run : os_alloc release 10000 16 sys ≡ returns 4112 paged
unfolding os_alloc check_alignment get_page_size alloc_pages use_mapping store_header place
    header_size_of total_size_of grant round_up
paged_run = refl

abbrev both : Sys bump
both = state (os_alloc release 100 64 paged)

both_run : os_alloc release 100 64 paged ≡ returns 14144 both
unfolding os_alloc check_alignment get_page_size alloc_pages alloc_small use_mapping store_header
    place header_size_of total_size_of grant round_up
both_run = refl

holding : Reach bump release sys [] both (block 14144 100 ∷ block 4112 10000 ∷ [])
holding =
    next
      (next here
        (allocated 10000 16 4112 paged-IsServable paged_run (λ e. absurd (omega (arith, e)))))
      (allocated 100 64 14144 small-IsServable both_run (λ e. absurd (omega (arith, e))))

-- The mapping is given back first.
returned :
    Reach bump release sys [] (os_free release 14144 100 (os_free release 4112 10000 both)) []
returned =
    next (next holding (freed (block 14144 100 ∷ []) [] (block 4112 10000) refl))
      (freed [] [] (block 14144 100) refl)

no_regions : Pairwise Apart []
no_regions = Pairwise.nil

Reach-no_overlap_example :
    Separate (block 14144 100 ∷ block 4112 10000 ∷ [])
    × ((size alignment : ℕ)
        → IsServable bump release size alignment
        → os_alloc release size alignment both ≢ aborted)
Reach-no_overlap_example = Reach-no_overlap bump-IsLawful (inl refl) no_regions holding

Reach-no_leak_example :
    Perm (bump.live (os_free release 14144 100 (os_free release 4112 10000 both)).os) []
Reach-no_leak_example = Reach-no_leak bump-IsLawful (inl refl) no_regions returned refl
