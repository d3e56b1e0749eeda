-- ===== src/OsAllocator/Tests.antt =====
-- Runs of src/SysApi.cpp on the instance `bump`, and the theorems at these inputs.
use sallocator.Base.{ℕ, ◌-◌, ◌^◌, ◌≡◌, ◌↔◌, refl, inl, true, false, [], arith}
use sallocator.Bits.{sixteen-IsPow2, round_up}
use sallocator.Os.{posix}
use sallocator.Os.Bump.{bump, bump-IsLawful, grant}
use sallocator.OsAllocator
use sallocator.OsAllocator.{
  Build, Sys, Outcome, returns, bad_alloc, aborted, fault, os_alloc, os_alloc_big_page, os_free,
  check_alignment, effective, total_size_of, place, header_size_of,
}
use sallocator.OsAllocator.Pages.{IsPageRequest}
use sallocator.OsAllocator.Blocks.{
  Serves, os_alloc-Serves, FreedAtZero, os_alloc-FreedAtZero, HeaderMisplaced,
  os_alloc-HeaderMisplaced,
}
use sallocator.OsAllocator.Small.{IsSmallRequest, ServesSmall, os_alloc-ServesSmall}
use sallocator.OsAllocator.BigPage.{MapsPages, os_alloc_big_page-MapsPages}
use sallocator.OsAllocator.Aborts.{IsAccepted, os_alloc-aborts}

abbrev release : Build
release = record { platform = posix; ndebug = true }

-- The start of the program.
abbrev sys : Sys bump
sys = record { os = []; words = λ a. 0; cached_page_size = 0; error = 2 ^ 64 - 1 }

abbrev pointer : Outcome (Sys bump) ℕ → ℕ
pointer (returns p w) = p
pointer (bad_alloc w) = 0
pointer aborted = 0
pointer (fault a w) = 0

pages_pointer : pointer (os_alloc release 10000 16 sys) ≡ 4112
unfolding os_alloc check_alignment OsAllocator.get_page_size OsAllocator.alloc_pages
    OsAllocator.use_mapping OsAllocator.store_header place header_size_of total_size_of grant
    round_up
pages_pointer = refl

page_request : IsPageRequest bump release 10000 16 sys
unfolding check_alignment
page_request = record {
  passes = refl;
  pow2 = sixteen-IsPow2;
  pages = omega arith;
  fits = omega arith;
  cached = inl refl;
}

os_alloc-Serves_example : Serves 10000 16 sys (os_alloc release 10000 16 sys)
os_alloc-Serves_example = os_alloc-Serves bump-IsLawful page_request (omega arith)

wide_request : IsPageRequest bump release 10000 64 sys
unfolding check_alignment
wide_request = record {
  passes = refl;
  pow2 = record { exp = 6; exp_lt = omega arith; value = refl };
  pages = omega arith;
  fits = omega arith;
  cached = inl refl;
}

os_alloc-FreedAtZero_example : FreedAtZero release 10000 64 sys (os_alloc release 10000 64 sys)
os_alloc-FreedAtZero_example = os_alloc-FreedAtZero bump-IsLawful wide_request (omega arith)

huge_request : IsPageRequest bump release 10000 65536 sys
unfolding check_alignment
huge_request = record {
  passes = refl;
  pow2 = record { exp = 16; exp_lt = omega arith; value = refl };
  pages = omega arith;
  fits = omega arith;
  cached = inl refl;
}

os_alloc-HeaderMisplaced_example : HeaderMisplaced 65536 sys (os_alloc release 10000 65536 sys)
os_alloc-HeaderMisplaced_example = os_alloc-HeaderMisplaced bump-IsLawful huge_request (omega arith)

small_request : IsSmallRequest bump release 100 16 sys
unfolding check_alignment
small_request = record {
  passes = refl;
  pow2 = sixteen-IsPow2;
  positive = omega arith;
  below = omega arith;
  fits = omega arith;
  cached = inl refl;
}

os_alloc-ServesSmall_example : ServesSmall release 100 16 [] (os_alloc release 100 16 sys)
os_alloc-ServesSmall_example = os_alloc-ServesSmall bump-IsLawful small_request

os_alloc_big_page-MapsPages_example :
    MapsPages 16 10000 10032 [] (os_alloc_big_page release 10000 16 sys)
unfolding total_size_of header_size_of
os_alloc_big_page-MapsPages_example = os_alloc_big_page-MapsPages bump-IsLawful page_request

-- The alignment 16 is the default argument of `OS_Alloc`.
os_alloc-aborts_example :
    (os_alloc (record { platform = posix; ndebug = false }) 10000 16 sys ≡ aborted)
    ↔ (IsAccepted bump posix 16 → ⊥)
os_alloc-aborts_example = os_alloc-aborts posix 10000 16 sys (omega arith)
