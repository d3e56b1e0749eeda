-- ===== src/OsAllocator/Requests.antt =====
-- The requests that src/SysApi.cpp can serve and take back.
use sallocator.Base.{ℕ, ◌+◌, ◌*◌, ◌^◌, ◌≤◌, ◌<◌, ◌≡◌, true}
use sallocator.Bits.{IsPow2}
use sallocator.Os.{Os}
use sallocator.OsAllocator.{Build, check_alignment, effective}

-- A size with which nothing overflows.
abbrev pub Fits : ℕ → ℕ → Type 0
Fits alignment size = size + (2 * effective alignment + 16) < 2 ^ 64

-- A request that `OS_Alloc` accepts and `OS_Free` can deal with: from a page on the alignment leaves
-- the header right below the block.
pub record IsServable (o : Os) (b : Build) (size alignment : ℕ) : Type 0 where
  pub passes : check_alignment o b alignment ≡ true
  pub pow2 : IsPow2 alignment
  pub header_fits : o.page_size ≤ size → alignment ≤ 16
  pub fits : Fits alignment size
