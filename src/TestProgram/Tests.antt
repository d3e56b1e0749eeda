-- ===== src/TestProgram/Tests.antt =====
-- Runs of the tests of src/main.cpp on the instance `bump`.
use mathlib.Core.List.{Pairwise}
use sallocator.Base.{
  false, inl, inr, ℕ, ◌+◌, ◌/◌, ◌%◌, ◌≡◌, ◌≤◌, ◌<◌, ◌⊎◌, refl, leb, some, [], arith, ltb, ◌&&◌,
  if◌then◌else◌, ◌∷◌,
}
use sallocator.Os.{posix}
use sallocator.Os.Bump.{bump, bump-IsLawful}
use sallocator.Stellatus.{World}
use sallocator.Stellatus.History.{start, start-Inv}
use sallocator.TestProgram.{
  Memset, large_size, page, test_alloc, test_large_alloc, Machine, ByteMemory, test_sizes,
}
use sallocator.TestProgram.Words.{IsByteMemory}
use sallocator.OsAllocator.Requests.{IsServable}
use sallocator.TestProgram.Sizes.{PassesAll, test_sizes-PassesAll}
use mathlib.Core.List.Perm
use sallocator.OsAllocator.{Build, Sys, check_alignment}
use sallocator.TestProgram.Allocations.{WritesInside, Restores, test_alloc-Restores}
use sallocator.TestProgram.Pages.{after_test, test_large_alloc-after_test}

-- The headers whose bytes the client overwrites are lost.
abbrev memset : Memset
memset p value size cells a =
    if ltb p (a + 16) && ltb a (p + size) then record { size = value; next = value } else cells a

memset-WritesInside : WritesInside memset
memset-WritesInside p value size a cells (inl below) = ground (arith, below)
memset-WritesInside p value size a cells (inr above) = ground (arith, above)

abbrev world : World bump
world = start bump [] (λ a. record { size = 0; next = 0 })

test_alloc-Restores_example : Restores bump posix [] [] 3 (test_alloc bump posix memset 0 3 world)
test_alloc-Restores_example =
    test_alloc-Restores posix bump-IsLawful [] memset memset-WritesInside 0 3 world []
      ([], start-Inv bump [] (λ a. record { size = 0; next = 0 }) Pairwise.nil)

-- The state counts the calls, and the block is at 4096.
abbrev machine : Machine ℕ
machine = record { state = 0; bytes = λ a. 1 }

abbrev alloc_fn : ℕ → ℕ × ℕ
alloc_fn s = (4096, s + 1)

abbrev free_fn : ℕ → ℕ → ℕ
free_fn ptr s = s + ptr

test_large_alloc-after_test_example :
    test_large_alloc alloc_fn free_fn (large_size / page + 1) machine
    ≡ some (after_test alloc_fn free_fn machine)
test_large_alloc-after_test_example =
    test_large_alloc-after_test alloc_fn free_fn (large_size / page + 1) machine (omega arith)

-- The low byte of the word at an address is the byte at it.
abbrev byte_memory : ByteMemory
byte_memory = record {
  fill = λ p value size words a. if leb p a && ltb a (p + size) then value % 256 else words a;
  load = λ words a. words a % 256;
}

byte_memory-IsByteMemory : IsByteMemory byte_memory
byte_memory-IsByteMemory = record { filled = inside; outside = beside }
  where
    inside :
        (p value size : ℕ) (words : ℕ → ℕ) (a : ℕ)
        → p ≤ a
        → a < p + size
        → byte_memory.load (byte_memory.fill p value size words) a ≡ value % 256
    inside p value size words a le lt = ground (arith, le, lt)

    beside :
        (p value size : ℕ) (words : ℕ → ℕ) (a : ℕ)
        → (a + 8 ≤ p) ⊎ (p + size ≤ a)
        → byte_memory.fill p value size words a ≡ words a
    beside p value size words a (inl below) = ground (arith, below)
    beside p value size words a (inr above) = ground (arith, above)

abbrev sys : Sys bump
sys = record { os = []; words = λ a. 0; cached_page_size = 0; error = 0 }

-- A build with assertions, which accepts no alignment below the page size.
abbrev debug : Build
debug = record { platform = posix; ndebug = false }

page-IsServable : (size : ℕ) → size < 4096 → IsServable bump debug size 4096
unfolding check_alignment
page-IsServable size lt = record {
  passes = refl;
  pow2 = record { exp = 12; exp_lt = omega arith; value = refl };
  header_fits = λ le. absurd (omega (arith, le, lt));
  fits = omega (arith, lt);
}

test_sizes-PassesAll_example :
    PassesAll debug [] (test_sizes debug byte_memory (0 ∷ 1 ∷ 100 ∷ []) 4096 sys)
test_sizes-PassesAll_example =
    test_sizes-PassesAll debug byte_memory-IsByteMemory bump-IsLawful 4096 (0 ∷ 1 ∷ 100 ∷ []) sys []
      (
        page-IsServable 0 (omega arith),
        (page-IsServable 1 (omega arith), (page-IsServable 100 (omega arith), tt)),
      )
      (inl refl) (Perm.refl [])
