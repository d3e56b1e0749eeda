-- ===== src/SysAllocator.antt =====
-- MemoryPool/include/Allocator.hpp: SysAllocator, and the detector that it registers with. The
-- resource of the standard library that it derives from is an interface. The call of
-- `Print` in `Malloc` is left out here, and `Print` is in SysAllocator/Report.
mod Malloc
pub mod Report
pub mod Unrecorded
mod Tests
use sallocator.Base.{
  ℕ, ◌+◌, ◌^◌, ◌%◌, ◌<◌, ◌≡◌, ◌≢◌, ◌⊎◌, Option, none, some, List, [], ◌∷◌, ◌==◌, if◌then◌else◌,
}
use sallocator.Os.{Kind, Region, region, ApartFrom}

-- `std::pmr::synchronized_pool_resource` and `std::malloc`. `none` is `std::bad_alloc`.
pub record Pool : Type 1 where
  pub State : Type 0
  pub live : State → List Region
  pub allocate : (bytes alignment : ℕ) → State → Option ℕ × State
  pub deallocate : (ptr bytes alignment : ℕ) → State → State
  pub malloc : (size : ℕ) → State → ℕ × State

-- A call of `allocate` throws and leaves the blocks as they were, or gives a block of its own.
abbrev pub Allocates : (pool : Pool) → (bytes : ℕ) → pool.State → Option ℕ × pool.State → Type 0
Allocates pool bytes s (none, s') = pool.live s' ≡ pool.live s
Allocates pool bytes s (some p, s') =
    (pool.live s' ≡ region Kind.heap p bytes ∷ pool.live s)
    × ApartFrom (region Kind.heap p bytes) (pool.live s)

abbrev pub IsLawful : Pool → Type 0
IsLawful pool =
    (bytes alignment : ℕ) (s : pool.State)
    → 0 < bytes
    → Allocates pool bytes s (pool.allocate bytes alignment s)

pub record PerThreadMallocData : Type 0 where
  pub tid : ℕ
  pub ptr : ℕ
  pub size : ℕ
  pub align : ℕ
  pub time : ℕ

-- `mem_datas` of `MemDetector` with the key of each entry. Its order is not looked at.
abbrev pub MemDatas : Type 0
MemDatas = List (ℕ × PerThreadMallocData)

unfoldable pub lookup : ℕ → MemDatas → Option PerThreadMallocData
lookup tid [] = none
lookup tid ((k, d) ∷ datas) = let rest = lookup tid datas in if k == tid then some d else rest

abbrev pub add_new : Option PerThreadMallocData → ℕ → PerThreadMallocData → MemDatas → MemDatas
add_new none tid d datas = (tid, d) ∷ datas
add_new (some found) tid d datas = datas

-- `unordered_map::try_emplace`: an entry that is there stays.
unfoldable pub try_emplace : ℕ → PerThreadMallocData → MemDatas → MemDatas
unfolding lookup
try_emplace tid d datas = add_new (lookup tid datas) tid d datas

-- `MemDetector::Register`; `time` is the clock.
unfoldable pub register : (tid ptr size align time : ℕ) → MemDatas → MemDatas
register tid ptr size align time datas =
    try_emplace tid (record { tid = tid; ptr = ptr; size = size; align = align; time = time }) datas

pub record World (pool : Pool) : Type 0 where
  pub pool_state : pool.State
  pub mem_datas : MemDatas

pub data Ran (W : Type 0) : Type 0 where
  returns : ℕ → W → Ran W
  bad_alloc : W → Ran W

module _ {pool : Pool} where
  -- `SysAllocator::do_allocate` and `do_deallocate`, which call those of the resource.
  abbrev pub do_allocate : (bytes alignment : ℕ) → World pool → Option ℕ × pool.State
  do_allocate bytes alignment w = pool.allocate bytes alignment w.pool_state

  abbrev pub do_deallocate : (ptr bytes alignment : ℕ) → World pool → World pool
  do_deallocate ptr bytes alignment w = record w {
    pool_state = pool.deallocate ptr bytes alignment w.pool_state;
  }

  -- The second call of `do_allocate`, whose result `SysAllocator::Malloc` returns.
  abbrev pub give : World pool → Option ℕ × pool.State → Ran (World pool)
  give w (none, s) = bad_alloc (record w { pool_state = s })
  give w (some p, s) = returns p (record w { pool_state = s })

  -- What follows the first call.
  abbrev pub note :
      (tid time bytes alignment : ℕ) → World pool → Option ℕ × pool.State → Ran (World pool)
  note tid time bytes alignment w (none, s) = bad_alloc (record w { pool_state = s })
  note tid time bytes alignment w (some p, s) =
      let w' : World pool = record {
        pool_state = s;
        mem_datas = register tid p bytes alignment time w.mem_datas;
      } in
      give w' (do_allocate bytes alignment w')

  -- `SysAllocator::Malloc`, by the thread `tid`.
  unfoldable pub sys_malloc : (tid time bytes alignment : ℕ) → World pool → Ran (World pool)
  sys_malloc tid time bytes alignment w =
      note tid time bytes alignment w (do_allocate bytes alignment w)

  -- `SysAllocator::Realloc`: whatever the arguments are.
  unfoldable pub sys_realloc : (ptr count alignment : ℕ) → World pool → ℕ × World pool
  sys_realloc ptr count alignment w =
      let (p, s) = pool.malloc 1 w.pool_state in (p, record w { pool_state = s })

  -- `SysAllocator::Free`: the resource is told of 1 byte.
  unfoldable pub sys_free : (ptr alignment : ℕ) → World pool → World pool
  sys_free ptr alignment w = do_deallocate ptr 1 alignment w
