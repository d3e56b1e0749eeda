-- ===== src/Os.antt =====
-- The memory services of the C library and of the operating system that the allocators call
-- (`std::malloc`, `std::free`, `std::aligned_alloc`, `_aligned_malloc`, `mmap`, `munmap`,
-- `VirtualAlloc`, `VirtualFree`): an interface of operations, with their documented behaviour as
-- laws. Addresses are numbers below 2^64, and 0 is the null pointer.
pub mod Bump
pub mod Blocks
pub mod Owned
use mathlib.Core.Bool.{false≢true}
use sallocator.Base.{
  ℕ, ◌≤◌, ◌+◌, ◌-◌, ◌%◌, ◌^◌, ◌<◌, ◌≡◌, ◌≢◌, ◌⊎◌, Bool, ◌&&◌, ◌||◌, List, ◌∷◌, Mem, Perm, arith,
  ltb, leb, word_mod,
}
use sallocator.Bits.{IsPow2}

-- The `#ifdef _WIN32` of the sources.
pub data Platform : Type 0 where
  win32 posix : Platform

-- The call that gives a block back: `free`, `_aligned_free`, or `munmap` and `VirtualFree`.
pub data Kind : Type 0 where
  heap aligned pages : Kind

pub record Region : Type 0 where
  pub kind : Kind
  pub base : ℕ
  pub size : ℕ

abbrev pub region : Kind → ℕ → ℕ → Region
region k p n = record { kind = k; base = p; size = n }

-- Neither region begins inside the other.
abbrev pub is_apart : Region → Region → Bool
is_apart r s =
    (ltb r.base s.base && leb (r.base + r.size) s.base)
    || (ltb s.base r.base && leb (s.base + s.size) r.base)

abbrev pub Apart : Region → Region → Type 0
Apart r s = is_apart r s ≡ Bool.true

pub Apart-symm : (r s : Region) → Apart r s → Apart s r
Apart-symm r s h = ground arith

abbrev pub ApartFrom : Region → List Region → Type 0
ApartFrom r rs = (q : Region) → Mem q rs → Apart r q

-- What a failed `mmap` returns, `(void*)-1`.
abbrev pub map_failed : ℕ
map_failed = word_mod - 1

-- `live` lists the regions that are allocated. `granularity` is `dwAllocationGranularity`, and
-- `last_error` is `errno` or `GetLastError()`.
pub record Os : Type 1 where
  pub State : Type 0
  pub live : State → List Region
  pub page_size : ℕ
  pub granularity : ℕ
  pub last_error : State → ℕ
  pub malloc : (size : ℕ) → State → ℕ × State
  pub free : (ptr : ℕ) → State → State
  pub aligned_alloc : (alignment size : ℕ) → State → ℕ × State
  pub aligned_malloc : (size alignment : ℕ) → State → ℕ × State
  pub aligned_free : (ptr : ℕ) → State → State
  pub mmap : (huge : Bool) → (size : ℕ) → State → ℕ × State
  pub munmap : (ptr size : ℕ) → State → State
  pub virtual_alloc : (large : Bool) → (size : ℕ) → State → ℕ × State
  pub virtual_free : (ptr : ℕ) → State → State

module _ (o : Os) where
  -- The call failed, and nothing has changed.
  pub record Refused (fail : ℕ) (s : o.State) (r : ℕ × o.State) : Type 0 where
    pub fails : r.0 ≡ fail
    pub same : o.live r.1 ≡ o.live s

  -- The call returned a new block of `n` bytes.
  pub record Granted (fail : ℕ) (k : Kind) (align n : ℕ) (s : o.State) (r : ℕ × o.State)
      : Type 0 where
    pub succeeds : r.0 ≢ fail
    pub positive : 0 < r.0
    pub aligns : r.0 % align ≡ 0
    pub bounded : r.0 + n < 2 ^ 64
    pub added : o.live r.1 ≡ region k r.0 n ∷ o.live s
    pub apart : ApartFrom (region k r.0 n) (o.live s)

  abbrev pub Grants : ℕ → Kind → ℕ → ℕ → o.State → ℕ × o.State → Type 0
  Grants fail k align n s r = Refused fail s r ⊎ Granted fail k align n s r

  -- `free` takes the region at the pointer away, and no other.
  abbrev pub Releases : Kind → ℕ → ℕ → o.State → o.State → Type 0
  Releases k p n s s' =
      (rest : List Region)
      → Perm (o.live s) (region k p n ∷ rest)
      → ApartFrom (region k p n) rest
      → Perm (o.live s') rest

  pub record IsLawful : Type 0 where
    pub page_size_pow2 : IsPow2 o.page_size
    pub page_size_holds_header : 16 < o.page_size
    pub granularity_pow2 : IsPow2 o.granularity
    pub page_size_le : o.page_size ≤ o.granularity
    pub malloc_law : (n : ℕ) (s : o.State) → 0 < n → Grants 0 Kind.heap 16 n s (o.malloc n s)
    pub free_law : (p n : ℕ) (s : o.State) → Releases Kind.heap p n s (o.free p s)
    pub aligned_alloc_law :
        (a n : ℕ) (s : o.State)
        → IsPow2 a
        → 0 < n
        → n % a ≡ 0
        → Grants 0 Kind.heap a n s (o.aligned_alloc a n s)
    pub aligned_malloc_law :
        (n a : ℕ) (s : o.State)
        → IsPow2 a
        → 0 < n
        → Grants 0 Kind.aligned a n s (o.aligned_malloc n a s)
    pub aligned_free_law :
        (p n : ℕ) (s : o.State) → Releases Kind.aligned p n s (o.aligned_free p s)
    pub mmap_law :
        (huge : Bool) (n : ℕ) (s : o.State)
        → 0 < n
        → Grants map_failed Kind.pages o.page_size n s (o.mmap huge n s)
    pub munmap_law : (p n : ℕ) (s : o.State) → Releases Kind.pages p n s (o.munmap p n s)
    pub virtual_alloc_law :
        (large : Bool) (n : ℕ) (s : o.State)
        → 0 < n
        → Grants 0 Kind.pages o.granularity n s (o.virtual_alloc large n s)
    pub virtual_free_law : (p n : ℕ) (s : o.State) → Releases Kind.pages p n s (o.virtual_free p s)
