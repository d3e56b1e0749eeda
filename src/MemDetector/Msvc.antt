-- ===== src/MemDetector/Msvc.antt =====
-- The functions of the C library that MemDetector/include/MemDetector.hpp defines for the compiler
-- of Microsoft, over the heap of the process.
use sallocator.Base.{ℕ, ◌≡◌, refl, Bool, true, false, mul64}

-- `HeapAlloc`, with or without HEAP_ZERO_MEMORY, `HeapReAlloc` and `HeapFree`.
pub record ProcessHeap : Type 1 where
  pub State : Type 0
  pub heap_alloc : (zeroed : Bool) (size : ℕ) → State → ℕ × State
  pub heap_realloc : (ptr size : ℕ) → State → ℕ × State
  pub heap_free : (ptr : ℕ) → State → State

module _ (h : ProcessHeap) where
  unfoldable pub msvc_malloc : (size : ℕ) → h.State → ℕ × h.State
  msvc_malloc size s = h.heap_alloc false size s

  unfoldable pub msvc_calloc : (nmemb size : ℕ) → h.State → ℕ × h.State
  msvc_calloc nmemb size s = h.heap_alloc true (mul64 nmemb size) s

  unfoldable pub msvc_free : (ptr : ℕ) → h.State → h.State
  msvc_free ptr s = h.heap_free ptr s

  unfoldable pub msvc_realloc : (ptr size : ℕ) → h.State → ℕ × h.State
  msvc_realloc ptr size s = h.heap_realloc ptr size s

  unfoldable pub msvc_reallocarray : (ptr nmemb size : ℕ) → h.State → ℕ × h.State
  unfolding msvc_realloc
  msvc_reallocarray ptr nmemb size s = msvc_realloc ptr (mul64 nmemb size) s

  -- A product that wraps around asks for 8 bytes.
  calloc_wraps : (s : h.State) → msvc_calloc 2305843009213693953 8 s ≡ h.heap_alloc true 8 s
  unfolding msvc_calloc
  calloc_wraps s = refl
