-- ===== src/OsAllocator.antt =====
-- include/JAllocatorImpl/SysApi.h and src/SysApi.cpp: blocks from the C library below a page, and
-- whole mappings with a header in front of the block from a page on. A pointer has 8 bytes, and an
-- `AllocHeader` two words. `printf` and `std::cerr` are left out.
pub mod Place
pub mod Pages
pub mod Header
pub mod Mappings
pub mod Blocks
pub mod Small
pub mod BigPage
pub mod Aborts
pub mod Cached
pub mod Held
pub mod Requests
pub mod Tracks
pub mod GiveBack
pub mod History
mod Tests
mod HistoryTests
use sallocator.Base.{
  ℕ, ◌+◌, ◌*◌, ◌/◌, ◌^◌, bit_and, Bool, true, false, ◌&&◌, ◌||◌, ltb, leb, ◌==◌, if◌then◌else◌,
  add64, sub64, mul64, not64,
}
use sallocator.Os.{Platform, win32, posix, Os, map_failed}

-- The macros that the sources are compiled with.
pub record Build : Type 0 where
  pub platform : Platform
  pub ndebug : Bool

abbrev pub sizeof_pointer : ℕ
sizeof_pointer = 8

-- `base_ptr` is the first word and `total_size` the second.
pub record AllocHeader : Type 0 where
  pub base_ptr : ℕ
  pub total_size : ℕ

abbrev pub sizeof_header : ℕ
sizeof_header = 16

abbrev pub huge_page_threshold : ℕ
huge_page_threshold = 2 * 1024 * 1024

-- `words a` is the 8-byte word at address `a`; `cached_page_size` is the static variable of
-- `GetPageSize`, and `error` the one of the file.
pub record Sys (o : Os) : Type 0 where
  pub os : o.State
  pub words : ℕ → ℕ
  pub cached_page_size : ℕ
  pub error : ℕ

-- `fault a w` is a store to the address `a` outside of the new mapping, in the state `w`, which is
-- undefined behaviour.
pub data Outcome (W A : Type 0) : Type 0 where
  returns : A → W → Outcome W A
  bad_alloc : W → Outcome W A
  aborted : Outcome W A
  fault : ℕ → W → Outcome W A

unfoldable pub write_word : ℕ → ℕ → (ℕ → ℕ) → ℕ → ℕ
write_word a v words b = if b == a then v else words b

unfoldable pub write_header : ℕ → AllocHeader → (ℕ → ℕ) → ℕ → ℕ
unfolding write_word
write_header a h words = write_word (add64 a 8) h.total_size (write_word a h.base_ptr words)

-- The system fills a new mapping with zeros.
unfoldable pub fill_zero : (base size : ℕ) → (ℕ → ℕ) → ℕ → ℕ
fill_zero base size words a = if leb base a && ltb a (base + size) then 0 else words a

-- Whether the two words of a header at `a` lie in the mapping.
abbrev pub holds_header : (base size a : ℕ) → Bool
holds_header base size a = leb base a && leb (a + sizeof_header) (base + size)

unfoldable pub read_header : ℕ → (ℕ → ℕ) → AllocHeader
read_header a words = record { base_ptr = words a; total_size = words (add64 a 8) }

-- `CHECK_ALIGNMENT`: the condition of its assertions.
unfoldable pub check_alignment : Os → Build → ℕ → Bool
check_alignment o b alignment =
    b.ndebug
    || (ltb 0 alignment
        && (bit_and alignment (sub64 alignment 1) == 0)
        && leb (elim b.platform [ win32 ↦ o.granularity | posix ↦ o.page_size ]) alignment)

-- `(x + alignment - 1) & ~(alignment - 1)`
abbrev align_to : ℕ → ℕ → ℕ
align_to x alignment = bit_and (sub64 (add64 x alignment) 1) (not64 (sub64 alignment 1))

-- Where the block begins in a mapping at `raw_addr`, and whether the header would lie below it.
unfoldable pub place : ℕ → ℕ → ℕ
place raw_addr alignment =
    let aligned_addr = align_to raw_addr alignment in
    if ltb (sub64 aligned_addr sizeof_header) raw_addr
    then bit_and (sub64 (add64 (add64 raw_addr alignment) sizeof_header) 1)
        (not64 (sub64 alignment 1))
    else aligned_addr

unfoldable pub header_size_of : ℕ → ℕ
header_size_of alignment =
    bit_and (sub64 (add64 sizeof_header alignment) 1) (not64 (sub64 alignment 1))

unfoldable pub total_size_of : ℕ → ℕ → ℕ
total_size_of size alignment = add64 (add64 size alignment) (header_size_of alignment)

-- `alignment > sizeof(void*) ? alignment : sizeof(void*)`
abbrev pub effective : ℕ → ℕ
effective alignment = if ltb sizeof_pointer alignment then alignment else sizeof_pointer

-- `OS_Free` from a page on: the mapping that the header names is given back.
unfoldable pub unmap : (o : Os) → Build → AllocHeader → o.State → o.State
unmap o b header s = elim b.platform [
  | win32 ↦ o.virtual_free header.base_ptr s
  | posix ↦ o.munmap header.base_ptr header.total_size s
]

module _ {o : Os} where
  unfoldable pub get_page_size : Sys o → ℕ × Sys o
  get_page_size w =
      if w.cached_page_size == 0
      then (o.page_size, record w { cached_page_size = o.page_size })
      else (w.cached_page_size, w)

  abbrev with_os : Sys o → ℕ × o.State → Outcome (Sys o) ℕ
  with_os w (p, s) = returns p (record w { os = s })

  -- The path of `OS_Alloc` below a page: a null pointer if the library has no memory.
  unfoldable pub alloc_small : Build → ℕ → ℕ → Sys o → Outcome (Sys o) ℕ
  alloc_small b size alignment w = elim b.platform [
    | win32 ↦ with_os w (o.aligned_malloc size alignment w.os)
    | posix ↦ with_os w (
        o.aligned_alloc alignment (mul64 (sub64 (add64 size alignment) 1 / alignment) alignment)
          w.os)
  ]

  -- What `OS_Alloc` does in the mapping that it got.
  unfoldable pub store_header : (alignment total_size base_ptr : ℕ) → Sys o → Outcome (Sys o) ℕ
  unfolding place header_size_of write_header
  store_header alignment total_size base_ptr w =
      let aligned_addr = place base_ptr alignment in
      let header_addr = sub64 aligned_addr (header_size_of alignment) in
      let header : AllocHeader = record { base_ptr = base_ptr; total_size = total_size } in
      if holds_header base_ptr total_size header_addr
      then returns aligned_addr (record w { words = write_header header_addr header w.words })
      else fault header_addr w

  -- And with the result of the system call, `failed` being its error value.
  unfoldable pub use_mapping : ℕ → ℕ → ℕ → Sys o → ℕ × o.State → Outcome (Sys o) ℕ
  unfolding store_header fill_zero
  use_mapping failed alignment total_size w (base_ptr, s) =
      if base_ptr == failed
      then bad_alloc (record w { os = s })
      else store_header alignment total_size base_ptr
          (record w { os = s; words = fill_zero base_ptr total_size w.words })

  unfoldable pub alloc_pages : Build → ℕ → ℕ → Sys o → Outcome (Sys o) ℕ
  unfolding use_mapping total_size_of
  alloc_pages b size alignment w =
      let total_size = total_size_of size alignment in
      elim b.platform [
        | win32 ↦ use_mapping 0 alignment total_size w (o.virtual_alloc false total_size w.os)
        | posix ↦ use_mapping map_failed alignment total_size w (o.mmap false total_size w.os)
      ]

  -- `OS_Alloc`
  unfoldable pub os_alloc : Build → ℕ → ℕ → Sys o → Outcome (Sys o) ℕ
  os_alloc b size alignment w =
      if check_alignment o b alignment
      then (if size == 0
          then returns 0 w
          else (let (page_size, w') = get_page_size w in
              if ltb size page_size
              then alloc_small b size (effective alignment) w'
              else alloc_pages b size (effective alignment) w'))
      else aborted

  -- The system call of `OS_AllocBigPage`; `failed` is its error value.
  unfoldable pub big_mapping : ℕ → ℕ → Sys o → ℕ × o.State → Outcome (Sys o) ℕ
  unfolding fill_zero
  big_mapping failed size w (ptr, s) =
      if ptr == failed
      then bad_alloc (record w { os = s; error = o.last_error s })
      else returns ptr (record w { os = s; words = fill_zero ptr size w.words })

  unfoldable pub map_big : Build → ℕ → Sys o → Outcome (Sys o) ℕ
  unfolding big_mapping
  map_big b size w = elim b.platform [
    | win32 ↦ big_mapping 0 size w (o.virtual_alloc true size w.os)
    | posix ↦ big_mapping map_failed size w (o.mmap true size w.os)
  ]

  abbrev after_discarded : Build → ℕ → Outcome (Sys o) ℕ → Outcome (Sys o) ℕ
  after_discarded b size (returns p w) = map_big b size w
  after_discarded b size (bad_alloc w) = bad_alloc w
  after_discarded b size aborted = aborted
  after_discarded b size (fault a w) = fault a w

  -- `OS_AllocBigPage`: below the threshold the result of `OS_Alloc` is dropped, and the large page
  -- is mapped all the same.
  unfoldable pub os_alloc_big_page : Build → ℕ → ℕ → Sys o → Outcome (Sys o) ℕ
  os_alloc_big_page b size alignment w =
      if ltb size huge_page_threshold
      then after_discarded b size (os_alloc b size alignment w)
      else map_big b size w

  -- `OS_Free`
  unfoldable pub os_free : Build → ℕ → ℕ → Sys o → Sys o
  os_free b ptr size w =
      if ptr == 0
      then w
      else (let (page_size, w') = get_page_size w in
          if ltb size page_size
          then elim b.platform [
            | win32 ↦ record w' { os = o.aligned_free ptr w'.os }
            | posix ↦ record w' { os = o.free ptr w'.os }
          ]
          else record w' { os = unmap o b (read_header (sub64 ptr sizeof_header) w'.words) w'.os })
