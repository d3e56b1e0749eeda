-- ===== src/Stellatus.antt =====
-- include/SAllocator.hpp: the thread-local arena with its fast bins, and the allocator over it.
-- `size_t` has 64 bits and `alignof(std::max_align_t)` is 16, as in the x86-64 System V ABI.
-- `std::scoped_lock` is held for the whole of a call, so a call is one step on the state.
-- A `Chunk` header is a cell at the chunk's address; the rest of the memory belongs to the clients.
pub mod Chains
pub mod Invariant
pub mod New
pub mod Reuse
pub mod Allocate
pub mod Deallocate
pub mod ThreadEnd
pub mod History
pub mod Leak
pub mod Separate
pub mod RoundTrip
pub mod Footprint
mod Tests
mod HistoryTests
pub mod Sizes
use sallocator.Base.{
  ℕ, ◌+◌, ◌-◌, ◌*◌, ◌/◌, ◌^◌, bit_and, Bool, false, ◌&&◌, List, none, some, ltb, leb, ◌==◌,
  if◌then◌else◌, get_elem?, set, replicate, add64, sub64, mul64, not64,
}
use sallocator.Os.{Platform, win32, posix, Os, map_failed}

abbrev pub alignment : ℕ
alignment = 16

abbrev pub max_fast_size : ℕ
max_fast_size = 1024

abbrev pub num_fast_bins : ℕ
num_fast_bins = max_fast_size / alignment

abbrev pub mmap_threshold : ℕ
mmap_threshold = 2 ^ 30

abbrev pub max_alloc_size : ℕ
max_alloc_size = 8 * 2 ^ 30

unfoldable pub align_up : ℕ → ℕ → ℕ
align_up size align = bit_and (sub64 (add64 size align) 1) (not64 (sub64 align 1))

pub record Chunk : Type 0 where
  pub size : ℕ
  pub next : ℕ

abbrev pub sizeof_chunk : ℕ
sizeof_chunk = 16

-- `Chunk::data`, `this + 1`
abbrev pub data_of : ℕ → ℕ
data_of chunk = chunk + sizeof_chunk

-- `Chunk::from_data`
abbrev pub from_data : ℕ → ℕ
from_data ptr = ptr - sizeof_chunk

pub record Arena : Type 0 where
  pub fastbins : List ℕ

abbrev pub empty_arena : Arena
empty_arena = record { fastbins = replicate num_fast_bins 0 }

unfoldable pub size_to_index : ℕ → ℕ
unfolding align_up
size_to_index size = sub64 (align_up size alignment / alignment) 1

-- The chunk headers in memory.
abbrev pub Cells : Type 0
Cells = ℕ → Chunk

-- `arenas t` is the `tls_arena` of thread `t`.
pub record World (o : Os) : Type 0 where
  pub os : o.State
  pub cells : Cells
  pub arenas : ℕ → Arena

-- A call returns, throws `std::bad_alloc`, or does what C++ leaves undefined.
pub data Run (W A : Type 0) : Type 0 where
  returns : A → W → Run W A
  bad_alloc : W → Run W A
  fault : Run W A

-- `std::memset(ptr, 0, size)`, on the headers.
unfoldable pub memset_zero : ℕ → ℕ → Cells → Cells
memset_zero ptr size cells a =
    if leb ptr a && ltb a (ptr + size) then record { size = 0; next = 0 } else cells a

unfoldable pub write_chunk : ℕ → Chunk → Cells → Cells
write_chunk p c cells a = if a == p then c else cells a

unfoldable pub set_arena : ℕ → Arena → (ℕ → Arena) → ℕ → Arena
set_arena t a arenas u = if u == t then a else arenas u

unfoldable pub set_bin : ℕ → ℕ → ℕ → (ℕ → Arena) → ℕ → Arena
unfolding set_arena
set_bin t idx head arenas =
    set_arena t (record { fastbins = set (arenas t).fastbins idx head }) arenas

-- Thread `t` ends: the destructor of its arena is that of its members, which frees nothing, and a
-- thread that gets the number again starts with a new arena.
unfoldable pub end_thread : {o : Os} → ℕ → World o → World o
unfolding set_arena
end_thread t w = record w { arenas = set_arena t empty_arena w.arenas }

module _ (o : Os) where
  -- What `os_alloc` does with the result of the system call, `failed` being its error value.
  pub page_block : ℕ → ℕ → World o → ℕ × o.State → ℕ × World o
  unfolding memset_zero
  page_block failed size w (ptr, s) =
      if ptr == failed
      then (0, record w { os = s })
      else (ptr, record w { os = s; cells = memset_zero ptr size w.cells })

  -- The end of `Arena::allocate`: the header of a block from the system is written.
  pub new_chunk : ℕ → ℕ → World o → Run (World o) ℕ
  unfolding write_chunk
  new_chunk raw size w =
      returns (data_of raw)
        (record w { cells = write_chunk raw (record (w.cells raw) { size = size }) w.cells })

  pub from_pages : ℕ → ℕ × World o → Run (World o) ℕ
  unfolding new_chunk
  from_pages size (raw, w) = if raw == 0 then bad_alloc w else new_chunk raw size w

  pub from_heap : ℕ → ℕ → World o → ℕ × o.State → Run (World o) ℕ
  unfolding new_chunk memset_zero
  from_heap size total_size w (raw, s) =
      if raw == 0
      then bad_alloc (record w { os = s })
      else new_chunk raw size (record w { os = s; cells = memset_zero raw total_size w.cells })

module _ (o : Os) (platform : Platform) where
  unfoldable pub os_alloc : ℕ → World o → ℕ × World o
  unfolding page_block
  os_alloc size w = elim platform [
    | win32 ↦ page_block o 0 size w (o.virtual_alloc false size w.os)
    | posix ↦ page_block o map_failed size w (o.mmap false size w.os)
  ]

  unfoldable pub os_free : ℕ → ℕ → World o → World o
  os_free ptr size w = elim platform [
    | win32 ↦ record w { os = o.virtual_free ptr w.os }
    | posix ↦ record w { os = o.munmap ptr size w.os }
  ]

  -- `Arena::allocate` where no fast bin serves.
  pub allocate_new : ℕ → World o → Run (World o) ℕ
  unfolding align_up os_alloc from_pages from_heap
  allocate_new size w =
      let total_size = align_up (add64 size sizeof_chunk) alignment in
      if leb mmap_threshold size
      then from_pages o size (os_alloc total_size w)
      else from_heap o size total_size w (o.malloc total_size w.os)

  -- `Arena::allocate` on the arena of thread `t`.
  unfoldable pub allocate : ℕ → ℕ → World o → Run (World o) ℕ
  allocate t size w =
      if ltb max_alloc_size size
      then bad_alloc w
      else if leb size max_fast_size
      then (let idx = size_to_index size in
          elim (get_elem? (w.arenas t).fastbins idx) [
            | none ↦ fault
            | some chunk ↦
                if chunk == 0
                then allocate_new size w
                else returns (data_of chunk)
                    (record w { arenas = set_bin t idx (w.cells chunk).next w.arenas })
          ])
      else allocate_new size w

  -- `Arena::deallocate` on the arena of thread `t`.
  unfoldable pub deallocate : ℕ → ℕ → ℕ → World o → Run (World o) (Unit {0})
  deallocate t ptr size w =
      if ptr == 0
      then returns tt w
      else (let chunk = from_data ptr in
          if leb size max_fast_size
          then (let idx = size_to_index size in
              elim (get_elem? (w.arenas t).fastbins idx) [
                | none ↦ fault
                | some head ↦ returns tt (record w {
                  cells = write_chunk chunk (record (w.cells chunk) { next = head }) w.cells;
                  arenas = set_bin t idx chunk w.arenas;
                })
              ])
          else (let total_size = align_up (add64 size sizeof_chunk) alignment in
              if leb mmap_threshold size
              then returns tt (os_free chunk total_size w)
              else returns tt (record w { os = o.free chunk w.os })))

  -- `SAllocator<T>`, for a type of `sizeof_t` bytes.
  unfoldable pub allocate_n : ℕ → ℕ → ℕ → World o → Run (World o) ℕ
  allocate_n sizeof_t t n w = allocate t (mul64 n sizeof_t) w

  unfoldable pub deallocate_n : ℕ → ℕ → ℕ → ℕ → World o → Run (World o) (Unit {0})
  deallocate_n sizeof_t t p n w = deallocate t p (mul64 n sizeof_t) w
