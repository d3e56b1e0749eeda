-- ===== src/StackMemory.antt =====
-- MemoryPool/include/MemoryPool.hpp: the stack of memory over `monotonic_buffer_resource` of the
-- standard library, which is an interface, as are the limits of the process.
pub mod Refuses
mod Tests
use sallocator.Base.{ℕ, ◌*◌, ◌<◌, ◌≤◌, ◌≡◌, Option, none, some, List, [], ◌∷◌}
use sallocator.Os.{Platform, win32, posix}

abbrev pub stack_size : ℕ
stack_size = 8 * 1024 * 1024

-- `std::pmr::monotonic_buffer_resource` over the resources `Upstream`; its allocations return an
-- address or throw.
pub record Monotonic : Type 1 where
  pub Upstream : Type 0
  pub null_memory_resource : Upstream
  pub State : Type 0
  pub make : (buffer size : ℕ) → Upstream → State
  pub do_allocate : (bytes alignment : ℕ) → State → Option ℕ × State
  pub do_deallocate : (p bytes alignment : ℕ) → State → State

-- `getrlimit` and `setrlimit` of the stack, the soft limit first.
pub record Limits : Type 1 where
  pub State : Type 0
  pub getrlimit : State → Option (ℕ × ℕ)
  pub setrlimit : ℕ × ℕ → State → State

-- `SETSTACKSIZE`. Under Windows it is a word to the linker.
unfoldable pub set_stack_size : (f : Limits) → Platform → ℕ → f.State → f.State
set_stack_size f win32 size s = s
set_stack_size f posix size s = elim (f.getrlimit s) [
  | none ↦ s
  | some rl ↦ f.setrlimit (size, rl.1) s
]

module _ (m : Monotonic) where
  -- The base of a new `StackMemory` over the resource, and the limits that its constructor leaves.
  unfoldable pub stack_memory : (f : Limits) → Platform → m.Upstream → f.State → m.State × f.State
  unfolding set_stack_size
  stack_memory f platform upstream s = (m.make 0 0 upstream, set_stack_size f platform stack_size s)

  unfoldable pub do_allocate : (bytes alignment : ℕ) → m.State → Option ℕ × m.State
  do_allocate bytes alignment s = let (ptr, s') = m.do_allocate bytes alignment s in (ptr, s')

  unfoldable pub do_deallocate : (p bytes alignment : ℕ) → m.State → m.State
  do_deallocate p bytes alignment s = m.do_deallocate p bytes alignment s

-- A call of a client.
pub data Call : Type 0 where
  allocates : (bytes alignment : ℕ) → Call
  deallocates : (p bytes alignment : ℕ) → Call

unfoldable pub run : (m : Monotonic) → List Call → m.State → m.State
unfolding do_allocate do_deallocate
run m [] s = s
run m (allocates bytes alignment ∷ calls) s = run m calls (do_allocate m bytes alignment s).1
run m (deallocates p bytes alignment ∷ calls) s = run m calls (do_deallocate m p bytes alignment s)

-- What the standard says of the resource: `room` is a bound on what is left of the current buffer,
-- and `source` is the upstream resource. Over the null resource no buffer is ever added, and a
-- request that the buffer has no room for throws. A deallocation does nothing.
pub record IsMonotonic (m : Monotonic) : Type 0 where
  pub room : m.State → ℕ
  pub source : m.State → m.Upstream
  pub make_room : (buffer size : ℕ) (u : m.Upstream) → room (m.make buffer size u) ≤ size
  pub make_source : (buffer size : ℕ) (u : m.Upstream) → source (m.make buffer size u) ≡ u
  pub same_source :
      (bytes alignment : ℕ) (s : m.State) → source (m.do_allocate bytes alignment s).1 ≡ source s
  pub less_room :
      (bytes alignment : ℕ) (s : m.State)
      → source s ≡ m.null_memory_resource
      → room (m.do_allocate bytes alignment s).1 ≤ room s
  pub full :
      (bytes alignment : ℕ) (s : m.State)
      → source s ≡ m.null_memory_resource
      → room s < bytes
      → (m.do_allocate bytes alignment s).0 ≡ none
  pub deallocates_nothing :
      (p bytes alignment : ℕ) (s : m.State) → m.do_deallocate p bytes alignment s ≡ s
