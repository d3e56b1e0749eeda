-- ===== src/JAllocator.antt =====
-- include/JAllocator.hpp with Block.hpp and Chunk.hpp of include/JAllocatorImpl: the parts of the
-- allocator that have a body. A time is a number of nanoseconds, as `steady_clock` counts, and a
-- duration one of milliseconds, neither of which gets near 2^63. What a constructor leaves unset is an argument.
mod Nodes
mod Tests
use sallocator.Base.{
  ℕ, ◌+◌, ◌-◌, ◌/◌, ◌^◌, Bool, true, Option, none, some, List, [], ltb, ◌==◌, if◌then◌else◌, sub64,
  mul64,
}
use sallocator.Os.{Os}

-- `container_of(ptr, offset)`
unfoldable pub container_of : (ptr offset : ℕ) → ℕ
container_of ptr offset = sub64 ptr offset

-- `MemNode<Size>`
pub record MemNode : Type 0 where
  pub mem : ℕ
  pub id : ℕ
  pub is_free : Bool

-- `ResetPtr`, which the sources call and do not have.
abbrev pub ResetPtr : Os → Type 0
ResetPtr o = MemNode → o.State → MemNode × o.State

module _ (o : Os) (mem_size : ℕ) where
  -- The constructor.
  unfoldable pub new_mem_node :
      (reset_ptr : ResetPtr o) (id : ℕ) (is_free : Bool) → o.State → MemNode × o.State
  new_mem_node reset_ptr id is_free s =
      let (mem, s') = o.malloc mem_size s in
      reset_ptr (record { mem = mem; id = id; is_free = is_free }) s'

  unfoldable pub delete_mem_node : MemNode → o.State → o.State
  delete_mem_node n s = if n.mem == 0 then s else o.free n.mem s

-- `operator<`
unfoldable pub mem_node_lt : MemNode → MemNode → Bool
mem_node_lt n other = ltb n.mem other.mem

unfoldable pub get_uid : MemNode → ℕ
get_uid n = n.id

unfoldable pub get_mem_ptr : MemNode → ℕ
get_mem_ptr n = n.mem

-- `BlockGroup::Info`
pub record Info : Type 0 where
  pub thread_id : ℕ
  pub mem_ptr : ℕ
  pub enter_time : ℕ
  pub create_time : ℕ
  pub enter_duration : ℕ
  pub life_duration : ℕ

-- `unset` has what the memory of the object held before.
unfoldable pub new_info : (mem_ptr now : ℕ) → (unset : Info) → Info
new_info mem_ptr now unset = record unset { mem_ptr = mem_ptr; create_time = now; thread_id = 0 }

unfoldable pub mark_enter : (now : ℕ) → Info → Info
mark_enter now i = record i { enter_time = now }

-- `OverTimekeeping`: what it does to the object, and the value it returns, which is none.
unfoldable pub over_timekeeping : (now which_time : ℕ) → Info → Info × Option ℕ
over_timekeeping now which_time i =
    let passed = (now - which_time) / 10 ^ 6 in
    (record i { enter_duration = i.enter_duration + passed }, none)

-- The use of the value that is not returned is undefined behaviour.
abbrev set_enter_duration : Info × Option ℕ → Option Info
set_enter_duration (i, none) = none
set_enter_duration (i, some d) = some (record i { enter_duration = d })

unfoldable pub mark_quit : (now : ℕ) → Info → Option Info
unfolding over_timekeeping
mark_quit now i = set_enter_duration (over_timekeeping now i.enter_time i)

-- `~Info`
unfoldable pub delete_info : (now : ℕ) → Info → Option Info
unfolding over_timekeeping
delete_info now i = elim (set_enter_duration (over_timekeeping now i.create_time i)) [
  | none ↦ none
  | some i' ↦ some (record i' { mem_ptr = 0 })
]

unfoldable pub get_enter_time : Info → ℕ
get_enter_time i = i.enter_duration

unfoldable pub get_life_time : Info → ℕ
get_life_time i = i.life_duration

-- The block that `BlockGroupProxy::Remove` looks for, from the offset of `mem` in `Block`.
unfoldable pub removed_block : (ptr offset : ℕ) → ℕ
unfolding container_of
removed_block ptr offset = container_of ptr offset

-- `Chunk::allocate`
unfoldable pub chunk_allocate : (size : ℕ) → ℕ
chunk_allocate size = 0

-- `JAllocator::j_malloc`
unfoldable pub j_malloc : (size : ℕ) → ℕ
j_malloc size = 0

unfoldable pub j_allocate : (sizeof_value_type num : ℕ) → ℕ
unfolding j_malloc
j_allocate sizeof_value_type num = j_malloc (mul64 num sizeof_value_type)
