-- ===== src/MemoryPoolConfig/Tests.antt =====
-- The size classes of include/JAllocatorImpl/MemoryPoolConfig.hpp at one size.
use sallocator.Base.{◌*◌, ◌≤◌, ◌<◌, Mem, arith}
use sallocator.MemoryPoolConfig.{MemConfig, mem_pool_config}
use sallocator.MemoryPoolConfig.Classes.{size_class_bounds}

size_class_bounds_example :
    (c : MemConfig) × Mem c mem_pool_config × (5000 ≤ c.size) × (c.size < 2 * 5000)
size_class_bounds_example = size_class_bounds 5000 (omega arith) (omega arith)
