-- ===== src/AllocAction/Tables.antt =====
-- The tables of MemDetector/include/intern/AllocAction.hpp against each other.
use sallocator.Base.{◌≡◌, false, some}
use sallocator.AllocAction.{
  AllocOp, entry, alloc_op_is_allocation, alloc_op_is_c, alloc_op_is_cpp, alloc_op_is_cuda,
  alloc_op_free_function,
}

abbrev pub SameFamily : AllocOp → AllocOp → Type 0
SameFamily a b =
    (entry alloc_op_is_c a ≡ entry alloc_op_is_c b)
    × (entry alloc_op_is_cpp a ≡ entry alloc_op_is_cpp b)
    × (entry alloc_op_is_cuda a ≡ entry alloc_op_is_cuda b)

-- The operation that frees what `op` allocates is in the table, is none that allocates, and is of
-- the same family.
abbrev pub Paired : AllocOp → Type 0
Paired op =
    (f : AllocOp) × (entry alloc_op_free_function op ≡ some f)
    × (entry alloc_op_is_allocation f ≡ some false)
    × SameFamily op f
