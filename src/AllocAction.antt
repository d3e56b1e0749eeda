-- ===== src/AllocAction.antt =====
-- MemDetector/include/intern/AllocAction.hpp: the kinds of recorded operations and their tables.
mod Tables
mod Tests
use sallocator.Base.{ℕ, ◌-◌, ◌^◌, Bool, true, false, Option, List, [], ◌∷◌, get_elem?, Bytes}

pub data AllocOp : Type 0 where
  new : AllocOp
  delete : AllocOp
  new_array : AllocOp
  delete_array : AllocOp
  malloc : AllocOp
  free : AllocOp
  cuda_host_malloc : AllocOp
  cuda_device_malloc : AllocOp
  cuda_managed_malloc : AllocOp
  cuda_free : AllocOp
  unknown : AllocOp

-- The value of the enumerator.
abbrev pub index : AllocOp → ℕ
index new = 0
index delete = 1
index new_array = 2
index delete_array = 3
index malloc = 4
index free = 5
index cuda_host_malloc = 6
index cuda_device_malloc = 7
index cuda_managed_malloc = 8
index cuda_free = 9
index unknown = 10

pub record AllocAction : Type 0 where
  pub op : AllocOp
  pub tid : ℕ
  pub ptr : ℕ
  pub size : ℕ
  pub align : ℕ
  pub caller : ℕ
  pub time : ℕ

-- `kNone`, `(size_t)-1`
abbrev pub k_none : ℕ
k_none = 2 ^ 64 - 1

-- `kAllocOpNames`
abbrev pub alloc_op_names : List Bytes
alloc_op_names =
    (b'N' ∷ b'e' ∷ b'w' ∷ [])
    ∷ (b'D' ∷ b'e' ∷ b'l' ∷ b'e' ∷ b't' ∷ b'e' ∷ [])
    ∷ (b'N' ∷ b'e' ∷ b'w' ∷ b'A' ∷ b'r' ∷ b'r' ∷ b'a' ∷ b'y' ∷ [])
    ∷ (b'D' ∷ b'e' ∷ b'l' ∷ b'e' ∷ b't' ∷ b'e' ∷ b'A' ∷ b'r' ∷ b'r' ∷ b'a' ∷ b'y' ∷ [])
    ∷ (b'M' ∷ b'a' ∷ b'l' ∷ b'l' ∷ b'o' ∷ b'c' ∷ [])
    ∷ (b'F' ∷ b'r' ∷ b'e' ∷ b'e' ∷ [])
    ∷ (b'C' ∷ b'u' ∷ b'd' ∷ b'a' ∷ b'H' ∷ b'o' ∷ b's' ∷ b't' ∷ b'M' ∷ b'a' ∷ b'l' ∷ b'l' ∷ b'o'
        ∷ b'c' ∷ [])
    ∷ (b'C' ∷ b'u' ∷ b'd' ∷ b'a' ∷ b'D' ∷ b'e' ∷ b'v' ∷ b'i' ∷ b'c' ∷ b'e' ∷ b'M' ∷ b'a' ∷ b'l'
        ∷ b'l' ∷ b'o' ∷ b'c' ∷ [])
    ∷ (b'C' ∷ b'u' ∷ b'd' ∷ b'a' ∷ b'M' ∷ b'a' ∷ b'n' ∷ b'a' ∷ b'g' ∷ b'e' ∷ b'd' ∷ b'M' ∷ b'a'
        ∷ b'l' ∷ b'l' ∷ b'o' ∷ b'c' ∷ [])
    ∷ (b'C' ∷ b'u' ∷ b'd' ∷ b'a' ∷ b'F' ∷ b'r' ∷ b'e' ∷ b'e' ∷ [])
    ∷ (b'U' ∷ b'n' ∷ b'k' ∷ b'n' ∷ b'o' ∷ b'w' ∷ b'n' ∷ [])
    ∷ []

abbrev pub alloc_op_is_allocation : List Bool
alloc_op_is_allocation =
    true ∷ false ∷ true ∷ false ∷ true ∷ false ∷ true ∷ true ∷ true ∷ false ∷ false ∷ []

abbrev pub alloc_op_is_cpp : List Bool
alloc_op_is_cpp =
    true ∷ true ∷ true ∷ true ∷ false ∷ false ∷ false ∷ false ∷ false ∷ false ∷ false ∷ []

abbrev pub alloc_op_is_c : List Bool
alloc_op_is_c =
    false ∷ false ∷ false ∷ false ∷ true ∷ true ∷ false ∷ false ∷ false ∷ false ∷ false ∷ []

abbrev pub alloc_op_is_cuda : List Bool
alloc_op_is_cuda =
    false ∷ false ∷ false ∷ false ∷ false ∷ false ∷ true ∷ true ∷ true ∷ true ∷ false ∷ []

abbrev pub alloc_op_free_function : List AllocOp
alloc_op_free_function =
    AllocOp.delete ∷ AllocOp.unknown ∷ AllocOp.delete_array ∷ AllocOp.unknown ∷ AllocOp.malloc
    ∷ AllocOp.unknown ∷ AllocOp.cuda_free ∷ AllocOp.cuda_free ∷ AllocOp.cuda_free ∷ AllocOp.unknown
    ∷ AllocOp.unknown ∷ []

-- The entry of an operation in one of the tables.
abbrev pub entry {ℓ} : {A : Type ℓ} → List A → AllocOp → Option A
entry table op = get_elem? table (index op)
