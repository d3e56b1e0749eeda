-- ===== src/MemDetector/Spec.antt =====
-- What the operators of MemDetector/include/MemDetector.hpp promise: each does what the library's
-- function does, and the calls are recorded in order.
use sallocator.Base.{
  ℕ, Bool, true, false, List, [], ◌∷◌, ◌++◌, ◌==◌, ◌&&◌, if◌then◌else◌, Option, none, some, ◌%◌,
}
use sallocator.AllocAction.{AllocOp, AllocAction, k_none}
use sallocator.MemDetector.{Site, GlobalData}
use sallocator.MemDetector.Operators.{
  Libc, Detector, Ran, blocks, bad_alloc, returns, operator_delete, operator_delete_array,
  operator_delete_nothrow, operator_delete_array_nothrow, operator_delete_sized,
  operator_delete_array_sized, operator_delete_aligned, operator_delete_array_aligned,
  operator_delete_sized_aligned, operator_delete_array_sized_aligned,
  operator_delete_aligned_nothrow, operator_delete_array_aligned_nothrow, operator_new,
  operator_new_array, operator_new_nothrow, operator_new_array_nothrow, operator_new_aligned,
  operator_new_array_aligned, operator_new_aligned_nothrow, operator_new_array_aligned_nothrow,
}

-- A call of one of the operators.
pub data Call : Type 0 where
  delete : (ptr : ℕ) → Call
  delete_array : (ptr : ℕ) → Call
  delete_nothrow : (ptr : ℕ) → Call
  delete_array_nothrow : (ptr : ℕ) → Call
  delete_sized : (ptr size : ℕ) → Call
  delete_array_sized : (ptr size : ℕ) → Call
  delete_aligned : (ptr align : ℕ) → Call
  delete_array_aligned : (ptr align : ℕ) → Call
  delete_sized_aligned : (ptr size align : ℕ) → Call
  delete_array_sized_aligned : (ptr size align : ℕ) → Call
  delete_aligned_nothrow : (ptr align : ℕ) → Call
  delete_array_aligned_nothrow : (ptr align : ℕ) → Call
  new : (size : ℕ) → Call
  new_array : (size : ℕ) → Call
  new_nothrow : (size : ℕ) → Call
  new_array_nothrow : (size : ℕ) → Call
  new_aligned : (size align : ℕ) → Call
  new_array_aligned : (size align : ℕ) → Call
  new_aligned_nothrow : (size align : ℕ) → Call
  new_array_aligned_nothrow : (size align : ℕ) → Call

-- The call of the library that stands for it.
pub data Real : Type 0 where
  free : (ptr : ℕ) → Real
  malloc : (size : ℕ) → Real
  memalign : (align size : ℕ) → Real

-- What is recorded of it, and whether it throws where there is no memory.
pub record Description : Type 0 where
  pub op : AllocOp
  pub size : ℕ
  pub align : ℕ
  pub real : Real
  pub throws : Bool

abbrev describe_as : AllocOp → (size align : ℕ) → Real → Bool → Description
describe_as op size align real throws = record {
  op = op;
  size = size;
  align = align;
  real = real;
  throws = throws;
}

unfoldable pub describe : Call → Description
describe (delete ptr) = describe_as AllocOp.delete k_none k_none (Real.free ptr) false
describe (delete_array ptr) = describe_as AllocOp.delete_array k_none k_none (Real.free ptr) false
describe (delete_nothrow ptr) = describe_as AllocOp.delete k_none k_none (Real.free ptr) false
describe (delete_array_nothrow ptr) =
    describe_as AllocOp.delete_array k_none k_none (Real.free ptr) false
describe (delete_sized ptr size) = describe_as AllocOp.delete size k_none (Real.free ptr) false
describe (delete_array_sized ptr size) =
    describe_as AllocOp.delete_array size k_none (Real.free ptr) false
describe (delete_aligned ptr align) = describe_as AllocOp.delete k_none align (Real.free ptr) false
describe (delete_array_aligned ptr align) =
    describe_as AllocOp.delete_array k_none align (Real.free ptr) false
describe (delete_sized_aligned ptr size align) =
    describe_as AllocOp.delete size align (Real.free ptr) false
describe (delete_array_sized_aligned ptr size align) =
    describe_as AllocOp.delete_array size align (Real.free ptr) false
describe (delete_aligned_nothrow ptr align) =
    describe_as AllocOp.delete k_none align (Real.free ptr) false
describe (delete_array_aligned_nothrow ptr align) =
    describe_as AllocOp.delete_array k_none align (Real.free ptr) false
describe (new size) = describe_as AllocOp.new size k_none (Real.malloc size) true
describe (new_array size) = describe_as AllocOp.new_array size k_none (Real.malloc size) true
describe (new_nothrow size) = describe_as AllocOp.new size k_none (Real.malloc size) false
describe (new_array_nothrow size) =
    describe_as AllocOp.new_array size k_none (Real.malloc size) false
describe (new_aligned size align) =
    describe_as AllocOp.new size align (Real.memalign align size) true
describe (new_array_aligned size align) =
    describe_as AllocOp.new_array size align (Real.memalign align size) true
describe (new_aligned_nothrow size align) =
    describe_as AllocOp.new size align (Real.memalign align size) false
describe (new_array_aligned_nothrow size align) =
    describe_as AllocOp.new_array size align (Real.memalign align size) false

-- The record of a call that got or freed the pointer `ptr`: none for a null pointer.
abbrev pub event : Description → Site → ℕ → List AllocAction
event d site ptr =
    let action : AllocAction = record {
      op = d.op;
      tid = site.tid;
      ptr = ptr;
      size = d.size;
      align = d.align;
      caller = site.caller;
      time = site.time;
    } in
    if ptr == 0 then [] else action ∷ []

-- The actions that the entry at `i` gets: those of the threads with `tid % 8 ≡ i`.
abbrev pub of_entry : ℕ → List AllocAction → List AllocAction
of_entry i [] = []
of_entry i (a ∷ rest) =
    let others = of_entry i rest in if (a.tid % 8) == i then a ∷ others else others

module _ (L : Libc) where
  -- The pointer that the library returns, or the one that is freed.
  abbrev pub do_real : Real → L.State → ℕ × L.State
  do_real (free ptr) s = (ptr, L.free ptr s)
  do_real (malloc size) s = L.malloc size s
  do_real (memalign align size) s = L.memalign align size s

  -- The operators of the library alone: what they record, and the state of the library after them.
  abbrev pub spec_run : List (Call × Site) → L.State → List AllocAction × L.State
  spec_run [] s = ([], s)
  spec_run ((c, site) ∷ cs) s =
      let (ptr, s') = do_real (describe c).real s in
      let (log, final) = spec_run cs s' in (event (describe c) site ptr ++ log, final)

  abbrev pub no_value : Ran (Detector L) Unit → Ran (Detector L) (Option ℕ)
  no_value blocks = blocks
  no_value (bad_alloc w) = bad_alloc w
  no_value (returns u w) = returns none w

  abbrev pub a_value : Ran (Detector L) ℕ → Ran (Detector L) (Option ℕ)
  a_value blocks = blocks
  a_value (bad_alloc w) = bad_alloc w
  a_value (returns p w) = returns (some p) w

  -- The operator that the call names.
  unfoldable pub call : Call → Site → Detector L → Ran (Detector L) (Option ℕ)
  call (delete ptr) site w = no_value (operator_delete ptr site w)
  call (delete_array ptr) site w = no_value (operator_delete_array ptr site w)
  call (delete_nothrow ptr) site w = no_value (operator_delete_nothrow ptr site w)
  call (delete_array_nothrow ptr) site w = no_value (operator_delete_array_nothrow ptr site w)
  call (delete_sized ptr size) site w = no_value (operator_delete_sized ptr size site w)
  call (delete_array_sized ptr size) site w = no_value (operator_delete_array_sized ptr size site w)
  call (delete_aligned ptr align) site w = no_value (operator_delete_aligned ptr align site w)
  call (delete_array_aligned ptr align) site w =
      no_value (operator_delete_array_aligned ptr align site w)
  call (delete_sized_aligned ptr size align) site w =
      no_value (operator_delete_sized_aligned ptr size align site w)
  call (delete_array_sized_aligned ptr size align) site w =
      no_value (operator_delete_array_sized_aligned ptr size align site w)
  call (delete_aligned_nothrow ptr align) site w =
      no_value (operator_delete_aligned_nothrow ptr align site w)
  call (delete_array_aligned_nothrow ptr align) site w =
      no_value (operator_delete_array_aligned_nothrow ptr align site w)
  call (new size) site w = a_value (operator_new size site w)
  call (new_array size) site w = a_value (operator_new_array size site w)
  call (new_nothrow size) site w = a_value (operator_new_nothrow size site w)
  call (new_array_nothrow size) site w = a_value (operator_new_array_nothrow size site w)
  call (new_aligned size align) site w = a_value (operator_new_aligned size align site w)
  call (new_array_aligned size align) site w =
      a_value (operator_new_array_aligned size align site w)
  call (new_aligned_nothrow size align) site w =
      a_value (operator_new_aligned_nothrow size align site w)
  call (new_array_aligned_nothrow size align) site w =
      a_value (operator_new_array_aligned_nothrow size align site w)

  abbrev pub outcome_of : Real → Bool → ℕ → Detector L → Ran (Detector L) (Option ℕ)
  outcome_of (free p) throws ptr w = returns none w
  outcome_of (malloc size) throws ptr w =
      if throws && (ptr == 0) then bad_alloc w else returns (some ptr) w
  outcome_of (memalign align size) throws ptr w =
      if throws && (ptr == 0) then bad_alloc w else returns (some ptr) w

  -- The outcome of the library's function, with the exception that C++ asks for.
  abbrev pub outcome : Description → ℕ × L.State → Option GlobalData → Ran (Detector L) (Option ℕ)
  outcome d (ptr, s) g = outcome_of d.real d.throws ptr (record { libc = s; global = g })

  -- The program goes on after a call that returns or throws, and stops in one that waits for ever.
  abbrev pub after : Ran (Detector L) (Option ℕ) → Option (Detector L)
  after blocks = none
  after (bad_alloc w) = some w
  after (returns p w) = some w

  -- A sequence of calls by any threads, one after the other.
  abbrev pub run : List (Call × Site) → Detector L → Option (Detector L)
  run [] w = some w
  run ((c, site) ∷ cs) w = elim (after (call c site w)) [ none ↦ none | some w' ↦ run cs w' ]
