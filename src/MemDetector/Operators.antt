-- ===== src/MemDetector/Operators.antt =====
-- The operators of MemDetector/include/MemDetector.hpp. `REAL_LIBC` is an interface.
use sallocator.Base.{ℕ, Bool, true, false, Option, none, some, ◌==◌, ◌&&◌, if◌then◌else◌}
use sallocator.AllocAction.{AllocOp, k_none}
use sallocator.MemDetector.{GlobalData, EnableGuard, Site, enter, on, leave, to_bool}

-- The functions that `REAL_LIBC` names.
pub record Libc : Type 1 where
  pub State : Type 0
  pub malloc : (size : ℕ) → State → ℕ × State
  pub memalign : (align size : ℕ) → State → ℕ × State
  pub free : (ptr : ℕ) → State → State

-- `global` is the pointer of that name.
pub record Detector (L : Libc) : Type 0 where
  pub libc : L.State
  pub global : Option GlobalData

-- What a call does: it waits for a lock, throws `std::bad_alloc` or returns.
pub data Ran (W A : Type 0) : Type 0 where
  blocks : Ran W A
  bad_alloc : W → Ran W A
  returns : A → W → Ran W A

-- `if (ena) ena.on(...)`
abbrev pub record_if :
    EnableGuard → AllocOp → (ptr size align : ℕ) → Site → Option GlobalData → Option GlobalData
record_if ena op ptr size align site g = if to_bool ena then on ena op ptr size align site g else g

module _ {L : Libc} where
  -- The body of each `operator delete`. The guard is left at the end of the body.
  unfoldable pub delete_with :
      AllocOp → (ptr size align : ℕ) → Site → Detector L → Ran (Detector L) Unit
  delete_with op ptr size align site w = elim (enter site.tid w.global) [
    | none ↦ blocks
    | some (ena, g) ↦ returns tt (record {
      libc = L.free ptr w.libc;
      global = leave ena (record_if ena op ptr size align site g);
    })
  ]

  -- And of each `operator new`; `throws` tells the ones without `std::nothrow_t`.
  unfoldable pub new_with :
      (throws : Bool)
      → AllocOp
      → (L.State → ℕ × L.State)
      → (size align : ℕ) → Site
      → Detector L
      → Ran (Detector L) ℕ
  new_with throws op real size align site w = elim (enter site.tid w.global) [
    | none ↦ blocks
    | some (ena, g) ↦
        let (ptr, s) = real w.libc in
        let w' : Detector L = record {
          libc = s;
          global = leave ena (record_if ena op ptr size align site g);
        } in
        if throws && (ptr == 0) then bad_alloc w' else returns ptr w'
  ]

  abbrev pub operator_delete : (ptr : ℕ) → Site → Detector L → Ran (Detector L) Unit
  operator_delete ptr = delete_with AllocOp.delete ptr k_none k_none

  abbrev pub operator_delete_array : (ptr : ℕ) → Site → Detector L → Ran (Detector L) Unit
  operator_delete_array ptr = delete_with AllocOp.delete_array ptr k_none k_none

  abbrev pub operator_delete_nothrow : (ptr : ℕ) → Site → Detector L → Ran (Detector L) Unit
  operator_delete_nothrow ptr = delete_with AllocOp.delete ptr k_none k_none

  abbrev pub operator_delete_array_nothrow : (ptr : ℕ) → Site → Detector L → Ran (Detector L) Unit
  operator_delete_array_nothrow ptr = delete_with AllocOp.delete_array ptr k_none k_none

  abbrev pub operator_delete_sized : (ptr size : ℕ) → Site → Detector L → Ran (Detector L) Unit
  operator_delete_sized ptr size = delete_with AllocOp.delete ptr size k_none

  abbrev pub operator_delete_array_sized :
      (ptr size : ℕ) → Site → Detector L → Ran (Detector L) Unit
  operator_delete_array_sized ptr size = delete_with AllocOp.delete_array ptr size k_none

  abbrev pub operator_delete_aligned : (ptr align : ℕ) → Site → Detector L → Ran (Detector L) Unit
  operator_delete_aligned ptr align = delete_with AllocOp.delete ptr k_none align

  abbrev pub operator_delete_array_aligned :
      (ptr align : ℕ) → Site → Detector L → Ran (Detector L) Unit
  operator_delete_array_aligned ptr align = delete_with AllocOp.delete_array ptr k_none align

  abbrev pub operator_delete_sized_aligned :
      (ptr size align : ℕ) → Site → Detector L → Ran (Detector L) Unit
  operator_delete_sized_aligned ptr size align = delete_with AllocOp.delete ptr size align

  abbrev pub operator_delete_array_sized_aligned :
      (ptr size align : ℕ) → Site → Detector L → Ran (Detector L) Unit
  operator_delete_array_sized_aligned ptr size align =
      delete_with AllocOp.delete_array ptr size align

  abbrev pub operator_delete_aligned_nothrow :
      (ptr align : ℕ) → Site → Detector L → Ran (Detector L) Unit
  operator_delete_aligned_nothrow ptr align = delete_with AllocOp.delete ptr k_none align

  abbrev pub operator_delete_array_aligned_nothrow :
      (ptr align : ℕ) → Site → Detector L → Ran (Detector L) Unit
  operator_delete_array_aligned_nothrow ptr align =
      delete_with AllocOp.delete_array ptr k_none align

  abbrev pub operator_new : (size : ℕ) → Site → Detector L → Ran (Detector L) ℕ
  operator_new size = new_with true AllocOp.new (L.malloc size) size k_none

  abbrev pub operator_new_array : (size : ℕ) → Site → Detector L → Ran (Detector L) ℕ
  operator_new_array size = new_with true AllocOp.new_array (L.malloc size) size k_none

  abbrev pub operator_new_nothrow : (size : ℕ) → Site → Detector L → Ran (Detector L) ℕ
  operator_new_nothrow size = new_with false AllocOp.new (L.malloc size) size k_none

  abbrev pub operator_new_array_nothrow : (size : ℕ) → Site → Detector L → Ran (Detector L) ℕ
  operator_new_array_nothrow size = new_with false AllocOp.new_array (L.malloc size) size k_none

  abbrev pub operator_new_aligned : (size align : ℕ) → Site → Detector L → Ran (Detector L) ℕ
  operator_new_aligned size align = new_with true AllocOp.new (L.memalign align size) size align

  abbrev pub operator_new_array_aligned : (size align : ℕ) → Site → Detector L → Ran (Detector L) ℕ
  operator_new_array_aligned size align =
      new_with true AllocOp.new_array (L.memalign align size) size align

  abbrev pub operator_new_aligned_nothrow :
      (size align : ℕ) → Site → Detector L → Ran (Detector L) ℕ
  operator_new_aligned_nothrow size align =
      new_with false AllocOp.new (L.memalign align size) size align

  abbrev pub operator_new_array_aligned_nothrow :
      (size align : ℕ) → Site → Detector L → Ran (Detector L) ℕ
  operator_new_array_aligned_nothrow size align =
      new_with false AllocOp.new_array (L.memalign align size) size align
