-- ===== src/MemDetector/Calls.antt =====
-- What a call of an operator of MemDetector/include/MemDetector.hpp does, in terms of its guard.
use sallocator.Base.{
  ℕ, ◌≡◌, refl, Bool, true, false, Option, none, some, ◌==◌, ◌&&◌, Bool-cases, inl, inr,
  if◌then◌else◌,
}
use sallocator.AllocAction.{AllocOp, k_none}
use sallocator.MemDetector.{GlobalData, Site, EnableGuard, enter, leave}
use sallocator.MemDetector.Operators.{
  Libc, Detector, blocks, bad_alloc, returns, delete_with, new_with, record_if,
}
use sallocator.MemDetector.Spec.{Call, describe, do_real, call, outcome, no_value, a_value}

module _ (L : Libc) (site : Site) (w : Detector L) where
  module _ (ena : EnableGuard) (g : Option GlobalData)
      (e : enter site.tid w.global ≡ some (ena, g)) where
    delete_ran :
        (op : AllocOp) (ptr size align : ℕ)
        → no_value L (delete_with op ptr size align site w)
          ≡ returns none (record {
            libc = L.free ptr w.libc;
            global = leave ena (record_if ena op ptr size align site g);
          })
    unfolding delete_with
    delete_ran op ptr size align = rw (delete_with, no_value, e) refl

    new_ran :
        (throws : Bool) (op : AllocOp) (real : L.State → ℕ × L.State) (size align : ℕ)
        → let w' : Detector L = record {
          libc = (real w.libc).1;
          global = leave ena (record_if ena op (real w.libc).0 size align site g);
        } in
          a_value L (new_with throws op real size align site w) ≡ (
            if throws && ((real w.libc).0 == 0)
            then bad_alloc w'
            else returns (some (real w.libc).0) w')
    unfolding new_with
    new_ran throws op real size align = elim (Bool-cases (throws && ((real w.libc).0 == 0))) [
      | inl t ↦ rw (new_with, a_value, e, t) refl
      | inr f ↦ rw (new_with, a_value, e, f) refl
    ]

    pub call_ran :
        (c : Call)
        → let d = describe c in
          let x = do_real L d.real w.libc in
          call L c site w ≡ outcome L d x (leave ena (record_if ena d.op x.0 d.size d.align site g))
    unfolding call describe
    call_ran (Call.delete ptr) = delete_ran AllocOp.delete ptr k_none k_none
    call_ran (Call.delete_array ptr) = delete_ran AllocOp.delete_array ptr k_none k_none
    call_ran (Call.delete_nothrow ptr) = delete_ran AllocOp.delete ptr k_none k_none
    call_ran (Call.delete_array_nothrow ptr) = delete_ran AllocOp.delete_array ptr k_none k_none
    call_ran (Call.delete_sized ptr size) = delete_ran AllocOp.delete ptr size k_none
    call_ran (Call.delete_array_sized ptr size) = delete_ran AllocOp.delete_array ptr size k_none
    call_ran (Call.delete_aligned ptr align) = delete_ran AllocOp.delete ptr k_none align
    call_ran (Call.delete_array_aligned ptr align) =
        delete_ran AllocOp.delete_array ptr k_none align
    call_ran (Call.delete_sized_aligned ptr size align) = delete_ran AllocOp.delete ptr size align
    call_ran (Call.delete_array_sized_aligned ptr size align) =
        delete_ran AllocOp.delete_array ptr size align
    call_ran (Call.delete_aligned_nothrow ptr align) = delete_ran AllocOp.delete ptr k_none align
    call_ran (Call.delete_array_aligned_nothrow ptr align) =
        delete_ran AllocOp.delete_array ptr k_none align
    call_ran (Call.new size) = new_ran true AllocOp.new (L.malloc size) size k_none
    call_ran (Call.new_array size) = new_ran true AllocOp.new_array (L.malloc size) size k_none
    call_ran (Call.new_nothrow size) = new_ran false AllocOp.new (L.malloc size) size k_none
    call_ran (Call.new_array_nothrow size) =
        new_ran false AllocOp.new_array (L.malloc size) size k_none
    call_ran (Call.new_aligned size align) =
        new_ran true AllocOp.new (L.memalign align size) size align
    call_ran (Call.new_array_aligned size align) =
        new_ran true AllocOp.new_array (L.memalign align size) size align
    call_ran (Call.new_aligned_nothrow size align) =
        new_ran false AllocOp.new (L.memalign align size) size align
    call_ran (Call.new_array_aligned_nothrow size align) =
        new_ran false AllocOp.new_array (L.memalign align size) size align

  module _ (e : enter site.tid w.global ≡ none) where
    delete_blocks :
        (op : AllocOp) (ptr size align : ℕ)
        → no_value L (delete_with op ptr size align site w) ≡ blocks
    unfolding delete_with
    delete_blocks op ptr size align = rw (delete_with, no_value, e) refl

    new_blocks :
        (throws : Bool) (op : AllocOp) (real : L.State → ℕ × L.State) (size align : ℕ)
        → a_value L (new_with throws op real size align site w) ≡ blocks
    unfolding new_with
    new_blocks throws op real size align = rw (new_with, a_value, e) refl

    pub call_blocks : (c : Call) → call L c site w ≡ blocks
    unfolding call
    call_blocks (Call.delete ptr) = delete_blocks AllocOp.delete ptr k_none k_none
    call_blocks (Call.delete_array ptr) = delete_blocks AllocOp.delete_array ptr k_none k_none
    call_blocks (Call.delete_nothrow ptr) = delete_blocks AllocOp.delete ptr k_none k_none
    call_blocks (Call.delete_array_nothrow ptr) =
        delete_blocks AllocOp.delete_array ptr k_none k_none
    call_blocks (Call.delete_sized ptr size) = delete_blocks AllocOp.delete ptr size k_none
    call_blocks (Call.delete_array_sized ptr size) =
        delete_blocks AllocOp.delete_array ptr size k_none
    call_blocks (Call.delete_aligned ptr align) = delete_blocks AllocOp.delete ptr k_none align
    call_blocks (Call.delete_array_aligned ptr align) =
        delete_blocks AllocOp.delete_array ptr k_none align
    call_blocks (Call.delete_sized_aligned ptr size align) =
        delete_blocks AllocOp.delete ptr size align
    call_blocks (Call.delete_array_sized_aligned ptr size align) =
        delete_blocks AllocOp.delete_array ptr size align
    call_blocks (Call.delete_aligned_nothrow ptr align) =
        delete_blocks AllocOp.delete ptr k_none align
    call_blocks (Call.delete_array_aligned_nothrow ptr align) =
        delete_blocks AllocOp.delete_array ptr k_none align
    call_blocks (Call.new size) = new_blocks true AllocOp.new (L.malloc size) size k_none
    call_blocks (Call.new_array size) =
        new_blocks true AllocOp.new_array (L.malloc size) size k_none
    call_blocks (Call.new_nothrow size) = new_blocks false AllocOp.new (L.malloc size) size k_none
    call_blocks (Call.new_array_nothrow size) =
        new_blocks false AllocOp.new_array (L.malloc size) size k_none
    call_blocks (Call.new_aligned size align) =
        new_blocks true AllocOp.new (L.memalign align size) size align
    call_blocks (Call.new_array_aligned size align) =
        new_blocks true AllocOp.new_array (L.memalign align size) size align
    call_blocks (Call.new_aligned_nothrow size align) =
        new_blocks false AllocOp.new (L.memalign align size) size align
    call_blocks (Call.new_array_aligned_nothrow size align) =
        new_blocks false AllocOp.new_array (L.memalign align size) size align
