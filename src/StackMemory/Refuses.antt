-- ===== src/StackMemory/Refuses.antt =====
-- The allocations of a `StackMemory` that is made without an argument.
use sallocator.Base.{ℕ, ◌<◌, ◌≤◌, ◌≡◌, ◌∙◌, none, List, [], ◌∷◌, arith}
use sallocator.Os.{Platform}
use sallocator.StackMemory.{
  Monotonic, Limits, IsMonotonic, stack_memory, do_allocate, do_deallocate, Call, allocates,
  deallocates, run,
}

module _ {m : Monotonic} (law : IsMonotonic m) where
  -- Over the null resource and without a buffer.
  abbrev IsEmpty : m.State → Type 0
  IsEmpty s = (law.source s ≡ m.null_memory_resource) × (law.room s ≤ 0)

  run-IsEmpty : (calls : List Call) (s : m.State) → IsEmpty s → IsEmpty (run m calls s)
  unfolding run do_allocate do_deallocate
  run-IsEmpty [] s h = h
  run-IsEmpty (allocates bytes alignment ∷ calls) s h = run-IsEmpty calls _ (
    law.same_source bytes alignment s ∙ h.0,
    omega (arith, law.less_room bytes alignment s h.0, h.1),
  )
  run-IsEmpty (deallocates p bytes alignment ∷ calls) s h =
      run-IsEmpty calls _ (rw (law.deallocates_nothing p bytes alignment s) h)

  -- A StackMemory that is made without an argument throws at each allocation of a byte or more,
  -- after any sequence of calls.
  pub stack_memory-refuses :
      (f : Limits) (platform : Platform) (limits : f.State) (calls : List Call)
      (bytes alignment : ℕ)
      → 0 < bytes
      → let s = (stack_memory m f platform m.null_memory_resource limits).0 in
        (do_allocate m bytes alignment (run m calls s)).0 ≡ none
  unfolding stack_memory do_allocate
  stack_memory-refuses f platform limits calls bytes alignment pos =
      let fresh = m.make 0 0 m.null_memory_resource in
      let empty = run-IsEmpty calls fresh (law.make_source 0 0 _, law.make_room 0 0 _) in
      law.full bytes alignment (run m calls fresh) empty.0 (omega (arith, empty.1, pos))
