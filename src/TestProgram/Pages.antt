-- ===== src/TestProgram/Pages.antt =====
-- The loop over the pages of `test_large_alloc` of src/main.cpp.
use mathlib.Core.Path.{fun_ext}
use sallocator.Base.{
  ℕ, zero, suc, ◌+◌, ◌-◌, ◌*◌, ◌/◌, ◌%◌, ◌^◌, ◌<◌, ◌≤◌, ◌≡◌, refl, ap, ◌∙◌, some, arith, ltb, leb,
  ◌==◌, ◌&&◌, if◌then◌else◌, Bool-cases, inl, inr, add64,
}
use sallocator.TestProgram.{
  page, large_size, Bytes, write_byte, touch_loop, test_large_alloc, Machine,
}

-- The bytes once the first byte of each page from `offset` on, below `limit`, was written.
unfoldable pub touched : (limit ptr offset : ℕ) → Bytes → Bytes
touched limit ptr offset bytes a =
    if leb (ptr + offset) a && ltb a (ptr + limit) && ((a - ptr) % page == 0) then 0xCD else bytes a

touched_end :
    (limit ptr offset : ℕ) (bytes : Bytes) → limit ≤ offset → bytes ≡ touched limit ptr offset bytes
unfolding touched
touched_end limit ptr offset bytes h = fun_ext (λ a. ground (arith, h))

touched_next :
    (limit ptr offset : ℕ) (bytes : Bytes)
    → offset < limit
    → offset % page ≡ 0
    → touched limit ptr (offset + page) (write_byte (ptr + offset) 0xCD bytes)
      ≡ touched limit ptr offset bytes
unfolding touched write_byte
touched_next limit ptr offset bytes h e = fun_ext (λ a. ground (arith, h, e))

touch_loop-ends :
    (fuel limit ptr offset : ℕ) (bytes : Bytes)
    → limit + page ≤ 2 ^ 64
    → offset % page ≡ 0
    → offset < limit + page
    → limit + page ≤ offset + page * fuel
    → touch_loop fuel limit ptr offset bytes ≡ some (touched limit ptr offset bytes)
unfolding touch_loop
touch_loop-ends zero limit ptr offset bytes small e under enough =
    absurd (omega (arith, under, enough))
touch_loop-ends (suc fuel) limit ptr offset bytes small e under enough =
    elim (Bool-cases (ltb offset limit)) [
      | inr over ↦ rw over (ap some (touched_end limit ptr offset bytes (ground arith)))
      | inl more ↦
          let next : add64 offset page ≡ offset + page = ground (arith, small) in
          rw (more, next)
            (touch_loop-ends fuel limit ptr (offset + page) (write_byte (ptr + offset) 0xCD bytes)
                small (omega (arith, e)) (ground arith) (omega (arith, enough))
              ∙ ap some (touched_next limit ptr offset bytes (ground arith) e))
    ]

module _ {S : Type 0} (alloc_fn : S → ℕ × S) (free_fn : ℕ → S → S) where
  -- What the test leaves behind: without a block only what `alloc_fn` did, else the written pages
  -- and what `free_fn` did with the block.
  pub after_test : Machine S → Machine S
  unfolding touched
  after_test m =
      let (ptr, s) = alloc_fn m.state in
      if ptr == 0
      then record { state = s; bytes = m.bytes }
      else record { state = free_fn ptr s; bytes = touched large_size ptr 0 m.bytes }

  -- With more fuel than LARGE_SIZE has pages, test_large_alloc ends: without a block it has called
  -- alloc_fn only, and else it has written 0xCD to the first byte of each page of 4096 bytes below
  -- LARGE_SIZE and to no other byte, and given the block to free_fn.
  pub test_large_alloc-after_test :
      (fuel : ℕ) (m : Machine S)
      → large_size / page < fuel
      → test_large_alloc alloc_fn free_fn fuel m ≡ some (after_test m)
  unfolding test_large_alloc after_test
  test_large_alloc-after_test fuel m enough =
      let (ptr, s) = alloc_fn m.state in
      elim (Bool-cases (ptr == 0)) [
        | inl null ↦ rw null refl
        | inr live ↦
            rw
              (
                live,
                touch_loop-ends fuel large_size ptr 0 m.bytes (omega arith) (omega arith)
                    (omega arith) (omega (arith, enough)),
              )
              refl
      ]
