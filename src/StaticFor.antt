-- ===== src/StaticFor.antt =====
-- include/static_for.hpp: loops that the compiler unrolls. The body of a loop is a function on the
-- state that it reaches by reference.
mod Loops
mod Tests
use sallocator.Base.{ℕ, zero, suc, ◌+◌, ◌-◌, ◌<◌, Bool, true, false, List, [], ◌∷◌, if◌then◌else◌}

-- `std::make_index_sequence<N>`, from `i` on.
unfoldable pub index_sequence : (count i : ℕ) → List ℕ
index_sequence zero i = []
index_sequence (suc n) i = i ∷ index_sequence n (i + 1)

module _ {S : Type 0} where
  -- The instances `static_for<Beg, End>` with `count ≡ End - Beg`, for a body without a `Breaker`.
  unfoldable pub static_for_count : (count beg : ℕ) → (ℕ → S → S) → S → S
  static_for_count zero beg lambda s = s
  static_for_count (suc n) beg lambda s = static_for_count n (beg + 1) lambda (lambda beg s)

  unfoldable pub static_for : (beg end : ℕ) → (ℕ → S → S) → S → S
  unfolding static_for_count
  static_for beg end lambda s = static_for_count (end - beg) beg lambda s

  -- And for a body that gets one; it tells whether it has called `static_break`.
  unfoldable pub static_for_count_break : (count beg : ℕ) → (ℕ → S → S × Bool) → S → S
  static_for_count_break zero beg lambda s = s
  static_for_count_break (suc n) beg lambda s =
      let rest = static_for_count_break n (beg + 1) lambda (lambda beg s).0 in
      if (lambda beg s).1 then (lambda beg s).0 else rest

  unfoldable pub static_for_break : (beg end : ℕ) → (ℕ → S → S × Bool) → S → S
  unfolding static_for_count_break
  static_for_break beg end lambda s = static_for_count_break (end - beg) beg lambda s

  -- `_static_for_impl`: the comma operator runs the calls from left to right.
  unfoldable pub static_for_impl : (ℕ → S → S) → List ℕ → S → S
  static_for_impl lambda [] s = s
  static_for_impl lambda (i ∷ is) s = static_for_impl lambda is (lambda i s)

  -- `static_for<N>`
  unfoldable pub static_for_n : ℕ → (ℕ → S → S) → S → S
  unfolding static_for_impl index_sequence
  static_for_n n lambda s = static_for_impl lambda (index_sequence n 0) s
