-- ===== src/OsAllocator/Place.antt =====
-- Where src/SysApi.cpp puts the header and the block in a mapping.
use native.Mathlib.Nat.{div-add-mod', mul-add-div_right, le-div_iff_mul-le}
use sallocator.Base.{
  ℕ, ◌+◌, ◌-◌, ◌*◌, ◌/◌, ◌%◌, ◌^◌, ◌≤◌, ◌<◌, ◌≡◌, inl, inr, true, false, arith, ltb, bit_and,
  if◌then◌else◌, Bool-cases, add64, sub64, not64,
}
use sallocator.Bits.{
  IsPow2, IsPow2-pos, bit_and_mask_up, round_up, round_up_bounds, round_up-mod, round_up_least,
}
use sallocator.OsAllocator.{place, header_size_of, total_size_of, sizeof_header}

module _ {a : ℕ} (p : IsPow2 a) where
  pub header_size_eq : a + 16 ≤ 2 ^ 64 → header_size_of a ≡ round_up a 16
  unfolding header_size_of
  header_size_eq h = bit_and_mask_up p 16 (omega arith)

  pub total_size_eq :
      (size : ℕ) → size + (2 * a + 16) < 2 ^ 64 → total_size_of size a ≡ size + a + round_up a 16
  unfolding total_size_of
  total_size_eq size h = rw (header_size_eq (omega arith)) (omega (arith, round_up_bounds p 16))

  round_up-add : (raw x : ℕ) → raw % a ≡ 0 → round_up a (raw + x) ≡ raw + round_up a x
  unfolding round_up
  round_up-add raw x whole =
      let q : raw / a * a ≡ raw = omega (arith, div-add-mod' raw a) in
      let sum : raw + x + a - 1 ≡ raw / a * a + (x + a - 1) = omega (arith, IsPow2-pos p) in
      rw (sum, mul-add-div_right (IsPow2-pos p) (raw / a) (x + a - 1)) (omega arith)

  pub header_whole : a ≤ round_up a 16
  unfolding round_up
  header_whole =
      let once : 1 ≤ (16 + a - 1) / a = (le-div_iff_mul-le (IsPow2-pos p)).1 (omega arith) in
      grind arith

  -- The two ways to place the block.
  place_eq :
      (raw : ℕ)
      → 16 ≤ raw
      → raw + a + 16 ≤ 2 ^ 64
      → place raw a
        ≡ (if ltb (round_up a raw - 16) raw then round_up a (raw + 16) else round_up a raw)
  unfolding place
  place_eq raw low h =
      let up = round_up_bounds p raw in
      let first : bit_and (sub64 (add64 raw a) 1) (not64 (sub64 a 1)) ≡ round_up a raw =
        bit_and_mask_up p raw (omega arith) in
      let shift : add64 (add64 raw a) sizeof_header ≡ add64 (raw + 16) a = omega arith in
      let header : sub64 (round_up a raw) sizeof_header ≡ round_up a raw - 16 = omega (arith, up) in
      rw (first, header, shift, bit_and_mask_up p (raw + 16) (omega arith))

  -- The block is aligned, leaves room for a header of 16 bytes above the start of the mapping, and
  -- begins less than the alignment and a header behind that start.
  pub place_bounds :
      (raw : ℕ)
      → 16 ≤ raw
      → raw + a + 16 ≤ 2 ^ 64
      → (place raw a % a ≡ 0) × (raw + 16 ≤ place raw a) × (place raw a < raw + a + 16)
  place_bounds raw low h = elim (Bool-cases (ltb (round_up a raw - 16) raw)) [
    | inl below ↦
        rw (place_eq raw low h, below)
          (
            round_up-mod a (raw + 16),
            (round_up_bounds p (raw + 16)).0,
            omega (arith, round_up_bounds p (raw + 16)),
          )
    | inr above ↦
        rw (place_eq raw low h, above)
          (round_up-mod a raw, ground arith, omega (arith, round_up_bounds p raw))
  ]

  -- The header is written `round_up a 16` bytes below the block. In a mapping that is aligned to
  -- the alignment of the block, this is the start of the mapping.
  pub place_aligned :
      (raw : ℕ)
      → 16 ≤ raw
      → raw + a + 16 ≤ 2 ^ 64
      → raw % a ≡ 0
      → place raw a ≡ raw + header_size_of a
  place_aligned raw low h whole =
      let here : round_up a raw ≡ raw =
        omega (arith, round_up_bounds p raw, round_up_least p raw raw whole) in
      let below : ltb (round_up a raw - 16) raw ≡ true = rw here (ground arith) in
      rw (place_eq raw low h, below, header_size_eq (omega arith)) (round_up-add raw 16 whole)

  -- Where the mapping is not aligned to an alignment above 16, and there is room for 16 bytes below
  -- the next multiple, the header is written below the mapping.
  pub header_below :
      (raw : ℕ)
      → 16 < a
      → 16 ≤ raw
      → raw + a + 16 ≤ 2 ^ 64
      → raw + 16 ≤ round_up a raw
      → place raw a - header_size_of a < raw
  header_below raw big low h room =
      let above : ltb (round_up a raw - 16) raw ≡ false = ground arith in
      rw (place_eq raw low h, above, header_size_eq (omega arith))
        (omega (arith, round_up_bounds p raw, header_whole))
