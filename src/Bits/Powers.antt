-- ===== src/Bits/Powers.antt =====
-- The test `(a & (a - 1)) == 0` for powers of two of src/SysApi.cpp.
use native.Mathlib.Nat.{pow-suc, mod_self}
use sallocator.Base.{
  ℕ, zero, suc, ◌-◌, ◌*◌, ◌/◌, ◌%◌, ◌^◌, ◌≤◌, ◌<◌, bit_and, ◌≡◌, refl, inl, inr, arith, ◌==◌,
  Bool-cases, sub64,
}
use sallocator.Bits.{IsPow2, IsPow2-pos, IsPow2-lt, bit_and_low, bit_and_ones, pow_exp_le}

bit_and_self : (n a : ℕ) → a ≤ n → bit_and a a ≡ a
bit_and_self n zero h = refl
bit_and_self zero (suc a) h = absurd (omega (arith, h))
bit_and_self (suc n) (suc a) h =
    omega (arith, bit_and_low (suc a) (suc a), bit_and_self n (suc a / 2) (omega (arith, h)))

-- A number that is not 0 and shares no digit with the one before it is a power of two.
pow_of_test : (n a : ℕ) → a ≤ n → 0 < a → bit_and a (a - 1) ≡ 0 → (k : ℕ) × (a ≡ 2 ^ k)
pow_of_test zero a h pos e = absurd (omega (arith, h, pos))
pow_of_test (suc n) a h pos e = elim (Bool-cases ((a % 2) == 0)) [
  | inl even ↦
      let half : (a - 1) / 2 ≡ a / 2 - 1 = ground (arith, even) in
      let low : bit_and a (a - 1) ≡ bit_and (a / 2) (a / 2 - 1) * 2 =
        rw (← half) (ground (arith, bit_and_low a (a - 1), even)) in
      let (k, same) =
        pow_of_test n (a / 2) (omega (arith, h)) (ground (arith, even, pos))
          (omega (arith, low, e)) in
      (suc k, ground (arith, even, same, pow-suc 2 k))
  | inr odd ↦
      let half : (a - 1) / 2 ≡ a / 2 = ground (arith, odd) in
      let low : bit_and a (a - 1) ≡ a / 2 * 2 =
        rw (← bit_and_self (a / 2) (a / 2) (omega arith), ← half)
          (ground (arith, bit_and_low a (a - 1), odd, half)) in
      (0, ground (arith, odd, low, e))
]

pub test-IsPow2 : (a : ℕ) → 0 < a → a < 2 ^ 64 → bit_and a (sub64 a 1) ≡ 0 → IsPow2 a
test-IsPow2 a pos lt e =
    let before : sub64 a 1 ≡ a - 1 = omega (arith, pos, lt) in
    let (k, same) = pow_of_test a a (omega arith) pos (rw (← before) e) in
    let le : k ≤ 64 = pow_exp_le k 64 (omega (arith, same, lt)) in
    record {
      exp = k;
      exp_lt = elim (Bool-cases (k == 64)) [
        | inl top ↦
            let at : k ≡ 64 = ground (arith, top) in absurd (omega (arith, rw at at same, lt))
        | inr below ↦ ground (arith, below, le)
      ];
      value = same;
    }

pub IsPow2-test : (a : ℕ) → IsPow2 a → bit_and a (sub64 a 1) ≡ 0
IsPow2-test a p =
    let before : sub64 a 1 ≡ a - 1 = omega (arith, IsPow2-pos p, IsPow2-lt p) in
    rw (before, p.value, bit_and_ones p.exp (2 ^ p.exp)) (mod_self (2 ^ p.exp))
