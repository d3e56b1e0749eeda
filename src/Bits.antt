-- ===== src/Bits.antt =====
-- The rounding mask of the allocators, `x & ~(a - 1)` for a power of two `a`, as arithmetic.
pub mod Powers
use Prim.Native.Nat.{digits, bit_and-bitwise, min}
use native.Mathlib.Decide.{dec_le}
use native.Mathlib.Nat.{
  pow-suc, one-le-pow, div-add-mod, div-add-mod', div-div-eq-div-mul, mod-eq_of_lt, mod-lt,
  div-lt_iff_lt-mul, mul-mod_left, mul-sub, mul_comm,
}
use sallocator.Base.{
  ℕ, zero, suc, ◌+◌, ◌-◌, ◌*◌, ◌/◌, ◌%◌, ◌^◌, ◌≤◌, ◌<◌, bit_and, ◌≡◌, refl, ap, arith, not64, sub64,
  add64,
}

-- `digits` runs on fuel; any two amounts that are enough give the same number.
module _ (f : ℕ → ℕ → ℕ) where
  digits_fuel_eq : (n m a b : ℕ) → a ≤ n → a ≤ m → digits (λ _. 0) f n a b ≡ digits (λ _. 0) f m a b
  digits_fuel_eq zero zero zero b p q = refl
  digits_fuel_eq zero (suc m) zero b p q = refl
  digits_fuel_eq (suc n) zero zero b p q = refl
  digits_fuel_eq (suc n) (suc m) zero b p q = refl
  digits_fuel_eq zero m (suc a) b p q = absurd (omega arith)
  digits_fuel_eq (suc n) zero (suc a) b p q = absurd (omega arith)
  digits_fuel_eq (suc n) (suc m) (suc a) b p q =
      rw (digits_fuel_eq n m (suc a / 2) (b / 2) (omega arith) (omega arith))

-- The lowest binary digit of `&`.
pub bit_and_low : (a b : ℕ) → bit_and a b ≡ bit_and (a / 2) (b / 2) * 2 + min (a % 2) (b % 2)
bit_and_low zero b = simp bit_and-bitwise (omega arith)
bit_and_low (suc a) b = simp bit_and-bitwise (
    omega (arith, digits_fuel_eq min a (suc a / 2) (suc a / 2) (b / 2) (omega arith) (omega arith)))

bit_and-zero_upto : (n a : ℕ) → a ≤ n → bit_and a 0 ≡ 0
bit_and-zero_upto n zero h = refl
bit_and-zero_upto zero (suc a) h = absurd (omega arith)
bit_and-zero_upto (suc n) (suc a) h =
    omega (arith, bit_and_low (suc a) 0, bit_and-zero_upto n (suc a / 2) (omega arith))

mul_pow-suc : (m k : ℕ) → m * 2 ^ suc k ≡ 2 * (m * 2 ^ k)
mul_pow-suc m k = omega (arith, ap (λ (t : ℕ). m * t) (pow-suc 2 k))

pow_pos : (k : ℕ) → 1 ≤ 2 ^ k
pow_pos k = one-le-pow k 2 (omega arith)

-- Division and remainder by a double, from the halved number.
mod_double : (x p : ℕ) → x % (2 * p) ≡ x / 2 % p * 2 + x % 2
mod_double x p = omega (
  arith,
  div-add-mod x (2 * p),
  div-add-mod (x / 2) p,
  ap (λ (t : ℕ). p * t) (div-div-eq-div-mul x 2 p),
)

-- A mask of `d` ones keeps the remainder.
pub bit_and_ones : (d x : ℕ) → bit_and x (2 ^ d - 1) ≡ x % 2 ^ d
bit_and_ones zero x = omega (arith, bit_and-zero_upto x x (omega arith))
bit_and_ones (suc d) x = ground (
  arith,
  bit_and_low x (2 ^ suc d - 1),
  pow-suc 2 d,
  pow_pos d,
  bit_and_ones d (x / 2),
  mod_double x (2 ^ d),
)

-- A mask of `d` ones above `k` zeros keeps the digits from `k` to `k + d`.
pub bit_and_high_ones : (d k x : ℕ) → bit_and x ((2 ^ d - 1) * 2 ^ k) ≡ x / 2 ^ k % 2 ^ d * 2 ^ k
bit_and_high_ones d zero x = ground (arith, bit_and_ones d x)
bit_and_high_ones d (suc k) x = ground (
  arith,
  bit_and_low x ((2 ^ d - 1) * 2 ^ suc k),
  mul_pow-suc (2 ^ d - 1) k,
  bit_and_high_ones d k (x / 2),
  pow-suc 2 k,
  div-div-eq-div-mul x 2 (2 ^ k),
  mul_pow-suc (x / 2 ^ suc k % 2 ^ d) k,
)

pow-add : (d k : ℕ) → 2 ^ (d + k) ≡ 2 ^ d * 2 ^ k
pow-add d zero = ground arith
pow-add d (suc k) =
    ground (arith, pow-suc 2 (d + k), pow-suc 2 k, pow-add d k, mul_pow-suc (2 ^ d) k)

word_split : (k : ℕ) → k < 64 → 2 ^ suc (63 - k) * 2 ^ k ≡ 2 ^ 64
word_split k h = rw (← pow-add (suc (63 - k)) k) (ap (λ (t : ℕ). 2 ^ t) {y = 64} (omega arith))

pow_lt : (k : ℕ) → k < 64 → 2 ^ k < 2 ^ 64
pow_lt k h = grind (arith, word_split k h, pow-suc 2 (63 - k), pow_pos (63 - k), pow_pos k)

mask_value : (k : ℕ) → k < 64 → not64 (sub64 (2 ^ k) 1) ≡ (2 ^ suc (63 - k) - 1) * 2 ^ k
mask_value k h =
    rw (mul_comm (2 ^ suc (63 - k) - 1) (2 ^ k), mul-sub)
      (omega (arith, pow_lt k h, pow_pos k, word_split k h))

mask_rounds :
    (k x : ℕ) → k < 64 → x < 2 ^ 64 → bit_and x (not64 (sub64 (2 ^ k) 1)) ≡ x / 2 ^ k * 2 ^ k
mask_rounds k x h small =
    rw (mask_value k h, bit_and_high_ones (suc (63 - k)) k x)
      (ap (λ (t : ℕ). t * 2 ^ k)
        (mod-eq_of_lt ((div-lt_iff_lt-mul (pow_pos k)).1 (rw (word_split k h) small))))

-- `a` is a power of two that a 64-bit word holds.
pub record IsPow2 (a : ℕ) : Type 0 where
  pub exp : ℕ
  pub exp_lt : exp < 64
  pub value : a ≡ 2 ^ exp

pub sixteen-IsPow2 : IsPow2 16
sixteen-IsPow2 = record { exp = 4; exp_lt = omega arith; value = refl }

-- `(x + a - 1) / a * a`, the least multiple of `a` from `x` on.
unfoldable pub round_up : ℕ → ℕ → ℕ
round_up a x = (x + a - 1) / a * a

module _ {a : ℕ} (p : IsPow2 a) where
  pub IsPow2-pos : 0 < a
  IsPow2-pos = rw p.value (pow_pos p.exp)

  pub IsPow2-lt : a < 2 ^ 64
  IsPow2-lt = rw p.value (pow_lt p.exp p.exp_lt)

  -- `x & ~(a - 1)` rounds down.
  pub bit_and_mask : (x : ℕ) → x < 2 ^ 64 → bit_and x (not64 (sub64 a 1)) ≡ x / a * a
  bit_and_mask x h = rw p.value (mask_rounds p.exp x p.exp_lt h)

  -- `(x + a - 1) & ~(a - 1)` rounds up, as long as the sum fits the word.
  pub bit_and_mask_up :
      (x : ℕ) → x + a ≤ 2 ^ 64 → bit_and (sub64 (add64 x a) 1) (not64 (sub64 a 1)) ≡ round_up a x
  unfolding round_up
  bit_and_mask_up x h =
      let e : sub64 (add64 x a) 1 ≡ x + a - 1 = omega (arith, IsPow2-pos) in
      rw e (bit_and_mask (x + a - 1) (omega (arith, IsPow2-pos)))

  pub round_up_bounds : (x : ℕ) → (x ≤ round_up a x) × (round_up a x < x + a)
  unfolding round_up
  round_up_bounds x =
      omega (arith, IsPow2-pos, div-add-mod' (x + a - 1) a, mod-lt (x + a - 1) IsPow2-pos)

pub round_up-mod : (a x : ℕ) → round_up a x % a ≡ 0
unfolding round_up
round_up-mod a x = mul-mod_left ((x + a - 1) / a) a

module _ {a : ℕ} (p : IsPow2 a) where
  pub round_up_least : (x m : ℕ) → m % a ≡ 0 → x ≤ m → round_up a x ≤ m
  unfolding round_up
  round_up_least x m e h =
      let whole : m / a * a ≡ m = omega (arith, div-add-mod' m a) in
      let below : (x + a - 1) / a < m / a + 1 =
        (div-lt_iff_lt-mul (IsPow2-pos p)).1 (omega (arith, IsPow2-pos p)) in
      grind arith

pub pow_exp_le : (j k : ℕ) → 2 ^ j ≤ 2 ^ k → j ≤ k
pow_exp_le j k h = elim (dec_le j k) [
  | yes le ↦ le
  | no gt ↦
      let e : suc (j - suc k) + k ≡ j = omega arith in
      absurd (
        grind (
          arith,
          pow-add (suc (j - suc k)) k,
          ap (λ (t : ℕ). 2 ^ t) e,
          pow-suc 2 (j - suc k),
          pow_pos (j - suc k),
          pow_pos k,
        ))
]

-- A multiple of a power of two is one of every smaller power.
pub IsPow2-mod : {a b : ℕ} (p : IsPow2 a) (q : IsPow2 b) (x : ℕ) → b ≤ a → x % a ≡ 0 → x % b ≡ 0
IsPow2-mod {a} {b} p q x h m =
    let le : q.exp ≤ p.exp = pow_exp_le q.exp p.exp (rw (← q.value, ← p.value) h) in
    let split : 2 ^ (p.exp - q.exp) * b ≡ a =
      rw (q.value, p.value, ← pow-add (p.exp - q.exp) q.exp)
        (ap (λ (t : ℕ). 2 ^ t) {y = p.exp} (omega arith)) in
    let whole : x / a * 2 ^ (p.exp - q.exp) * b ≡ x = grind (arith, div-add-mod' x a) in
    rw whole at (mul-mod_left (x / a * 2 ^ (p.exp - q.exp)) b)

-- A multiple of `a` that is above another one is above it by `a` at least.
pub multiples_apart : (a x y : ℕ) → x % a ≡ 0 → y % a ≡ 0 → x < y → x + a ≤ y
multiples_apart a x y p q h =
    let e : x / a * a ≡ x = omega (arith, div-add-mod' x a) in
    let f : y / a * a ≡ y = omega (arith, div-add-mod' y a) in grind arith
