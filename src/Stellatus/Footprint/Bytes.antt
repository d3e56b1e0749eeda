-- ===== src/Stellatus/Footprint/Bytes.antt =====
-- The bytes that the arena of include/SAllocator.hpp has from the system, by classes.
use mathlib.Core.Path.{ap₂}
use mathlib.Core.Logic.{∥∥₁_elim}
use mathlib.Core.List.{Permᴰ}
use native.Mathlib.Nat.{add-mul, ℕ_set}
use sallocator.Base.{
  ℕ, zero, suc, ◌+◌, ◌*◌, ◌≤◌, ◌<◌, ◌≡◌, refl, sym, ◌∙◌, inl, inr, List, [], ◌∷◌, ◌++◌, All, Perm,
  map, arith, leb, ◌==◌, if◌then◌else◌, Bool-cases, false,
}
use sallocator.Os.{Region, Os}
use sallocator.Stellatus.{World, max_fast_size, num_fast_bins, size_to_index}
use sallocator.Stellatus.Sizes.{total_size_of_index, size_to_index_bounds}
use sallocator.Stellatus.Chains.{Free}
use sallocator.Stellatus.Invariant.{Block, IsBlock, IsFree, block_region, free_region, Inv}
use sallocator.Stellatus.Footprint.{used_of, free_of, large_bytes, total, class_bytes}

total-append : (xs ys : List Region) → total (xs ++ ys) ≡ total xs + total ys
total-append [] ys = omega arith
total-append (x ∷ xs) ys = omega (arith, total-append xs ys)

total-Permᴰ : {xs ys : List Region} → Permᴰ xs ys → total xs ≡ total ys
total-Permᴰ Permᴰ.nil = refl
total-Permᴰ (Permᴰ.cons e p) = ap₂ (λ r n. r.size + n) e (total-Permᴰ p)
total-Permᴰ (Permᴰ.swap {l = l} d e) = rw (d, e) (omega arith)
total-Permᴰ (Permᴰ.trans p q) = total-Permᴰ p ∙ total-Permᴰ q

total-Perm : {xs ys : List Region} → Perm xs ys → total xs ≡ total ys
total-Perm {xs} {ys} p = ∥∥₁_elim p (ℕ_set (total xs) (total ys)) total-Permᴰ

pub class_bytes-ext :
    (n : ℕ) (f g : ℕ → ℕ) → ((i : ℕ) → f i ≡ g i) → class_bytes n f ≡ class_bytes n g
class_bytes-ext zero f g h = refl
class_bytes-ext (suc n) f g h = rw (h n, class_bytes-ext n f g h) refl

class_bytes-add :
    (n : ℕ) (f g : ℕ → ℕ) → class_bytes n (λ i. f i + g i) ≡ class_bytes n f + class_bytes n g
class_bytes-add zero f g = omega arith
class_bytes-add (suc n) f g =
    omega (arith, class_bytes-add n f g, add-mul (f n) (g n) (16 * (n + 2)))

-- One chunk of class `j`.
class_bytes-above : (n j : ℕ) → n ≤ j → class_bytes n (λ i. if j == i then 1 else 0) ≡ 0
class_bytes-above zero j h = refl
class_bytes-above (suc n) j h =
    let other : (j == n) ≡ false = ground (arith, h) in
    rw (other, class_bytes-above n j (omega (arith, h))) (omega arith)

class_bytes-one : (n j : ℕ) → j < n → class_bytes n (λ i. if j == i then 1 else 0) ≡ 16 * (j + 2)
class_bytes-one zero j h = absurd (omega (arith, h))
class_bytes-one (suc n) j h = elim (Bool-cases (j == n)) [
  | inl last ↦
      let e : j ≡ n = ground arith in
      rw (last, class_bytes-above n j (omega (arith, e)), e) (omega arith)
  | inr before ↦ rw (before, class_bytes-one n j (ground (arith, h))) (omega arith)
]

class_bytes-none : (n : ℕ) → class_bytes n (λ i. 0) ≡ 0
class_bytes-none zero = refl
class_bytes-none (suc n) = rw (class_bytes-none n) (omega arith)

total-free :
    (free : List Free)
    → All IsFree free
    → total (map free_region free) ≡ class_bytes num_fast_bins (λ i. free_of i free)
total-free [] h = sym (class_bytes-none num_fast_bins)
total-free (f ∷ fs) (ok, h) =
    rw
      (
        class_bytes-add num_fast_bins (λ i. if f.bin == i then 1 else 0) (λ i. free_of i fs),
        class_bytes-one num_fast_bins f.bin ok.bin_lt,
        total-free fs h,
      )
      refl

total-used :
    (used : List Block)
    → All IsBlock used
    → total (map block_region used)
      ≡ class_bytes num_fast_bins (λ i. used_of i used) + large_bytes used
total-used [] h = rw (class_bytes-none num_fast_bins) refl
total-used (b ∷ bs) (ok, h) = elim (Bool-cases (leb b.size max_fast_size)) [
  | inl small ↦
      let idx = size_to_index b.size in
      let le : b.size ≤ max_fast_size = ground arith in
      rw (small, class_bytes-add num_fast_bins (λ i. if idx == i then 1 else 0) (λ i. used_of i bs))
        (omega (
          arith,
          class_bytes-one num_fast_bins idx (size_to_index_bounds b.size ok.size_pos le).0,
          total_size_of_index b.size ok.size_pos le,
          total-used bs h,
        ))
  | inr large ↦
      rw
        (
          large,
          class_bytes-ext num_fast_bins (λ i. 0 + used_of i bs) (λ i. used_of i bs)
              (λ i. omega arith),
        )
        (omega (arith, total-used bs h))
]

-- What the system has given, by its owners.
pub Inv-total :
    {o : Os} {w : World o} {free : List Free} {used : List Block} {others : List Region}
    → Inv o w free used others
    → total (o.live w.os)
      ≡ class_bytes num_fast_bins (λ i. free_of i free + used_of i used)
        + large_bytes used
        + total others
Inv-total {o} {w} {free} {used} {others} v =
    rw (class_bytes-add num_fast_bins (λ i. free_of i free) (λ i. used_of i used)) (
      omega (
        arith,
        total-Perm v.owns.same,
        total-append (map free_region free) (map block_region used ++ others),
        total-append (map block_region used) others,
        total-free free v.frees,
        total-used used v.blocks,
      ))
