-- ===== src/MemoryPoolConfig/Classes.antt =====
-- What the size classes of include/JAllocatorImpl/MemoryPoolConfig.hpp waste.
use sallocator.Base.{
  ℕ, ◌*◌, ◌≤◌, ◌<◌, ◌≡◌, refl, Bool, true, false, ◌&&◌, List, [], ◌∷◌, Mem, leb, Bool-cases, inl,
  inr, arith, if◌then◌else◌,
}
use mathlib.Core.List.{mem-cons_self, mem-cons_of_mem}
use sallocator.MemoryPoolConfig.{MemConfig, mem_pool_config, page_byte_size}

-- From `last` on, no class is above twice the one before it, up to the first one of `top` bytes.
abbrev reaches : (top last : ℕ) → List MemConfig → Bool
reaches top last [] = leb top last
reaches top last (c ∷ cs) =
    let rest = reaches top c.size cs in if leb top last then true else leb c.size (2 * last) && rest

both-true : (a b : Bool) → (a && b) ≡ true → (a ≡ true) × (b ≡ true)
both-true true b h = (refl, h)
both-true false b h = absurd (ground arith)

reaches-class :
    (top last : ℕ) (cs : List MemConfig) (x : ℕ)
    → reaches top last cs ≡ true
    → last < x
    → x ≤ top
    → (c : MemConfig) × Mem c cs × (x ≤ c.size) × (c.size < 2 * x)
reaches-class top last [] x h low high = absurd (ground arith)
reaches-class top last (c ∷ cs) x h low high = elim (Bool-cases (leb top last)) [
  | inl there ↦ absurd (ground arith)
  | inr here ↦
      let both : (leb c.size (2 * last) && reaches top c.size cs) ≡ true = rw here at h in
      let (near, rest) = both-true (leb c.size (2 * last)) (reaches top c.size cs) both in
      elim (Bool-cases (leb x c.size)) [
        | inl fits ↦ (c, mem-cons_self, ground arith, ground arith)
        | inr small ↦
            let (d, m, le, lt) = reaches-class top c.size cs x rest (ground arith) high in
            (d, mem-cons_of_mem c m, le, lt)
      ]
]

-- Each size from 1 byte to 276 pages of 4096 bytes has a class in the table that holds it and is
-- less than twice as large.
pub size_class_bounds :
    (x : ℕ)
    → 1 ≤ x
    → x ≤ 276 * page_byte_size
    → (c : MemConfig) × Mem c mem_pool_config × (x ≤ c.size) × (c.size < 2 * x)
size_class_bounds x low high = elim (Bool-cases (leb x 1)) [
  | inl one ↦ (_, mem-cons_self, ground arith, ground arith)
  | inr more ↦ reaches-class (276 * page_byte_size) 1 mem_pool_config x refl (ground arith) high
]
