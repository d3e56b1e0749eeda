-- ===== src/Os/Blocks.antt =====
-- The blocks that the clients of an allocator hold.
use sallocator.Base.{ℕ, ◌+◌, ◌≤◌, ◌⊎◌, List, [], ◌∷◌, All}

-- The pointer that was returned, and the size that was asked for.
pub record Block : Type 0 where
  pub ptr : ℕ
  pub size : ℕ

abbrev pub block : ℕ → ℕ → Block
block p n = record { ptr = p; size = n }

-- The bytes of two blocks, as the clients use them, do not overlap.
abbrev pub NoOverlap : Block → Block → Type 0
NoOverlap b c = (b.ptr + b.size ≤ c.ptr) ⊎ (c.ptr + c.size ≤ b.ptr)

abbrev pub Separate : List Block → Type 0
Separate [] = Unit
Separate (b ∷ bs) = All (NoOverlap b) bs × Separate bs
