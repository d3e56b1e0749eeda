-- ===== src/JAllocator/Nodes.antt =====
-- The nodes of include/JAllocatorImpl/Block.hpp: what the constructors take from the C library, the
-- destructors give back.
use mathlib.Core.List.Perm
use sallocator.Base.{ℕ, ◌≡◌, ◌⊎◌, Bool, true, List, [], ◌∷◌, Perm, All, ◌==◌, if◌then◌else◌}
use sallocator.Os.{Kind, Region, region, Os}
use sallocator.JAllocator.{MemNode, ResetPtr, new_mem_node, delete_mem_node, mem_node_lt}

-- `ResetPtr` keeps the block of the node and what is allocated.
abbrev pub KeepsBlock : (o : Os) → ResetPtr o → Type 0
KeepsBlock o reset_ptr =
    (n : MemNode) (s : o.State)
    → ((reset_ptr n s).0.mem ≡ n.mem) × (o.live (reset_ptr n s).1 ≡ o.live s)

module _ (o : Os) (mem_size : ℕ) (reset_ptr : ResetPtr o) where
  -- One node after the other, for the identifiers and the unset flags of the list.
  unfoldable pub new_nodes : List (ℕ × Bool) → List MemNode → o.State → List MemNode × o.State
  new_nodes [] ns s = (ns, s)
  new_nodes ((id, unset) ∷ ids) ns s =
      let (n, s') = new_mem_node o mem_size reset_ptr id unset s in new_nodes ids (n ∷ ns) s'

  unfoldable pub delete_nodes : List MemNode → o.State → o.State
  delete_nodes [] s = s
  delete_nodes (n ∷ ns) s = delete_nodes ns (delete_mem_node o mem_size n s)

  -- The blocks of the nodes. A node whose malloc failed has none.
  abbrev blocks_of : List MemNode → List Region
  blocks_of [] = []
  blocks_of (n ∷ ns) =
      if n.mem == 0 then blocks_of ns else region Kind.heap n.mem mem_size ∷ blocks_of ns

  -- `operator<` orders the two nodes, unless one has no block.
  abbrev pub AreOrdered : MemNode → MemNode → Type 0
  AreOrdered n m =
      ((n.mem ≡ 0) ⊎ (m.mem ≡ 0)) ⊎ ((mem_node_lt n m ≡ true) ⊎ (mem_node_lt m n ≡ true))

  abbrev pub Ordered : List MemNode → Type 0
  Ordered [] = Unit
  Ordered (n ∷ ns) = All (AreOrdered n) ns × Ordered ns
