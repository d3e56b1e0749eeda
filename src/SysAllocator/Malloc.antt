-- ===== src/SysAllocator/Malloc.antt =====
-- What `SysAllocator::Malloc` of MemoryPool/include/Allocator.hpp allocates and registers.
use sallocator.Base.{
  ℕ, ◌<◌, ◌≡◌, ◌≢◌, ◌⊎◌, refl, ap, sym, ◌∙◌, inl, inr, Option, none, some, ◌∷◌, ◌==◌, if◌then◌else◌,
  arith, Bool-cases,
}
use sallocator.Os.{Kind, region, ApartFrom}
use sallocator.SysAllocator.{
  Pool, IsLawful, Allocates, PerThreadMallocData, MemDatas, lookup, try_emplace, register, World,
  Ran, returns, bad_alloc, give, note, sys_malloc,
}

Option-cases :
    (o : Option PerThreadMallocData) → (o ≡ none) ⊎ ((d : PerThreadMallocData) × (o ≡ some d))
Option-cases none = inl refl
Option-cases (some d) = inr (d, refl)

none_not_some : {d : PerThreadMallocData} → none ≢ some d
none_not_some e = cc e

-- Register adds a record for a thread that has none, and changes the record of no thread: only the
-- first allocation of a thread is kept.
pub lookup-register :
    (tid ptr size align time other : ℕ) (datas : MemDatas)
    → lookup other (register tid ptr size align time datas) ≡ elim (lookup other datas) [
      | some d ↦ some d
      | none ↦
          if tid == other
          then some (record { tid = tid; ptr = ptr; size = size; align = align; time = time })
          else none
    ]
unfolding lookup register try_emplace
lookup-register tid ptr size align time other datas = elim (Option-cases (lookup tid datas)) [
  | inl new ↦ elim (Bool-cases (tid == other)) [
    | inl same ↦
        let e : tid ≡ other = ground arith in
        let missing : lookup other datas ≡ none = rw (← e) new in rw (new, missing, same) refl
    | inr apart ↦
        rw (new, apart)
          (elim (Option-cases (lookup other datas)) [
            | inl missing ↦ rw (missing, apart) refl
            | inr (d, there) ↦ rw there refl
          ])
  ]
  | inr (f, old) ↦ rw old (elim (Option-cases (lookup other datas)) [
    | inr (d, there) ↦ rw there refl
    | inl missing ↦ elim (Bool-cases (tid == other)) [
      | inl same ↦
          let e : tid ≡ other = ground arith in
          let there : lookup other datas ≡ some f = rw (← e) old in
          absurd (none_not_some (sym missing ∙ there))
      | inr apart ↦ rw (missing, apart) refl
    ]
  ])
]

-- What a call leaves behind: two blocks where it returns, of which the first is registered if the
-- thread has no record yet.
abbrev pub AllocatesTwice :
    {pool : Pool} → (tid time bytes alignment : ℕ) → World pool → Ran (World pool) → Type 0
AllocatesTwice {pool} tid time bytes alignment w (returns p w') =
    (q : ℕ) × (pool.live w'.pool_state
      ≡ region Kind.heap p bytes ∷ region Kind.heap q bytes ∷ pool.live w.pool_state)
    × ApartFrom (region Kind.heap p bytes) (region Kind.heap q bytes ∷ pool.live w.pool_state)
    × ApartFrom (region Kind.heap q bytes) (pool.live w.pool_state)
    × (w'.mem_datas ≡ register tid q bytes alignment time w.mem_datas)
AllocatesTwice {pool} tid time bytes alignment w (bad_alloc w') =
    ((pool.live w'.pool_state ≡ pool.live w.pool_state) × (w'.mem_datas ≡ w.mem_datas))
    ⊎ ((q : ℕ) × (pool.live w'.pool_state ≡ region Kind.heap q bytes ∷ pool.live w.pool_state)
        × ApartFrom (region Kind.heap q bytes) (pool.live w.pool_state)
        × (w'.mem_datas ≡ register tid q bytes alignment time w.mem_datas))

given :
    {pool : Pool} (tid time bytes alignment q : ℕ) (w w' : World pool) (r : Option ℕ × pool.State)
    → pool.live w'.pool_state ≡ region Kind.heap q bytes ∷ pool.live w.pool_state
    → ApartFrom (region Kind.heap q bytes) (pool.live w.pool_state)
    → w'.mem_datas ≡ register tid q bytes alignment time w.mem_datas
    → Allocates pool bytes w'.pool_state r
    → AllocatesTwice tid time bytes alignment w (give w' r)
given tid time bytes alignment q w w' (none, s) first alone noted same =
    inr (q, same ∙ first, alone, noted)
given {pool} tid time bytes alignment q w w' (some p, s) first alone noted (added, apart) =
    (q, added ∙ ap (◌∷◌ (region Kind.heap p bytes)) first, rw first at apart, alone, noted)

noted :
    {pool : Pool} (tid time bytes alignment : ℕ) (w : World pool) (r : Option ℕ × pool.State)
    → IsLawful pool
    → 0 < bytes
    → Allocates pool bytes w.pool_state r
    → AllocatesTwice tid time bytes alignment w (note tid time bytes alignment w r)
noted tid time bytes alignment w (none, s) law pos same = inl (same, refl)
noted {pool} tid time bytes alignment w (some q, s) law pos (added, apart) =
    given tid time bytes alignment q w
      (record { pool_state = s; mem_datas = register tid q bytes alignment time w.mem_datas })
      (pool.allocate bytes alignment s) added apart refl (law bytes alignment s pos)

-- SysAllocator::Malloc of a size that is not 0, if it returns, leaves two new blocks of the size,
-- registers the first and returns the second; if it throws, it leaves at most the first.
pub sys_malloc-AllocatesTwice :
    {pool : Pool}
    → IsLawful pool
    → (tid time bytes alignment : ℕ) (w : World pool) → 0 < bytes
    → AllocatesTwice tid time bytes alignment w (sys_malloc tid time bytes alignment w)
unfolding sys_malloc
sys_malloc-AllocatesTwice {pool} law tid time bytes alignment w pos =
    noted tid time bytes alignment w _ law pos (law bytes alignment w.pool_state pos)
