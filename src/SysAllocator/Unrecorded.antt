-- ===== src/SysAllocator/Unrecorded.antt =====
-- What a sequence of calls of `SysAllocator::Malloc` of MemoryPool/include/Allocator.hpp returns, and
-- what the detector has of it.
use mathlib.Core.List.{mem-cons_self, mem-cons_of_mem}
use sallocator.Base.{
  ℕ, ◌+◌, ◌*◌, ◌≤◌, ◌<◌, ◌≡◌, ◌≢◌, inl, inr, Option, none, some, List, [], ◌∷◌, Mem, All, arith,
  length,
}
use sallocator.Os.{Kind, Region, region, ApartFrom}
use sallocator.SysAllocator.{
  Pool, IsLawful, PerThreadMallocData, MemDatas, lookup, add_new, try_emplace, register, World, Ran,
  returns, bad_alloc, sys_malloc,
}
use sallocator.SysAllocator.Malloc.{AllocatesTwice, sys_malloc-AllocatesTwice}

-- The arguments of a call, the thread that makes it and the time.
pub record Request : Type 0 where
  pub tid : ℕ
  pub time : ℕ
  pub bytes : ℕ
  pub alignment : ℕ

-- The calls one after the other. A pointer that is returned is added to the list.
unfoldable pub run : {pool : Pool} → List Request → List ℕ → World pool → List ℕ × World pool
run [] ps w = (ps, w)
run (q ∷ qs) ps w = elim (sys_malloc q.tid q.time q.bytes q.alignment w) [
  | returns p w' ↦ run qs (p ∷ ps) w'
  | bad_alloc w' ↦ run qs ps w'
]

abbrev pub IsPositive : Request → Type 0
IsPositive q = 0 < q.bytes

-- The block of the record is allocated, and no pointer of the list is its pointer.
abbrev pub IsLost : List Region → List ℕ → ℕ × PerThreadMallocData → Type 0
IsLost live ps e = Mem (region Kind.heap e.1.ptr e.1.size) live × All (λ p. e.1.ptr ≢ p) ps

abbrev IsLive : List Region → ℕ → Type 0
IsLive live p = (n : ℕ) × Mem (region Kind.heap p n) live

record IsUnrecorded (live : List Region) (datas : MemDatas) (ps : List ℕ) : Type 0 where
  pub lost : All (IsLost live ps) datas
  pub held : All (IsLive live) ps

All-IsLive :
    (r : Region) (live : List Region) (ps : List ℕ)
    → All (IsLive live) ps
    → All (IsLive (r ∷ live)) ps
All-IsLive r live [] h = tt
All-IsLive r live (p ∷ ps) ((n, m), h) = ((n, mem-cons_of_mem r m), All-IsLive r live ps h)

All-IsLost :
    (r : Region) (live : List Region) (ps : List ℕ) (datas : MemDatas)
    → All (IsLost live ps) datas
    → All (IsLost (r ∷ live) ps) datas
All-IsLost r live ps [] h = tt
All-IsLost r live ps (e ∷ datas) ((m, ne), h) =
    ((mem-cons_of_mem r m, ne), All-IsLost r live ps datas h)

-- A block of its own is that of no pointer of the list.
fresh :
    (q n : ℕ) (live : List Region) (ps : List ℕ)
    → ApartFrom (region Kind.heap q n) live
    → All (IsLive live) ps
    → All (λ p. q ≢ p) ps
fresh q n live [] apart h = tt
fresh q n live (p ∷ ps) apart ((k, m), h) =
    (ground (arith, apart (region Kind.heap p k) m), fresh q n live ps apart h)

-- Nor is it that of a record.
returned-IsLost :
    (p n : ℕ) (live : List Region) (ps : List ℕ) (datas : MemDatas)
    → ApartFrom (region Kind.heap p n) live
    → All (IsLost live ps) datas
    → All (IsLost live (p ∷ ps)) datas
returned-IsLost p n live ps [] apart h = tt
returned-IsLost p n live ps (e ∷ datas) apart ((m, ne), h) = (
  (m, (ground (arith, apart (region Kind.heap e.1.ptr e.1.size) m), ne)),
  returned-IsLost p n live ps datas apart h,
)

All-register :
    (P : ℕ × PerThreadMallocData → Type 0) (tid ptr size align time : ℕ) (datas : MemDatas)
    → P (tid, record { tid = tid; ptr = ptr; size = size; align = align; time = time })
    → All P datas
    → All P (register tid ptr size align time datas)
unfolding register try_emplace
All-register P tid ptr size align time datas new h = go (lookup tid datas)
  where
    go :
        (found : Option PerThreadMallocData)
        → All P (
            add_new found tid
              (record { tid = tid; ptr = ptr; size = size; align = align; time = time })
              datas)
    go none = (new, h)
    go (some d) = h

-- The first block of a call.
noted-IsUnrecorded :
    (r : Request) (q : ℕ) (live : List Region) (datas : MemDatas) (ps : List ℕ)
    → ApartFrom (region Kind.heap q r.bytes) live
    → IsUnrecorded live datas ps
    → IsUnrecorded
        (region Kind.heap q r.bytes ∷ live)
        (register r.tid q r.bytes r.alignment r.time datas)
        ps
noted-IsUnrecorded r q live datas ps apart v =
    let block = region Kind.heap q r.bytes in
    record {
      lost =
          All-register (IsLost (block ∷ live) ps) r.tid q r.bytes r.alignment r.time datas
            (mem-cons_self, fresh q r.bytes live ps apart v.held)
            (All-IsLost block live ps datas v.lost);
      held = All-IsLive block live ps v.held;
    }

-- The second, which is returned.
given-IsUnrecorded :
    (p n : ℕ) (live : List Region) (datas : MemDatas) (ps : List ℕ)
    → ApartFrom (region Kind.heap p n) live
    → IsUnrecorded live datas ps
    → IsUnrecorded (region Kind.heap p n ∷ live) datas (p ∷ ps)
given-IsUnrecorded p n live datas ps apart v =
    let block = region Kind.heap p n in
    record {
      lost = All-IsLost block live (p ∷ ps) datas (returned-IsLost p n live ps datas apart v.lost);
      held = ((n, mem-cons_self), All-IsLive block live ps v.held);
    }

module _ {pool : Pool} where
  abbrev IsUnrecordedIn : List ℕ → World pool → Type 0
  IsUnrecordedIn ps w = IsUnrecorded (pool.live w.pool_state) w.mem_datas ps

  -- From `ps` and `w` the calls go on to that.
  abbrev Goes : List ℕ → World pool → List ℕ × World pool → Type 0
  Goes ps w (ps', w') =
      IsUnrecordedIn ps' w'
      × (length (pool.live w.pool_state) + 2 * length ps'
          ≤ length (pool.live w'.pool_state) + 2 * length ps)

  run-Goes :
      IsLawful pool
      → (qs : List Request) (ps : List ℕ) (w : World pool) → All IsPositive qs
      → IsUnrecordedIn ps w
      → Goes ps w (run qs ps w)
  unfolding run
  run-Goes law [] ps w pos v = (v, omega arith)
  run-Goes law (q ∷ qs) ps w pos v =
      go (sys_malloc q.tid q.time q.bytes q.alignment w) (λ ps' w'. run-Goes law qs ps' w' pos.1)
        (sys_malloc-AllocatesTwice law q.tid q.time q.bytes q.alignment w pos.0)
    where
      go :
          (r : Ran (World pool))
          → ((ps' : List ℕ) (w' : World pool) → IsUnrecordedIn ps' w' → Goes ps' w' (run qs ps' w'))
          → AllocatesTwice q.tid q.time q.bytes q.alignment w r
          → Goes ps w (elim r [ returns p w' ↦ run qs (p ∷ ps) w' | bad_alloc w' ↦ run qs ps w' ])
      go (returns p w') rest (k, added, apart, alone, noted) =
          let first = noted-IsUnrecorded q k (pool.live w.pool_state) w.mem_datas ps alone v in
          let (v', count) =
            rest (p ∷ ps) w'
              (rw (added, noted) (given-IsUnrecorded p q.bytes _ _ ps apart first)) in
          (v', omega (arith, count, rw added at count))
      go (bad_alloc w') rest (inl (same, datas)) =
          let (v', count) = rest ps w' (rw (same, datas) v) in (v', omega (arith, rw same at count))
      go (bad_alloc w') rest (inr (k, added, alone, noted)) =
          let first = noted-IsUnrecorded q k (pool.live w.pool_state) w.mem_datas ps alone v in
          let (v', count) = rest ps w' (rw (added, noted) first) in
          (v', omega (arith, rw added at count))

-- After any sequence of calls of SysAllocator::Malloc of sizes that are not 0, by any threads and
-- from an empty map of records on, each block that has a record is still allocated and is none of
-- those whose pointers were returned: no block that a client holds has a record, and at least as
-- many blocks as were returned are lost.
pub run-unrecorded :
    {pool : Pool}
    → IsLawful pool
    → (qs : List Request) (w : World pool) → All IsPositive qs
    → w.mem_datas ≡ []
    → let (ps, w') = run qs [] w in
      All (IsLost (pool.live w'.pool_state) ps) w'.mem_datas
      × (length (pool.live w.pool_state) + 2 * length ps ≤ length (pool.live w'.pool_state))
run-unrecorded law qs w pos empty =
    let (v, count) = run-Goes law qs [] w pos (record { lost = rw empty tt; held = tt }) in
    (v.lost, omega (arith, count))
