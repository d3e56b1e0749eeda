-- ===== src/SysAllocator/Tests.antt =====
-- Runs of MemoryPool/include/Allocator.hpp on a resource with rising addresses, and the theorems at
-- these inputs.
use sallocator.Base.{
  ℕ, ◌≡◌, Option, none, some, List, [], if◌then◌else◌, arith, ◌==◌, true, false, inl, inr, ◌+◌, ◌*◌,
  ◌≤◌, ◌%◌, ◌<◌, ◌∷◌, All, Bytes, concat, map, length, refl,
}
use sallocator.Bits.{round_up}
use sallocator.Os.{Region}
use sallocator.Os.Bump.{bump, bump-IsLawful, grant}
use sallocator.SysAllocator.Report.{
  IsWords, print, registered, format_one, buffer_size, print-registered,
}
use sallocator.SysAllocator.{
  PerThreadMallocData, try_emplace, Pool, IsLawful, MemDatas, lookup, register, World, sys_malloc,
}
use sallocator.SysAllocator.Malloc.{lookup-register}
use sallocator.SysAllocator.Unrecorded.{Request, run, IsLost, run-unrecorded}

-- The pointer of `malloc`, if it is not null.
abbrev found : ℕ × List Region → Option ℕ × List Region
found (p, s) = if p == 0 then (none, s) else (some p, s)

-- A resource on the blocks of `bump`, without pools.
abbrev plain : Pool
plain = record {
  State = List Region;
  live = λ s. s;
  allocate = λ bytes alignment s. found (bump.malloc bytes s);
  deallocate = λ ptr bytes alignment s. bump.free ptr s;
  malloc = bump.malloc;
}

plain-IsLawful : IsLawful plain
plain-IsLawful bytes alignment s pos = elim (bump-IsLawful.malloc_law bytes s pos) [
  | inl g ↦
      let failed : ((bump.malloc bytes s).0 == 0) ≡ true = ground (arith, g.fails) in
      rw failed g.same
  | inr g ↦
      let live : ((bump.malloc bytes s).0 == 0) ≡ false = ground (arith, g.succeeds) in
      rw live (g.added, g.apart)
]

abbrev world : World plain
world = record { pool_state = []; mem_datas = [] }

-- Two calls of thread 3 and one of thread 4.
abbrev requests : List Request
requests =
    record { tid = 3; time = 5; bytes = 100; alignment = 32 }
    ∷ record { tid = 3; time = 6; bytes = 8; alignment = 32 }
    ∷ record { tid = 4; time = 7; bytes = 20; alignment = 32 }
    ∷ []

run-unrecorded_example :
    All
      (IsLost (plain.live (run requests [] world).1.pool_state) (run requests [] world).0)
      (run requests [] world).1.mem_datas
    × (length (plain.live []) + 2 * length (run requests [] world).0
        ≤ length (plain.live (run requests [] world).1.pool_state))
run-unrecorded_example =
    run-unrecorded plain-IsLawful requests world (omega arith, (omega arith, (omega arith, tt)))
      refl

three_pointers : length (run requests [] world).0 ≡ 3
unfolding run sys_malloc register try_emplace lookup grant round_up
three_pointers = refl

abbrev datas : MemDatas
datas = register 3 32 100 32 5 []

lookup-register_example : lookup 3 (register 3 64 8 32 6 datas) ≡ elim (lookup 3 datas) [
  | some d ↦ some d
  | none ↦
      if 3 == 3 then some (record { tid = 3; ptr = 64; size = 8; align = 32; time = 6 }) else none
]
lookup-register_example = lookup-register 3 64 8 32 6 3 datas

-- The last decimal digit.
abbrev last_digit : ℕ → Bytes
last_digit n = (48 + n % 10) ∷ []

abbrev data_of_3 : PerThreadMallocData
data_of_3 = record { tid = 3; ptr = 64; size = 8; align = 32; time = 6 }

data_of_3-IsWords : IsWords data_of_3
data_of_3-IsWords = record {
  tid = omega arith;
  ptr = omega arith;
  size = omega arith;
  align = omega arith;
  time = omega arith;
}

abbrev twice : List PerThreadMallocData
twice = record data_of_3 { size = 16 } ∷ data_of_3 ∷ []

print-registered_example :
    (print last_digit (registered (data_of_3 ∷ [])) ≡ (
      concat (map (λ e. format_one last_digit e.1) (registered (data_of_3 ∷ []))),
      registered (data_of_3 ∷ []),
    ))
    × All (λ e. length (format_one last_digit e.1) < buffer_size) (registered (data_of_3 ∷ []))
print-registered_example =
    print-registered last_digit (data_of_3 ∷ []) (λ n lt. omega arith) (data_of_3-IsWords, tt)

-- The second call of a thread changes nothing.
kept_first : registered twice ≡ registered (data_of_3 ∷ [])
unfolding registered register try_emplace lookup
kept_first = refl
