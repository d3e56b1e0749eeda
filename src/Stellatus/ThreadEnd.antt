-- ===== src/Stellatus/ThreadEnd.antt =====
-- What the end of a thread does to the arenas of include/SAllocator.hpp: its free chunks are in no
-- bin any more.
use mathlib.Core.List.{
  mem-cons_self, mem-cons_of_mem, eq-or-mem_of_mem-cons, not-mem-nil, Mem-prop, perm_middle,
}
use mathlib.Core.List.Perm
use mathlib.Core.Logic.{∥∥₁_elim}
use sallocator.Base.{
  ℕ, zero, suc, ◌+◌, ◌*◌, ◌≡◌, ◌≢◌, refl, inl, inr, true, List, [], ◌∷◌, ◌++◌, map, Mem, Perm, All,
  arith, ◌==◌, if◌then◌else◌, Bool-cases, get_elem?, replicate, some,
}
use sallocator.Os.{Kind, Region, region, Os}
use sallocator.Os.Owned.{Owns-perm}
use sallocator.Stellatus.{World, num_fast_bins, end_thread, set_arena}
use sallocator.Stellatus.Chains.{Free, in_bin, bin_chunks}
use sallocator.Stellatus.Invariant.{Block, block_region, free_region, owned, IsFree, Inv}

-- The free chunks of thread `t`, and those of the others.
abbrev pub of_thread : ℕ → List Free → List Free
of_thread t [] = []
of_thread t (f ∷ fs) = if f.thread == t then f ∷ of_thread t fs else of_thread t fs

abbrev pub without : ℕ → List Free → List Free
without t [] = []
without t (f ∷ fs) = if f.thread == t then without t fs else f ∷ without t fs

-- The regions of the free chunks of thread `t`.
abbrev pub left_behind : ℕ → List Free → List Region
left_behind t free = map free_region (of_thread t free)

bin_chunks-without :
    (t u i : ℕ) (fs : List Free) → u ≢ t → bin_chunks u i (without t fs) ≡ bin_chunks u i fs
bin_chunks-without t u i [] ne = refl
bin_chunks-without t u i (f ∷ fs) ne = ground (arith, bin_chunks-without t u i fs ne)

bin_chunks-without_own : (t i : ℕ) (fs : List Free) → bin_chunks t i (without t fs) ≡ []
bin_chunks-without_own t i [] = refl
bin_chunks-without_own t i (f ∷ fs) = ground (arith, bin_chunks-without_own t i fs)

All-without : (t : ℕ) (fs : List Free) → All IsFree fs → All IsFree (without t fs)
All-without t [] h = tt
All-without t (f ∷ fs) h = elim (Bool-cases (f.thread == t)) [
  | inl own ↦ rw own (All-without t fs h.1)
  | inr other ↦ rw other (h.0, All-without t fs h.1)
]

owned-without :
    (t : ℕ) (fs : List Free) (used : List Block) (others : List Region)
    → Perm (owned fs used others) (owned (without t fs) used (left_behind t fs ++ others))
owned-without t [] used others = Perm.refl _
owned-without t (f ∷ fs) used others = elim (Bool-cases (f.thread == t)) [
  | inl own ↦ rw own (
      Perm.trans (Perm.cons (free_region f) (owned-without t fs used others)) (
        Perm.symm (
          Perm.trans
            (Perm.append_left (map free_region (without t fs))
              (perm_middle (map block_region used) (left_behind t fs ++ others)))
            (perm_middle (map free_region (without t fs))
              (map block_region used ++ (left_behind t fs ++ others))))))
  | inr other ↦ rw other (Perm.cons (free_region f) (owned-without t fs used others))
]

pub get_elem?-replicate_inv : (n i : ℕ) {v h : ℕ} → get_elem? (replicate n v) i ≡ some h → h ≡ v
get_elem?-replicate_inv zero i e = absurd (cc e)
get_elem?-replicate_inv (suc n) zero e = ground arith
get_elem?-replicate_inv (suc n) (suc i) e = get_elem?-replicate_inv n i e

-- A chunk of a bin of thread `t` is left behind.
pub mem-left_behind :
    (t i c : ℕ) (fs : List Free)
    → Mem c (bin_chunks t i fs)
    → Mem (region Kind.heap c (16 * (i + 2))) (left_behind t fs)
mem-left_behind t i c [] m = absurd (not-mem-nil m)
mem-left_behind t i c (f ∷ fs) m = elim (Bool-cases (in_bin t i f)) [
  | inl hit ↦
      let own : (f.thread == t) ≡ true = ground arith in
      let bin : f.bin ≡ i = ground arith in
      let k : Mem c (f.chunk ∷ bin_chunks t i fs) = rw hit at m in
      rw own (
        ∥∥₁_elim (eq-or-mem_of_mem-cons k) Mem-prop (λ h. elim h [
          | inl same ↦ rw (same, ← bin) mem-cons_self
          | inr later ↦ mem-cons_of_mem (free_region f) (mem-left_behind t i c fs later)
        ]))
  | inr miss ↦
      let k : Mem c (bin_chunks t i fs) = rw miss at m in
      let later = mem-left_behind t i c fs k in
      elim (Bool-cases (f.thread == t)) [
        | inl own ↦ rw own (mem-cons_of_mem (free_region f) later)
        | inr other ↦ rw other later
      ]
]

pub Inv-end_thread :
    {o : Os} {w : World o} {free : List Free} {used : List Block} {others : List Region} (t : ℕ)
    → Inv o w free used others
    → Inv o (end_thread t w) (without t free) used (left_behind t free ++ others)
unfolding end_thread set_arena
Inv-end_thread {w} {free} {used} {others} t v = record {
  bins =
      λ u. elim (Bool-cases (u == t)) [ inl own ↦ rw own refl | inr other ↦ rw other (v.bins u) ];
  chains = λ u i head e. elim (Bool-cases (u == t)) [
    | inl own ↦
        let same : u ≡ t = ground arith in
        rw (same, bin_chunks-without_own t i free)
          (get_elem?-replicate_inv num_fast_bins i (rw own at e))
    | inr other ↦
        rw (bin_chunks-without t u i free (ground arith)) (v.chains u i head (rw other at e))
  ];
  owns = Owns-perm (owned-without t free used others) v.owns;
  blocks = v.blocks;
  frees = All-without t free v.frees;
}
