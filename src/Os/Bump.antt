-- ===== src/Os/Bump.antt =====
-- An instance of the interface, which shows that its laws can hold together: a block is put above
-- all that are allocated, until the address space is full.
use Prim.Native.Nat.{max}
use native.Mathlib.Bridge.{le_prop}
use native.Mathlib.Decide.{ℕ_discrete}
use mathlib.Core.Logic.Or
use mathlib.Core.Logic.{if_pos, if_neg}
use mathlib.Core.List.{filter, mem-cons, not-mem-nil, mem-cons_self, mem-cons_of_mem}
use mathlib.Core.List.Perm
use sallocator.Base.{
  ℕ, suc, ◌+◌, ◌^◌, ◌≤◌, ◌<◌, ◌≡◌, refl, ◌≢◌, ◌⊎◌, ap, ◌∙◌, inl, inr, List, [], ◌∷◌, Mem, Perm,
  arith, ltb, if◌then◌else◌, Bool-cases,
}
use sallocator.Bits.{IsPow2, round_up, round_up_bounds, round_up-mod}
use sallocator.Os.{Kind, Region, region, Os, IsLawful, Grants, Releases, map_failed}

unfoldable pub top : List Region → ℕ
top [] = 0
top (r ∷ rs) = max (r.base + r.size) (top rs)

le_top : (q : Region) (rs : List Region) → Mem q rs → q.base + q.size ≤ top rs
unfolding top
le_top q [] m = absurd (not-mem-nil m)
le_top q (r ∷ rs) m =
    Or.elim le_prop (mem-cons.0 m) (λ e. rw e (omega arith)) (λ k. omega (arith, le_top q rs k))

unfoldable pub grant : ℕ → Kind → ℕ → ℕ → List Region → ℕ × List Region
unfolding top round_up
grant fail k a n rs =
    let p = round_up a (suc (top rs)) in
    if ltb (p + n) (2 ^ 64) then (p, region k p n ∷ rs) else (fail, rs)

unfoldable pub base_ne : (p : ℕ) (r : Region) → Dec (r.base ≢ p)
unfolding ℕ_discrete
base_ne p r = elim (ℕ_discrete r.base p) [ yes e ↦ no (λ n. n e) | no n ↦ yes n ]

unfoldable pub release : ℕ → List Region → List Region
unfolding base_ne
release p rs = filter (base_ne p) rs

release_none :
    (p : ℕ) (rs : List Region) → ((q : Region) → Mem q rs → q.base ≢ p) → release p rs ≡ rs
unfolding release
release_none p [] h = refl
release_none p (r ∷ rs) h =
    rw (if_pos (base_ne p r) (h r (mem-cons_self)))
      (ap (◌∷◌ r) (release_none p rs (λ q m. h q (mem-cons_of_mem r m))))

release_first :
    (k : Kind) (p n : ℕ) (rs : List Region) → release p (region k p n ∷ rs) ≡ release p rs
unfolding release
release_first k p n rs = rw (if_neg (base_ne p (region k p n)) (λ f. f refl))

abbrev pub bump : Os
bump = record {
  State = List Region;
  live = λ rs. rs;
  page_size = 4096;
  granularity = 65536;
  last_error = λ s. 12;
  malloc = λ n rs. grant 0 Kind.heap 16 n rs;
  free = release;
  aligned_alloc = λ a n rs. grant 0 Kind.heap a n rs;
  aligned_malloc = λ n a rs. grant 0 Kind.aligned a n rs;
  aligned_free = release;
  mmap = λ huge n rs. grant map_failed Kind.pages 4096 n rs;
  munmap = λ p n rs. release p rs;
  virtual_alloc = λ large n rs. grant 0 Kind.pages 65536 n rs;
  virtual_free = release;
}

grant-Grants :
    (fail : ℕ) (k : Kind) {a : ℕ} (n : ℕ) (rs : List Region)
    → IsPow2 a
    → 0 < n
    → ((fail + 1 ≡ 2 ^ 64) ⊎ (fail ≡ 0))
    → Grants bump fail k a n rs (grant fail k a n rs)
unfolding grant
grant-Grants fail k {a} n rs p h f =
    let at = round_up a (suc (top rs)) in
    let above : top rs < at = omega (arith, round_up_bounds p (suc (top rs))) in
    elim (Bool-cases (ltb (at + n) (2 ^ 64))) [
      | inl fits ↦ rw fits (
          inr (record {
            succeeds = ground arith;
            positive = omega arith;
            aligns = round_up-mod a (suc (top rs));
            bounded = ground arith;
            added = refl;
            apart = λ q m. ground (arith, le_top q rs m);
          }))
      | inr full ↦ rw full (inl (record { fails = refl; same = refl }))
    ]

release-Releases : (k : Kind) (p n : ℕ) (rs : List Region) → Releases bump k p n rs (release p rs)
release-Releases k p n rs rest same apart =
    let left : release p (region k p n ∷ rest) ≡ rest =
      release_first k p n rest ∙ release_none p rest (λ q m. ground (arith, apart q m)) in
    let kept : Perm (release p rs) (release p (region k p n ∷ rest)) =
      unfold release in Perm.filter (base_ne p) same in
    rw left at kept

sixteen-IsPow2 : IsPow2 16
sixteen-IsPow2 = record { exp = 4; exp_lt = omega arith; value = refl }

page-IsPow2 : IsPow2 4096
page-IsPow2 = record { exp = 12; exp_lt = omega arith; value = refl }

granularity-IsPow2 : IsPow2 65536
granularity-IsPow2 = record { exp = 16; exp_lt = omega arith; value = refl }

pub bump-IsLawful : IsLawful bump
bump-IsLawful = record {
  page_size_pow2 = page-IsPow2;
  page_size_holds_header = omega arith;
  granularity_pow2 = granularity-IsPow2;
  page_size_le = omega arith;
  malloc_law = λ n s h. grant-Grants 0 Kind.heap n s sixteen-IsPow2 h (inr refl);
  free_law = release-Releases Kind.heap;
  aligned_alloc_law = λ a n s p h m. grant-Grants 0 Kind.heap n s p h (inr refl);
  aligned_malloc_law = λ n a s p h. grant-Grants 0 Kind.aligned n s p h (inr refl);
  aligned_free_law = release-Releases Kind.aligned;
  mmap_law = λ b n s h. grant-Grants map_failed Kind.pages n s page-IsPow2 h (inl refl);
  munmap_law = release-Releases Kind.pages;
  virtual_alloc_law = λ b n s h. grant-Grants 0 Kind.pages n s granularity-IsPow2 h (inr refl);
  virtual_free_law = release-Releases Kind.pages;
}
