-- ===== src/Stellatus/Chains.antt =====
-- The free chunks of all arenas as a list of entries, and the singly linked lists that the bins
-- head.
use mathlib.Core.List.{mem-cons_self, mem-cons_of_mem}
use mathlib.Core.List.Perm
use sallocator.Base.{
  All, ℕ, ◌<◌, ◌≡◌, refl, ◌≢◌, ◌⊎◌, inl, inr, Bool, ◌&&◌, List, [], ◌∷◌, Mem, Perm, arith, ◌==◌,
  if◌then◌else◌, Bool-cases,
}
use sallocator.Stellatus.{Cells}

-- `chunk` is free, in bin `bin` of the arena of `thread`.
pub record Free : Type 0 where
  pub thread : ℕ
  pub bin : ℕ
  pub chunk : ℕ

abbrev pub free_chunk : ℕ → ℕ → ℕ → Free
free_chunk t i c = record { thread = t; bin = i; chunk = c }

abbrev pub in_bin : ℕ → ℕ → Free → Bool
in_bin t i f = (f.thread == t) && (f.bin == i)

-- The chunks of one bin, the last freed first.
abbrev pub bin_chunks : ℕ → ℕ → List Free → List ℕ
bin_chunks t i [] = []
bin_chunks t i (f ∷ fs) = if in_bin t i f then f.chunk ∷ bin_chunks t i fs else bin_chunks t i fs

abbrev pub drop_first : ℕ → ℕ → List Free → List Free
drop_first t i [] = []
drop_first t i (f ∷ fs) = if in_bin t i f then fs else f ∷ drop_first t i fs

-- From `head`, the `next` fields lead through the chunks `cs` to null.
abbrev pub Chain : Cells → ℕ → List ℕ → Type 0
Chain cells head [] = head ≡ 0
Chain cells head (c ∷ cs) = (head ≡ c) × (0 < c) × Chain cells (cells c).next cs

module _ (t i : ℕ) where
  -- A bin survives a change of memory that spares the links of the free chunks.
  pub Chain-frame :
      (cells cells' : Cells) (head : ℕ) (fs : List Free)
      → ((f : Free) → Mem f fs → (cells' f.chunk).next ≡ (cells f.chunk).next)
      → Chain cells head (bin_chunks t i fs)
      → Chain cells' head (bin_chunks t i fs)
  Chain-frame cells cells' head [] same h = h
  Chain-frame cells cells' head (f ∷ fs) same h = elim (Bool-cases (in_bin t i f)) [
    | inl e ↦
        let k : Chain cells head (f.chunk ∷ bin_chunks t i fs) = rw e at h in
        rw e (
          k.0,
          k.1,
          rw (same f mem-cons_self) (
              Chain-frame cells cells' (cells f.chunk).next fs (λ g m. same g (mem-cons_of_mem f m))
                k.2),
        )
    | inr e ↦
        let k : Chain cells head (bin_chunks t i fs) = rw e at h in
        rw e (Chain-frame cells cells' head fs (λ g m. same g (mem-cons_of_mem f m)) k)
  ]

  -- The entry at the front of a bin, with the rest of the list of entries and of the bin.
  pub record First (fs : List Free) (c : ℕ) (cs : List ℕ) : Type 0 where
    pub splits : Perm fs (free_chunk t i c ∷ drop_first t i fs)
    pub left : bin_chunks t i (drop_first t i fs) ≡ cs

  pub bin_chunks-First :
      (fs : List Free) (c : ℕ) (cs : List ℕ) → bin_chunks t i fs ≡ c ∷ cs → First fs c cs
  bin_chunks-First [] c cs e = absurd (cc e)
  bin_chunks-First (f ∷ fs) c cs e = elim (Bool-cases (in_bin t i f)) [
    | inl here ↦
        let same : f ≡ free_chunk t i c = ground arith in
        record {
          splits = rw here (rw same (Perm.refl (free_chunk t i c ∷ fs)));
          left = ground arith;
        }
    | inr later ↦
        let rest = bin_chunks-First fs c cs (ground arith) in
        record {
          splits = rw later (
              Perm.trans (Perm.cons f rest.splits)
                (Perm.swap (free_chunk t i c) f (drop_first t i fs)));
          left = rw (later, later) rest.left;
        }
  ]

  -- What holds of every entry holds of the one at the front.
  pub All-first {κ} :
      (P : Free → Type κ) (fs : List Free) (c : ℕ) (cs : List ℕ)
      → bin_chunks t i fs ≡ c ∷ cs
      → All P fs
      → P (free_chunk t i c)
  All-first P [] c cs e h = absurd (cc e)
  All-first P (f ∷ fs) c cs e h = elim (Bool-cases (in_bin t i f)) [
    | inl here ↦ let same : f ≡ free_chunk t i c = ground arith in rw same at h.0
    | inr later ↦ All-first P fs c cs (ground arith) h.1
  ]

  pub All-drop_first {κ} :
      (P : Free → Type κ) (fs : List Free) → All P fs → All P (drop_first t i fs)
  All-drop_first P [] h = h
  All-drop_first P (f ∷ fs) h = elim (Bool-cases (in_bin t i f)) [
    | inl here ↦ rw here h.1
    | inr later ↦ rw later (h.0, All-drop_first P fs h.1)
  ]

  -- The other bins keep their chunks.
  pub bin_chunks-drop_first :
      (u j : ℕ) (fs : List Free)
      → ((u ≢ t) ⊎ (j ≢ i))
      → bin_chunks u j (drop_first t i fs) ≡ bin_chunks u j fs
  bin_chunks-drop_first u j [] h = refl
  bin_chunks-drop_first u j (f ∷ fs) h = ground (arith, bin_chunks-drop_first u j fs)
