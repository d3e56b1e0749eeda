-- ===== src/OsAllocator/GiveBack.antt =====
-- What OS_Free of src/SysApi.cpp and the writes of the clients do to the blocks in use.
use mathlib.Core.List.{Pairwise-append}
use mathlib.Core.List.Perm
use sallocator.Base.{
  ℕ, ◌≡◌, refl, sym, inl, inr, Bool, List, ◌∷◌, ◌++◌, All, arith, ltb, ◌==◌, Bool-cases, subst,
}
use sallocator.Os.{Region, Os, Platform, win32, posix, IsLawful, Releases}
use sallocator.Os.Blocks.{Block}
use sallocator.Os.Owned.{Owns-release, Owns-perm, Apart-prop}
use sallocator.OsAllocator.{Build, Sys, get_page_size, os_free}
use sallocator.OsAllocator.Pages.{IsCached}
use sallocator.OsAllocator.Small.{os_free_small}
use sallocator.OsAllocator.Header.{os_free_pages, unmap-Releases}
use sallocator.OsAllocator.Cached.{os_free-IsCached}
use sallocator.OsAllocator.Held.{IsHeld, Holds, Holds-middle, Holds-written, OutsideWord}
use sallocator.OsAllocator.Tracks.{Tracks}

get_page_size-words : {o : Os} (w : Sys o) → (get_page_size w).1.words ≡ w.words
unfolding get_page_size
get_page_size-words w = elim (Bool-cases (w.cached_page_size == 0)) [
  | inl fresh ↦ rw fresh refl
  | inr known ↦ rw known refl
]

-- `OS_Free` writes no word.
os_free-words :
    {o : Os} (x : Platform) (nd : Bool) (p size : ℕ) (w : Sys o)
    → (os_free (record { platform = x; ndebug = nd }) p size w).words ≡ w.words
unfolding os_free
os_free-words win32 nd p size w = elim (Bool-cases (p == 0)) [
  | inl null ↦ rw null refl
  | inr live ↦ elim (Bool-cases (ltb size (get_page_size w).0)) [
    | inl below ↦ rw (live, below) (get_page_size-words w)
    | inr paged ↦ rw (live, paged) (get_page_size-words w)
  ]
]
os_free-words posix nd p size w = elim (Bool-cases (p == 0)) [
  | inl null ↦ rw null refl
  | inr live ↦ elim (Bool-cases (ltb size (get_page_size w).0)) [
    | inl below ↦ rw (live, below) (get_page_size-words w)
    | inr paged ↦ rw (live, paged) (get_page_size-words w)
  ]
]

module _ {o : Os} (law : IsLawful o) (b : Build) where
  -- `OS_Free` of a block releases its region.
  os_free-Releases :
      (c : Block) (r : Region) (w : Sys o)
      → IsCached w
      → IsHeld o b.platform w.words c r
      → Releases o r.kind r.base r.size w.os (os_free b c.ptr c.size w).os
  os_free-Releases c r w cached (inl h) =
      subst (λ q. Releases o q.kind q.base q.size w.os (os_free b c.ptr c.size w).os)
        (sym h.is_region)
        (os_free_small law b.platform b.ndebug c.ptr c.size w h.ptr_ne h.below cached r.size)
  os_free-Releases c r w cached (inr h) =
      subst (λ q. Releases o q.kind q.base q.size w.os (os_free b c.ptr c.size w).os)
        (sym h.is_region)
        (rw (os_free_pages law b c.ptr c.size w (ground (arith, h.room)) cached h.pages, h.header)
          (unmap-Releases law b.platform b.ndebug _ w.os))

  pub os_free-Tracks :
      {w : Sys o} (xs ys : List Block) (c : Block) (rs others : List Region)
      → Tracks o b.platform w (xs ++ c ∷ ys) rs others
      → (rest : List Region) × Tracks o b.platform (os_free b c.ptr c.size w) (xs ++ ys) rest others
  os_free-Tracks {w} xs ys c rs others v =
      let (r, rest, same, held, left) = Holds-middle o b.platform w.words xs ys c rs v.holds in
      (
        rest,
        record {
          cached = os_free-IsCached b.platform b.ndebug c.ptr c.size w v.cached;
          holds =
              subst (λ f. Holds o b.platform f (xs ++ ys) rest)
                (sym (os_free-words b.platform b.ndebug c.ptr c.size w)) left;
          owns =
              Owns-release o (os_free-Releases c r w v.cached held)
                (Owns-perm (Perm.append_right others same) v.owns);
        },
      )

-- Clients write into their own blocks.
pub written-Tracks :
    {o : Os} {x : Platform} {w : Sys o} (used : List Block) (rs others : List Region)
    (words : ℕ → ℕ)
    → Tracks o x w used rs others
    → ((a : ℕ) → All (OutsideWord a) used → words a ≡ w.words a)
    → Tracks o x (record w { words = words }) used rs others
written-Tracks {o} {x} {w} used rs others words v same = record {
  cached = v.cached;
  holds =
      Holds-written o x w.words words (λ a. Unit) used rs v.holds
        ((Pairwise-append Apart-prop).0 v.owns.apart).0 (λ c q m h. (tt, tt))
        (λ a k out. same a out);
  owns = v.owns;
}
