-- ===== src/OsAllocator/History.antt =====
-- Any sequence of calls of OS_Alloc and OS_Free of src/SysApi.cpp with the writes of the clients.
use mathlib.Core.List.{Pairwise, Pairwise-append}
use mathlib.Core.List.Perm
use sallocator.Base.{ℕ, ◌≡◌, ◌≢◌, refl, inl, inr, List, [], ◌∷◌, ◌++◌, All, Perm}
use sallocator.Os.{Region, Os, IsLawful, Apart}
use sallocator.Os.Blocks.{Block, block, Separate}
use sallocator.Os.Owned.{Apart-prop}
use sallocator.OsAllocator.{Build, Sys, returns, bad_alloc, aborted, os_alloc, os_free}
use sallocator.OsAllocator.Pages.{IsCached}
use sallocator.OsAllocator.Held.{Holds, Holds-Separate, OutsideWord}
use sallocator.OsAllocator.Requests.{IsServable}
use sallocator.OsAllocator.Tracks.{Tracks, Allocates, os_alloc-Allocates}
use sallocator.OsAllocator.GiveBack.{os_free-Tracks, written-Tracks}

module _ (o : Os) (b : Build) where
  -- A call of `OS_Alloc` with a request that it can serve, one of `OS_Free` with a block in use and
  -- its size, or a write of a client into its blocks.
  pub data Step (w : Sys o) (used : List Block) : Sys o → List Block → Type 0 where
    allocated :
        (size alignment p : ℕ) {w' : Sys o}
        → IsServable o b size alignment
        → os_alloc b size alignment w ≡ returns p w'
        → p ≢ 0
        → Step w used w' (block p size ∷ used)
    null :
        (size alignment : ℕ) {w' : Sys o}
        → IsServable o b size alignment
        → os_alloc b size alignment w ≡ returns 0 w'
        → Step w used w' used
    refused :
        (size alignment : ℕ) {w' : Sys o}
        → IsServable o b size alignment
        → os_alloc b size alignment w ≡ bad_alloc w'
        → Step w used w' used
    freed :
        (xs ys : List Block) (c : Block)
        → used ≡ xs ++ c ∷ ys
        → Step w used (os_free b c.ptr c.size w) (xs ++ ys)
    written :
        (words : ℕ → ℕ)
        → ((a : ℕ) → All (OutsideWord a) used → words a ≡ w.words a)
        → Step w used (record w { words = words }) used

  pub data Reach (w : Sys o) (used : List Block) : Sys o → List Block → Type 0 where
    here : Reach w used w used
    next :
        {w₁ w₂ : Sys o} {u₁ u₂ : List Block}
        → Reach w used w₁ u₁
        → Step w₁ u₁ w₂ u₂
        → Reach w used w₂ u₂

  abbrev Good : List Region → Sys o → List Block → Type 0
  Good others w used = (rs : List Region) × Tracks o b.platform w used rs others

module _ {o : Os} (law : IsLawful o) {b : Build} (others : List Region) where
  Step-Good :
      {w w' : Sys o} {used used' : List Block}
      → Step o b w used w' used'
      → Good o b others w used
      → Good o b others w' used'
  Step-Good {used = used} (allocated size alignment p good e ne) (rs, v) =
      let h : Allocates o b.platform size used rs others (returns p _) =
        rw e at (os_alloc-Allocates law b v size alignment good) in
      elim h [ inl (zero, v') ↦ absurd (ne zero) | inr (ne', (r, v')) ↦ (r ∷ rs, v') ]
  Step-Good {used = used} (null size alignment good e) (rs, v) =
      let h : Allocates o b.platform size used rs others (returns 0 _) =
        rw e at (os_alloc-Allocates law b v size alignment good) in
      elim h [ inl (zero, v') ↦ (rs, v') | inr (ne, other) ↦ absurd (ne refl) ]
  Step-Good (refused size alignment good e) (rs, v) =
      (rs, rw e at (os_alloc-Allocates law b v size alignment good))
  Step-Good (freed xs ys c split) (rs, v) = os_free-Tracks law b xs ys c rs others (rw split at v)
  Step-Good {used = used} (written words same) (rs, v) =
      (rs, written-Tracks used rs others words v same)

  Reach-Good :
      {w : Sys o} {used : List Block} {w' : Sys o} {used' : List Block}
      → Reach o b w used w' used'
      → Good o b others w used
      → Good o b others w' used'
  Reach-Good here g = g
  Reach-Good (next r s) g = Step-Good s (Reach-Good r g)

module _ {o : Os} (law : IsLawful o) {b : Build} {w₀ : Sys o} (cached : IsCached w₀)
    (apart : Pairwise Apart (o.live w₀.os)) {w : Sys o} {used : List Block}
    (reach : Reach o b w₀ [] w used) where
  reached : Good o b (o.live w₀.os) w used
  reached = Reach-Good law (o.live w₀.os) reach (
    [],
    record {
      cached = cached;
      holds = tt;
      owns = record { same = Perm.refl (o.live w₀.os); apart = apart };
    },
  )

  -- After any sequence of calls of OS_Alloc with sizes that do not overflow and an alignment that
  -- is a power of two, passes the check and from a page on is at most 16, of OS_Free with a block
  -- in use and its size, and of writes of the clients into their own blocks, from a state on in
  -- which nothing is in use, no two allocated regions overlap and GetPageSize has cached nothing
  -- or the page size, no two blocks in use overlap, and no further such call of OS_Alloc aborts.
  pub Reach-no_overlap :
      Separate used
      × ((size alignment : ℕ)
          → IsServable o b size alignment
          → os_alloc b size alignment w ≢ aborted)
  Reach-no_overlap =
      let (rs, v) = reached in
      (
        Holds-Separate o b.platform w.words used rs v.holds
            ((Pairwise-append Apart-prop).0 v.owns.apart).0,
        λ size alignment good e. rw e at (os_alloc-Allocates law b v size alignment good),
      )

  -- After any sequence of calls of OS_Alloc with sizes that do not overflow and an alignment that
  -- is a power of two, passes the check and from a page on is at most 16, of OS_Free with a block
  -- in use and its size, and of writes of the clients into their own blocks, from a state on in
  -- which nothing is in use, no two allocated regions overlap and GetPageSize has cached nothing
  -- or the page size, if nothing is in use again, whatever the order in which the blocks were
  -- given back, what is allocated is what was allocated at the start.
  pub Reach-no_leak : used ≡ [] → Perm (o.live w.os) (o.live w₀.os)
  Reach-no_leak none = let (rs, v) = reached in nothing_left rs (rw none at v.holds) v.owns.same
    where
      nothing_left :
          (rs : List Region)
          → Holds o b.platform w.words [] rs
          → Perm (o.live w.os) (rs ++ o.live w₀.os)
          → Perm (o.live w.os) (o.live w₀.os)
      nothing_left [] hs same = same
      nothing_left (r ∷ rs) hs same = absurd hs
