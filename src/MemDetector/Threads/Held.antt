-- ===== src/MemDetector/Threads/Held.antt =====
-- The locks of the entries while threads interleave: who holds which, and what a held lock says of
-- the entry. The code is MemDetector/include/MemDetector.hpp.
use sallocator.Base.{
  ℕ, ◌<◌, ◌≡◌, ◌≢◌, ◌⊎◌, refl, sym, ap, ◌∙◌, inl, inr, Bool, true, false, List, [], ◌∷◌, ◌==◌,
  Bool-cases, arith, length,
}
use sallocator.MemDetector.{PerThreadData, GlobalData, get_per_thread}
use sallocator.MemDetector.Slots.{get_per_thread_mod}
use sallocator.MemDetector.Threads.{Frame, update}
use sallocator.MemDetector.Threads.Locks.{entry_of, own}

abbrev pub is_outer : List Frame → Bool
is_outer [] = true
is_outer (f ∷ rest) = false

-- The guards of a thread: only the outermost one records.
abbrev pub IsStack : ℕ → List Frame → Type 0
IsStack tid [] = Unit
IsStack tid (f ∷ rest) = (f.ena ≡ own tid (is_outer rest)) × IsStack tid rest

-- The lock of an entry counts the guards of the one thread that holds it, and the entry records only
-- while no thread does.
pub record IsLocked (g : GlobalData) (frames : ℕ → List Frame) : Type 0 where
  pub held :
      (t : ℕ)
      → 0 < length (frames t)
      → ((entry_of t g).mutex.owner ≡ t)
        × ((entry_of t g).mutex.depth ≡ length (frames t))
        × ((entry_of t g).enable ≡ false)
  pub free : (i : ℕ) → i < 8 → (g.per_threads i).mutex.depth ≡ 0 → (g.per_threads i).enable ≡ true
  pub owned :
      (i : ℕ)
      → i < 8
      → 0 < (g.per_threads i).mutex.depth
      → (get_per_thread (g.per_threads i).mutex.owner ≡ i)
        × (0 < length (frames (g.per_threads i).mutex.owner))
  pub stacks : (t : ℕ) → IsStack t (frames t)

pub entry_lt : (t : ℕ) → get_per_thread t < 8
entry_lt t = omega (arith, get_per_thread_mod t)

-- A change of one entry and of the guards of one thread of it.
module _ (g g' : GlobalData) (frames : ℕ → List Frame) (t : ℕ) (fs : List Frame) (p : PerThreadData)
    (l : IsLocked g frames) (here : (g'.per_threads (get_per_thread t)) ≡ p)
    (there : (j : ℕ) → j ≢ get_per_thread t → g'.per_threads j ≡ g.per_threads j)
    (alone : (u : ℕ) → u ≢ t → get_per_thread u ≡ get_per_thread t → length (frames u) ≡ 0)
    (stack : IsStack t fs)
    (locked : 0 < length fs
      → (p.mutex.owner ≡ t) × (p.mutex.depth ≡ length fs) × (p.enable ≡ false))
    (unlocked : length fs ≡ 0 → (p.mutex.depth ≡ 0) × (p.enable ≡ true)) where
  change-held :
      (u : ℕ)
      → 0 < length (update t fs frames u)
      → ((entry_of u g').mutex.owner ≡ u)
        × ((entry_of u g').mutex.depth ≡ length (update t fs frames u))
        × ((entry_of u g').enable ≡ false)
  change-held u h = elim (Bool-cases (u == t)) [
    | inl at ↦
        let e : u ≡ t = ground arith in
        let some_frames : 0 < length fs = rw at at h in rw (at, e, here) (locked some_frames)
    | inr off ↦
        let ne : u ≢ t = ground arith in
        let some_frames : 0 < length (frames u) = rw off at h in
        let apart : get_per_thread u ≢ get_per_thread t = λ e. ground (arith, alone u ne e) in
        rw (off, there (get_per_thread u) apart) (l.held u some_frames)
  ]

  change-free :
      (i : ℕ) → i < 8 → (g'.per_threads i).mutex.depth ≡ 0 → (g'.per_threads i).enable ≡ true
  change-free i lt e = elim (Bool-cases (i == get_per_thread t)) [
    | inl at ↦
        let k : i ≡ get_per_thread t = ground arith in
        let none_held : p.mutex.depth ≡ 0 = rw (k, here) at e in rw (k, here) (ground arith)
    | inr off ↦
        let ne : i ≢ get_per_thread t = ground arith in
        rw (there i ne) (l.free i lt (rw (there i ne) at e))
  ]

  change-owned :
      (i : ℕ)
      → i < 8
      → 0 < (g'.per_threads i).mutex.depth
      → (get_per_thread (g'.per_threads i).mutex.owner ≡ i)
        × (0 < length (update t fs frames (g'.per_threads i).mutex.owner))
  change-owned i lt e = elim (Bool-cases (i == get_per_thread t)) [
    | inl at ↦
        let k : i ≡ get_per_thread t = ground arith in
        let held : 0 < p.mutex.depth = rw (k, here) at e in
        let some_frames : 0 < length fs = ground arith in
        let self : (t == t) ≡ true = ground arith in
        rw (k, here, (locked some_frames).0, self) (refl, some_frames)
    | inr off ↦
        let ne : i ≢ get_per_thread t = ground arith in
        let (o, some_frames) = l.owned i lt (rw (there i ne) at e) in
        let other : ((g.per_threads i).mutex.owner == t) ≡ false =
          elim (Bool-cases ((g.per_threads i).mutex.owner == t)) [
            | inl same ↦
                let e' : (g.per_threads i).mutex.owner ≡ t = ground arith in
                absurd (ne (sym (rw e' at o)))
            | inr apart ↦ apart
          ] in
        rw (there i ne, other) (o, some_frames)
  ]

  pub change-IsLocked : IsLocked g' (update t fs frames)
  change-IsLocked = record {
    held = change-held;
    free = change-free;
    owned = change-owned;
    stacks = λ u. elim (Bool-cases (u == t)) [
      | inl at ↦ let e : u ≡ t = ground arith in rw (at, e) stack
      | inr off ↦ rw off (l.stacks u)
    ];
  }

-- A change that leaves the locks that are held, and the numbers of guards.
pub same-IsLocked :
    (g g' : GlobalData) (frames frames' : ℕ → List Frame)
    → IsLocked g frames
    → ((j : ℕ)
        → ((g'.per_threads j).mutex.depth ≡ (g.per_threads j).mutex.depth)
          × ((g'.per_threads j).enable ≡ (g.per_threads j).enable)
          × (0 < (g.per_threads j).mutex.depth
              → (g'.per_threads j).mutex.owner ≡ (g.per_threads j).mutex.owner))
    → ((u : ℕ) → length (frames' u) ≡ length (frames u))
    → ((u : ℕ) → IsStack u (frames' u))
    → IsLocked g' frames'
same-IsLocked g g' frames frames' l same sizes stacks = record {
  held = λ u h.
      let (owner, deep, off) = l.held u (rw (sizes u) at h) in
      let s = same (get_per_thread u) in
      (s.2 (omega arith) ∙ owner, s.0 ∙ (deep ∙ sym (sizes u)), s.1 ∙ off);
  free = λ i lt e. let s = same i in s.1 ∙ l.free i lt (sym s.0 ∙ e);
  owned = λ i lt e.
      let s = same i in
      let held : 0 < (g.per_threads i).mutex.depth = rw s.0 at e in
      rw (s.2 held, sizes (g.per_threads i).mutex.owner) (l.owned i lt held);
  stacks = stacks;
}

-- A thread that can take the lock of its entry.
abbrev pub CanLock : ℕ → GlobalData → Type 0
CanLock t g = ((entry_of t g).mutex.depth ≡ 0) ⊎ ((entry_of t g).mutex.owner ≡ t)

module _ (g : GlobalData) (frames : ℕ → List Frame) (l : IsLocked g frames) (t : ℕ)
    (can : CanLock t g) where
  -- Then no other thread of the entry has a guard, and the lock counts those of this one.
  pub locks-alone : (u : ℕ) → u ≢ t → get_per_thread u ≡ get_per_thread t → length (frames u) ≡ 0
  locks-alone u ne e = elim (Bool-cases (length (frames u) == 0)) [
    | inl none_open ↦ ground arith
    | inr open_guards ↦
        let h : 0 < length (frames u) = ground arith in
        let (owner, deep, off) = l.held u h in
        let owner' : (entry_of t g).mutex.owner ≡ u = rw (entry_of, e) at owner in
        let deep' : (entry_of t g).mutex.depth ≡ length (frames u) = rw (entry_of, e) at deep in
        absurd (ground (arith, can, owner', deep', ne, h))
  ]

  pub locks-depth :
      (fs : List Frame)
      → frames t ≡ fs
      → ((entry_of t g).mutex.depth ≡ length fs) × ((entry_of t g).enable ≡ is_outer fs)
  locks-depth [] e = elim (Bool-cases ((entry_of t g).mutex.depth == 0)) [
    | inl unheld ↦
        let zero_deep : (entry_of t g).mutex.depth ≡ 0 = ground arith in
        (zero_deep, l.free (get_per_thread t) (entry_lt t) zero_deep)
    | inr deep ↦
        let h : 0 < (entry_of t g).mutex.depth = ground arith in
        let mine : (entry_of t g).mutex.owner ≡ t = ground (arith, can) in
        let (o, some_frames) = l.owned (get_per_thread t) (entry_lt t) h in
        absurd (omega (arith, rw (mine, e) at some_frames))
  ]
  locks-depth (f ∷ fs) e =
      let h : 0 < length (frames t) = rw e (omega arith) in
      let (owner, deep, off) = l.held t h in (deep ∙ ap length e, off)
