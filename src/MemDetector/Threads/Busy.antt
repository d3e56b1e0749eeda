-- ===== src/MemDetector/Threads/Busy.antt =====
-- The entry that the export thread of MemDetector/include/MemDetector.hpp has locked, apart from the
-- locks of the operators.
use mathlib.Core.Option.{some-injective}
use sallocator.Base.{
  ℕ, ◌≡◌, ◌≢◌, ◌<◌, refl, sym, ap, subst, inl, inr, Bool, true, false, Option, none, some, List, [],
  ◌==◌, Bool-cases, arith, if◌then◌else◌, length, ◌∙◌,
}
use sallocator.AllocAction.{AllocAction}
use sallocator.MemDetector.{
  PerThreadData, RecursiveMutex, unlock, GlobalData, set_per_thread, get_per_thread, enter, leave,
  EnableGuard, lock,
}
use sallocator.MemDetector.Threads.{Frame, System, busy}
use sallocator.MemDetector.Threads.Locks.{entry_of, own, Takes, enter_inv, leave_inv, lock-Locks}
use sallocator.MemDetector.Threads.Held.{IsLocked}

-- The entry, with its lock free.
abbrev pub unlocked : PerThreadData → PerThreadData
unlocked p = record p { mutex = record p.mutex { depth = 0 } }

-- The entries as the operators have left them.
abbrev pub shown : Option ℕ → GlobalData → GlobalData
shown none g = g
shown (some i) g = set_per_thread i (unlocked (g.per_threads i)) g

-- The lock that the export thread holds.
pub record IsBusy (exporting : ℕ) (g : GlobalData) (frames : ℕ → List Frame) (i : ℕ) : Type 0 where
  pub index_lt : i < 8
  pub owner : (g.per_threads i).mutex.owner ≡ exporting
  pub depth : (g.per_threads i).mutex.depth ≡ 1
  pub idle : frames exporting ≡ []

-- The locks in a state: those of the operators, and the one of the export thread.
pub record Inv (exporting : ℕ) (s : System) : Type 0 where
  pub operators : IsLocked (shown (busy s.exporter.place) s.global) s.frames
  pub export : (i : ℕ) → busy s.exporter.place ≡ some i → IsBusy exporting s.global s.frames i

pub set_comm :
    (a i : ℕ) (p q : PerThreadData) (g : GlobalData)
    → a ≢ i
    → set_per_thread a p (set_per_thread i q g) ≡ set_per_thread i q (set_per_thread a p g)
set_comm a i p q g ne =
    ap (λ (f : ℕ → PerThreadData). record g { per_threads = f }) (λ k j. same j k)
  where
    same :
        (j : ℕ)
        → (if j == a then p else (if j == i then q else g.per_threads j))
          ≡ (if j == i then q else (if j == a then p else g.per_threads j))
    same j = elim (Bool-cases (j == a)) [
      | inl at ↦ let off : (j == i) ≡ false = ground (arith, at, ne) in rw (at, off) refl
      | inr off ↦ rw off refl
    ]

-- An entry other than the busy one is shown as it is.
pub shown_other :
    (i j : ℕ) (g : GlobalData) → j ≢ i → (shown (some i) g).per_threads j ≡ g.per_threads j
shown_other i j g ne = let off : (j == i) ≡ false = ground (arith, ne) in rw off refl

-- A change of another entry changes what is shown in the same way.
pub shown_set :
    (i a : ℕ) (p : PerThreadData) (g : GlobalData)
    → a ≢ i
    → shown (some i) (set_per_thread a p g) ≡ set_per_thread a p (shown (some i) g)
shown_set i a p g ne =
    let off : (i == a) ≡ false = ground (arith, ne) in
    rw off (sym (set_comm a i p (unlocked (g.per_threads i)) g ne))

module _ (g : GlobalData) (frames : ℕ → List Frame) where
  -- A thread with a guard is none of the busy entry.
  pub holder-ne :
      (i t : ℕ) → IsLocked (shown (some i) g) frames → 0 < length (frames t) → get_per_thread t ≢ i
  holder-ne i t l h e =
      let (owner, deep, off) = l.held t h in
      let self : (get_per_thread t == i) ≡ true = ground (arith, e) in
      let none_deep : 0 ≡ length (frames t) = rw self at deep in omega (arith, none_deep, h)

  -- A thread that gets a lock is none of the busy entry.
  pub locker-ne :
      (exporting i t : ℕ) (m : RecursiveMutex)
      → IsBusy exporting g frames i
      → t ≢ exporting
      → lock t (entry_of t g).mutex ≡ some m
      → get_per_thread t ≢ i
  locker-ne exporting i t m b ne taken e =
      let k = lock-Locks t (entry_of t g).mutex m taken in
      let owner : (entry_of t g).mutex.owner ≡ exporting =
        ap (λ j. (g.per_threads j).mutex.owner) e ∙ b.owner in
      let deep : (entry_of t g).mutex.depth ≡ 1 =
        ap (λ j. (g.per_threads j).mutex.depth) e ∙ b.depth in
      ground (arith, k.free, owner, deep, ne)

  -- What a thread with a guard holds, also while the export thread has a lock.
  pub held_real :
      (b : Option ℕ) (t : ℕ)
      → IsLocked (shown b g) frames
      → 0 < length (frames t)
      → ((entry_of t g).mutex.owner ≡ t)
        × ((entry_of t g).mutex.depth ≡ length (frames t))
        × ((entry_of t g).enable ≡ false)
  held_real none t l h = l.held t h
  held_real (some i) t l h =
      let off : (get_per_thread t == i) ≡ false = ground (arith, holder-ne i t l h) in
      rw off at (l.held t h)

-- The two ends of a guard, from the entry that they find.
enter-entry :
    (tid : ℕ) (g : GlobalData) (p : PerThreadData) (m : RecursiveMutex)
    → entry_of tid g ≡ p
    → lock tid p.mutex ≡ some m
    → enter tid (some g)
      ≡ some (
        own tid p.enable,
        some (set_per_thread (get_per_thread tid) (record p { mutex = m; enable = false }) g),
      )
unfolding enter
enter-entry tid g p m e taken =
    subst
      (λ q.
        lock tid q.mutex ≡ some m
        → enter tid (some g)
          ≡ some (
            own tid q.enable,
            some (set_per_thread (get_per_thread tid) (record q { mutex = m; enable = false }) g),
          ))
      e (λ k. rw k refl) taken

leave-entry :
    (tid : ℕ) (was : Bool) (g : GlobalData) (p : PerThreadData)
    → entry_of tid g ≡ p
    → leave (own tid was) (some g)
      ≡ some (
          set_per_thread (get_per_thread tid) (record p { enable = was; mutex = unlock p.mutex }) g)
unfolding leave
leave-entry tid was g p e =
    subst
      (λ q.
        leave (own tid was) (some g)
        ≡ some (
            set_per_thread (get_per_thread tid) (record q { enable = was; mutex = unlock q.mutex })
              g))
      e refl

pub enter-shown :
    (i tid : ℕ) (ena : EnableGuard) (g g' : GlobalData)
    → get_per_thread tid ≢ i
    → enter tid (some g) ≡ some (ena, some g')
    → enter tid (some (shown (some i) g)) ≡ some (ena, some (shown (some i) g'))
enter-shown i tid ena g g' ne e =
    let (m, taken, guard, after) = enter_inv tid g ena (some g') e in
    let p : PerThreadData = record (entry_of tid g) { mutex = m; enable = false } in
    enter-entry tid (shown (some i) g) (entry_of tid g) m (shown_other i (get_per_thread tid) g ne)
      taken
    ∙ (λ k. some (
      (sym guard) k,
      some (
          (sym (shown_set i (get_per_thread tid) p g ne)
              ∙ ap (shown (some i)) (sym (some-injective _ _ after)))
            k),
    ))

pub leave-shown :
    (i tid : ℕ) (was : Bool) (g g' : GlobalData)
    → get_per_thread tid ≢ i
    → leave (own tid was) (some g) ≡ some g'
    → leave (own tid was) (some (shown (some i) g)) ≡ some (shown (some i) g')
leave-shown i tid was g g' ne e =
    let p : PerThreadData = record (entry_of tid g) {
      enable = was;
      mutex = unlock (entry_of tid g).mutex;
    } in
    leave-entry tid was (shown (some i) g) (entry_of tid g)
      (shown_other i (get_per_thread tid) g ne)
    ∙ ap some (
        sym (shown_set i (get_per_thread tid) p g ne)
        ∙ ap (shown (some i)) (sym (leave_inv tid was g g' e)))

-- A record changes no lock that is shown.
pub shown-Takes :
    (b : Option ℕ) (g g' : GlobalData) (log : List AllocAction)
    → Takes g g' log
    → (j : ℕ)
    → (((shown b g').per_threads j).mutex.depth ≡ ((shown b g).per_threads j).mutex.depth)
      × (((shown b g').per_threads j).enable ≡ ((shown b g).per_threads j).enable)
      × (0 < ((shown b g).per_threads j).mutex.depth
          → ((shown b g').per_threads j).mutex.owner ≡ ((shown b g).per_threads j).mutex.owner)
shown-Takes none g g' log takes j =
    (ap (λ m. m.depth) (takes j).0, (takes j).1, λ h. ap (λ m. m.owner) (takes j).0)
shown-Takes (some i) g g' log takes j = elim (Bool-cases (j == i)) [
  | inl at ↦ rw at (refl, (takes i).1, λ h. absurd (omega (arith, h)))
  | inr off ↦
      rw off (ap (λ m. m.depth) (takes j).0, (takes j).1, λ h. ap (λ m. m.owner) (takes j).0)
]
