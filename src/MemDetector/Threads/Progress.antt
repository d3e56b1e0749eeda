-- ===== src/MemDetector/Threads/Progress.antt =====
-- No deadlock in MemDetector/include/MemDetector.hpp: whoever waits, waits for a thread that can go
-- on.
use sallocator.Base.{
  ℕ, ◌<◌, ◌≡◌, ◌≢◌, ◌⊎◌, refl, ap, inl, inr, Option, none, some, List, [], ◌∷◌, ◌==◌, Bool-cases,
  arith, length,
}
use sallocator.MemDetector.{RecursiveMutex, lock, GlobalData, get_per_thread, enter}
use sallocator.MemDetector.Slots.{get_per_thread_mod}
use sallocator.MemDetector.Threads.{
  Frame, System, Step, Reach, Place, busy, at_test, in_pass, locked, moving, finished, moves,
  drains,
}
use sallocator.MemDetector.Threads.Locks.{entry_of, own}
use sallocator.MemDetector.Threads.Held.{entry_lt}
use sallocator.MemDetector.Threads.Busy.{shown, Inv, shown_other}
use sallocator.MemDetector.Threads.Exclusion.{Reach-Inv}
use sallocator.MemDetector.Threads.Holders.{
  Goes, Runs, Waits, WaitsForExport, holder-Goes, holder-Moves, idle-Moves, lock-none, built,
}

idle-enters :
    (t : ℕ) (m : RecursiveMutex) (g : GlobalData)
    → lock t (entry_of t g).mutex ≡ some m
    → Goes g t []
unfolding enter
idle-enters t m g e = (own t (entry_of t g).enable, built t m g, rw e refl)

-- The export thread can give back the lock that it holds.
exporter-Exports :
    (exporting : ℕ) (s : System) (i : ℕ)
    → busy s.exporter.place ≡ some i
    → (s' : System) × Step exporting s s' × (s'.exporter.place ≢ s.exporter.place)
exporter-Exports exporting s i is = by_place s.exporter.place refl
  where
    by_place :
        (p : Place)
        → s.exporter.place ≡ p
        → (s' : System) × Step exporting s s' × (s'.exporter.place ≢ s.exporter.place)
    by_place at_test e = cc (is, ap busy e)
    by_place (in_pass j last) e = cc (is, ap busy e)
    by_place (locked j last) e = (_, moves j last e, λ q. cc (q, e))
    by_place (moving j last xs) e = (_, drains j last xs e, λ q. cc (q, e))
    by_place finished e = cc (is, ap busy e)

-- In each state that the threads reach, their steps interleaved in any order, each thread can make
-- a step in which a call of an operator starts, goes on or ends, and whatever it does next
-- succeeds: where it runs an operator, a nested one gets the lock and finds the entry switched
-- off, the innermost guard that has made no record makes any record of the thread, and one that
-- has made its record ends; or the thread runs no operator and waits for a different thread of the
-- same entry, which runs an operator and can go on in this way; or it runs no operator, and it is
-- the export thread or waits for it, which holds a lock and can make the next step towards its
-- end.
pub Reach-Runs :
    {exporting : ℕ} {s : System}
    → Reach exporting s
    → (t : ℕ) → Runs exporting s t ⊎ (Waits exporting s t ⊎ WaitsForExport exporting s t)
Reach-Runs {exporting} {s} r t = by_frames (s.frames t) refl
  where
    v : Inv exporting s
    v = Reach-Inv r

    holder : (u : ℕ) → 0 < length (s.frames u) → Runs exporting s u
    holder u h = (holder-Goes exporting s v u _ refl h, holder-Moves exporting s v u _ refl h)

    idle :
        (m : RecursiveMutex)
        → (t ≡ exporting → busy s.exporter.place ≡ none)
        → s.frames t ≡ []
        → lock t (entry_of t s.global).mutex ≡ some m
        → Runs exporting s t
    idle m outside at e =
        (rw at (idle-enters t m s.global e), idle-Moves exporting s v t m outside at e)

    -- The entry is free for the export thread.
    by_operators :
        s.frames t ≡ []
        → (t ≡ exporting → busy s.exporter.place ≡ none)
        → (entry_of t (shown (busy s.exporter.place) s.global) ≡ entry_of t s.global)
        → (o : Option RecursiveMutex) → lock t (entry_of t s.global).mutex ≡ o
        → Runs exporting s t ⊎ (Waits exporting s t ⊎ WaitsForExport exporting s t)
    by_operators at outside same (some m) e = inl (idle m outside at e)
    by_operators at outside same none e =
        let (held, ne) = lock-none t (entry_of t s.global).mutex e in
        let (entry, some_frames) =
          rw same at (v.operators.owned (get_per_thread t) (entry_lt t) (rw same held)) in
        inr (
          inl (
            at,
            (entry_of t s.global).mutex.owner,
            ne,
            omega (
              arith,
              get_per_thread_mod t,
              get_per_thread_mod (entry_of t s.global).mutex.owner,
              entry,
            ),
            some_frames,
            holder _ some_frames,
          ))

    by_busy :
        s.frames t ≡ []
        → (b : Option ℕ) → busy s.exporter.place ≡ b
        → Runs exporting s t ⊎ (Waits exporting s t ⊎ WaitsForExport exporting s t)
    by_busy at none e = by_operators at (λ q. e) (rw e refl) _ refl
    by_busy at (some i) e = elim (Bool-cases (t == exporting)) [
      | inl self ↦
          inr (inr (at, i, e, inl (ground (arith, self)), exporter-Exports exporting s i e))
      | inr other ↦ elim (Bool-cases (get_per_thread t == i)) [
        | inl here ↦
            inr (inr (at, i, e, inr (ground (arith, here)), exporter-Exports exporting s i e))
        | inr there ↦
            by_operators at (λ q. absurd (ground (arith, other, q)))
              (rw e (shown_other i (get_per_thread t) s.global (ground (arith, there)))) _ refl
      ]
    ]

    by_frames :
        (fs : List Frame)
        → s.frames t ≡ fs
        → Runs exporting s t ⊎ (Waits exporting s t ⊎ WaitsForExport exporting s t)
    by_frames [] at = by_busy at _ refl
    by_frames (f ∷ rest) at = inl (holder t (rw at (omega arith)))
