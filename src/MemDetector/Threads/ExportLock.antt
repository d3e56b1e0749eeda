-- ===== src/MemDetector/Threads/ExportLock.antt =====
-- What the steps of exprot_thead_entry of MemDetector/include/MemDetector.hpp do to the locks.
use mathlib.Core.Option.{some-injective}
use sallocator.Base.{
  ℕ, ◌<◌, ◌≡◌, ◌≢◌, ◌+◌, Bool, Option, none, ◌++◌, if◌then◌else◌, refl, ap, ◌∙◌, inl, inr, true,
  false, some, List, [], ◌∷◌, ◌==◌, Bool-cases, arith,
}
use sallocator.MemDetector.{RecursiveMutex, lock, GlobalData, set_per_thread}
use sallocator.MemDetector.Threads.{
  Frame, System, Exporter, drained, busy, at_test, in_pass, locked, moving, finished,
}
use sallocator.MemDetector.Threads.Locks.{lock-Locks}
use sallocator.AllocAction.{AllocAction}
use sallocator.MemDetector.Threads.Busy.{shown, IsBusy, Inv}
use sallocator.MemDetector.Threads.Held.{IsLocked, same-IsLocked}

-- The exporter takes a lock that is free, and gives it back.
lock-free :
    (exporting i : ℕ) (m : RecursiveMutex) (g : GlobalData) (frames : ℕ → List Frame)
    → i < 8
    → frames exporting ≡ []
    → lock exporting (g.per_threads i).mutex ≡ some m
    → IsLocked g frames
    → (g.per_threads i).mutex.depth ≡ 0
lock-free exporting i m g frames lt alone e l =
    let k = lock-Locks exporting (g.per_threads i).mutex m e in
    elim (Bool-cases ((g.per_threads i).mutex.depth == 0)) [
      | inl zero_deep ↦ ground arith
      | inr deep ↦
          let h : 0 < (g.per_threads i).mutex.depth = ground arith in
          let mine : (g.per_threads i).mutex.owner ≡ exporting = ground (arith, k.free) in
          absurd (omega (arith, rw (mine, alone) at (l.owned i lt h).1))
    ]

pub locks-Inv :
    (exporting i : ℕ) (last : Bool) (m : RecursiveMutex) (s : System)
    → s.exporter.place ≡ in_pass i last
    → i < 8
    → s.frames exporting ≡ []
    → lock exporting (s.global.per_threads i).mutex ≡ some m
    → Inv exporting s
    → Inv exporting (record s {
      global = set_per_thread i (record (s.global.per_threads i) { mutex = m }) s.global;
      exporter = record s.exporter { place = locked i last };
    })
locks-Inv exporting i last m s at lt alone e v =
    let l : IsLocked s.global s.frames = rw at at v.operators in
    let k = lock-Locks exporting (s.global.per_threads i).mutex m e in
    let unheld = lock-free exporting i m s.global s.frames lt alone e l in
    let g : GlobalData =
      set_per_thread i (record (s.global.per_threads i) { mutex = m }) s.global in
    let self : (i == i) ≡ true = ground arith in
    record {
      operators =
          same-IsLocked s.global (shown (some i) g) s.frames s.frames l
            (λ j. elim (Bool-cases (j == i)) [
              | inl is ↦
                  let e : j ≡ i = ground arith in
                  rw (is, e, self)
                    (omega (arith, unheld), refl, λ h. absurd (omega (arith, h, unheld)))
              | inr off ↦ rw off (refl, refl, λ h. refl)
            ])
            (λ u. refl) l.stacks;
      export = λ j is.
          let same : i ≡ j = some-injective _ _ is in
          rw (← same) (record {
            index_lt = lt;
            owner = rw self k.owner;
            depth = rw self (omega (arith, k.depth, unheld));
            idle = alone;
          });
    }

pub drains-Inv :
    (exporting i : ℕ) (last : Bool) (xs : List AllocAction) (s : System)
    → s.exporter.place ≡ moving i last xs
    → Inv exporting s
    → (ys : List AllocAction)
    → Inv exporting (record s {
      global = drained i s.global;
      exporter = record s.exporter { place = in_pass (i + 1) last; actions = ys };
    })
drains-Inv exporting i last xs s at v ys =
    let l : IsLocked (shown (some i) s.global) s.frames = rw at at v.operators in
    let b : IsBusy exporting s.global s.frames i = v.export i (ap busy at) in
    record {
      operators =
          same-IsLocked (shown (some i) s.global) (drained i s.global) s.frames s.frames l
            (λ j. elim (Bool-cases (j == i)) [
              | inl is ↦ rw is (omega (arith, b.depth), refl, λ h. absurd (omega (arith, h)))
              | inr off ↦ rw off (refl, refl, λ h. refl)
            ])
            (λ u. refl) l.stacks;
      export = λ j is. cc is;
    }

pub nil_not_cons {ℓ} : {A : Type ℓ} {x : A} {xs : List A} → [] ≢ x ∷ xs
nil_not_cons e = cc e

-- A step of the export thread that leaves its lock.
pub place-Inv :
    (exporting : ℕ) (s : System) (exporter : Exporter)
    → busy s.exporter.place ≡ busy exporter.place
    → Inv exporting s
    → Inv exporting (record s { exporter = exporter })
place-Inv exporting s exporter same v = record {
  operators = rw (← same) v.operators;
  export = λ i e. v.export i (same ∙ e);
}

pub stopped-Inv :
    (exporting : ℕ) (s : System) (b : Option ℕ)
    → busy s.exporter.place ≡ b
    → Inv exporting s
    → Inv exporting (record s { global = record s.global { stopped = true } })
stopped-Inv exporting s b at v = record {
  operators =
      same-IsLocked (shown (busy s.exporter.place) s.global) _ s.frames s.frames v.operators
        (stopped_shown (busy s.exporter.place)) (λ u. refl) v.operators.stacks;
  export = λ i e.
      let k = v.export i e in
      record { index_lt = k.index_lt; owner = k.owner; depth = k.depth; idle = k.idle };
}
  where
    stopped_shown :
        (c : Option ℕ) (j : ℕ)
        → let g = shown c s.global in
          let g' = shown c (record s.global { stopped = true }) in
          ((g'.per_threads j).mutex.depth ≡ (g.per_threads j).mutex.depth)
          × ((g'.per_threads j).enable ≡ (g.per_threads j).enable)
          × (0 < (g.per_threads j).mutex.depth
              → (g'.per_threads j).mutex.owner ≡ (g.per_threads j).mutex.owner)
    stopped_shown none j = (refl, refl, λ h. refl)
    stopped_shown (some i) j = (refl, refl, λ h. refl)

pub writes-Inv :
    (exporting : ℕ) (s : System) (last : Bool)
    → s.exporter.place ≡ in_pass 8 last
    → Inv exporting s
    → Inv exporting (record s {
      exporter = record {
        place = if last then finished else at_test;
        actions = [];
        out = s.exporter.out ++ s.exporter.actions;
      };
    })
writes-Inv exporting s true at v = place-Inv exporting s _ (ap busy at) v
writes-Inv exporting s false at v = place-Inv exporting s _ (ap busy at) v
