-- ===== src/MemDetector/Threads/Holders.antt =====
-- A thread with a guard of MemDetector/include/MemDetector.hpp can go on.
use sallocator.Base.{
  ℕ, suc, ◌%◌, ◌<◌, ◌≡◌, ◌≢◌, ◌⊎◌, refl, sym, ap, subst, ◌∙◌, inl, inr, Bool, true, false, none,
  some, List, [], ◌∷◌, ◌==◌, Bool-cases, arith, length,
}
use sallocator.MemDetector.{
  RecursiveMutex, lock, unlock, GlobalData, EnableGuard, Site, set_per_thread, get_per_thread,
  enter, on, leave,
}
use sallocator.MemDetector.Operators.{record_if}
use sallocator.MemDetector.Spec.{Call, Description, describe}
use sallocator.MemDetector.Threads.{
  Stage, constructed, recorded, Frame, System, update, Step, enters, records, leaves, busy,
}
use sallocator.MemDetector.Threads.Locks.{entry_of, own}
use sallocator.MemDetector.Threads.Held.{is_outer, IsStack}
use sallocator.MemDetector.Threads.Busy.{Inv, held_real}

-- The thread `t` can make a step: a call starts, goes on or ends.
abbrev pub Moves : ℕ → System → ℕ → Type 0
Moves exporting s t = (s' : System) × Step exporting s s' × (s'.frames t ≢ s.frames t)

-- A guard makes any record, and then ends.
abbrev pub GoesOn : GlobalData → ℕ → EnableGuard → Stage → Type 0
GoesOn g t ena constructed =
    (d : Description) (site : Site) (ptr : ℕ)
    → site.tid ≡ t
    → (g' : GlobalData) × (record_if ena d.op ptr d.size d.align site (some g) ≡ some g')
GoesOn g t ena recorded = (g' : GlobalData) × (leave ena (some g) ≡ some g')

-- What the thread `t`, with the guards `fs`, can do next succeeds: a call of an operator, which
-- finds the entry switched off where a guard is in force, and what comes next for the innermost
-- guard.
abbrev pub Goes : GlobalData → ℕ → List Frame → Type 0
Goes g t [] = (ena : EnableGuard) × (g' : GlobalData) × (enter t (some g) ≡ some (ena, some g'))
Goes g t (f ∷ rest) =
    ((ena : EnableGuard) × (g' : GlobalData) × (enter t (some g) ≡ some (ena, some g'))
      × (ena.was_enable ≡ false))
    × GoesOn g t f.ena f.stage

abbrev pub Runs : ℕ → System → ℕ → Type 0
Runs exporting s t = Goes s.global t (s.frames t) × Moves exporting s t

-- The thread `t` runs no operator, and another thread of the same entry does, and can go on.
abbrev pub Waits : ℕ → System → ℕ → Type 0
Waits exporting s t =
    (s.frames t ≡ [])
    × (u : ℕ) × (u ≢ t)
    × (u % 8 ≡ t % 8)
    × (0 < length (s.frames u))
    × Runs exporting s u

-- The thread `t` runs no operator, and the export thread is this thread or has locked its entry, and
-- can go on in the lines between the lock and its end.
abbrev pub WaitsForExport : ℕ → System → ℕ → Type 0
WaitsForExport exporting s t =
    (s.frames t ≡ [])
    × (i : ℕ) × (busy s.exporter.place ≡ some i)
    × ((t ≡ exporting) ⊎ (get_per_thread t ≡ i))
    × ((s' : System) × Step exporting s s' × (s'.exporter.place ≢ s.exporter.place))

abbrev quiet_site : ℕ → Site
quiet_site t = record { tid = t; caller = 0; time = 0 }

record_null :
    (t : ℕ) (was : Bool) (d : Description) (g : GlobalData)
    → record_if (own t was) d.op 0 d.size d.align (quiet_site t) (some g) ≡ some g
unfolding on
record_null t true d g = refl
record_null t false d g = refl

-- A guard with an entry makes any record.
record_some :
    (t : ℕ) (was : Bool) (d : Description) (site : Site) (ptr : ℕ) (g : GlobalData)
    → (g' : GlobalData) × (record_if (own t was) d.op ptr d.size d.align site (some g) ≡ some g')
unfolding on
record_some t false d site ptr g = (g, refl)
record_some t true d site ptr g = elim (Bool-cases (ptr == 0)) [
  | inl null ↦ rw null (g, refl)
  | inr live ↦ rw live (_, refl)
]

-- The owner of a lock can take it once more.
lock-own : (t : ℕ) (m : RecursiveMutex) → m.owner ≡ t → (m' : RecursiveMutex) × (lock t m ≡ some m')
unfolding lock
lock-own t m e = elim (Bool-cases (m.depth == 0)) [
  | inl none_held ↦ rw none_held (_, refl)
  | inr held ↦ let mine : (m.owner == t) ≡ true = ground (arith, e) in rw (held, mine) (_, refl)
]

update_self : (t : ℕ) (fs : List Frame) (frames : ℕ → List Frame) → update t fs frames t ≡ fs
update_self t fs frames = let self : (t == t) ≡ true = ground arith in rw self refl

stage_differs :
    (ena : EnableGuard) (rest : List Frame)
    → ◌≢◌ {A = List Frame}
        (record { ena = ena; stage = recorded } ∷ rest)
        (record { ena = ena; stage = constructed } ∷ rest)
stage_differs ena rest e = cc e

-- The states after the destructor and after the constructor of a guard.
abbrev pub left : ℕ → Bool → GlobalData → GlobalData
left t was g =
    let p = entry_of t g in
    set_per_thread (get_per_thread t) (record p { enable = was; mutex = unlock p.mutex }) g

abbrev pub built : ℕ → RecursiveMutex → GlobalData → GlobalData
built t m g =
    set_per_thread (get_per_thread t) (record (entry_of t g) { mutex = m; enable = false }) g

module _ (exporting : ℕ) (s : System) (v : Inv exporting s) (t : ℕ) where
  guard_eq : (f : Frame) (rest : List Frame) → s.frames t ≡ f ∷ rest → f.ena ≡ own t (is_outer rest)
  guard_eq f rest at = let stack : IsStack t (f ∷ rest) = rw at at (v.operators.stacks t) in stack.0

  -- A nested operator takes the lock once more, and records nothing.
  nested :
      0 < length (s.frames t)
      → (ena : EnableGuard) × (g' : GlobalData) × (enter t (some s.global) ≡ some (ena, some g'))
        × (ena.was_enable ≡ false)
  unfolding enter
  nested h =
      let (owner, deep, off) =
        held_real s.global s.frames (busy s.exporter.place) t v.operators h in
      let (m, taken) = lock-own t (entry_of t s.global).mutex owner in
      (own t (entry_of t s.global).enable, built t m s.global, rw taken refl, off)

  own-GoesOn : (was : Bool) (st : Stage) → GoesOn s.global t (own t was) st
  unfolding leave
  own-GoesOn was constructed = λ d site ptr same.
      subst
        (λ v.
          (g' : GlobalData) × (record_if (own v was) d.op ptr d.size d.align site (some s.global)
            ≡ some g'))
        same (record_some site.tid was d site ptr s.global)
  own-GoesOn was recorded = (left t was s.global, refl)

  pub holder-Goes : (fs : List Frame) → s.frames t ≡ fs → 0 < length fs → Goes s.global t fs
  holder-Goes [] at h = absurd (omega (arith, h))
  holder-Goes (f ∷ rest) at h =
      (nested (rw at h), rw (guard_eq f rest at) (own-GoesOn (is_outer rest) f.stage))

  constructed-Moves :
      (ena : EnableGuard) (rest : List Frame)
      → s.frames t ≡ record { ena = ena; stage = constructed } ∷ rest
      → Moves exporting s t
  unfolding describe
  constructed-Moves ena rest at =
      let d : Description = describe (Call.delete 0) in
      let runs : record_if ena d.op 0 d.size d.align (quiet_site t) (some s.global)
          ≡ some s.global =
        rw (guard_eq _ rest at) (record_null t (is_outer rest) d s.global) in
      (
        _,
        records d (quiet_site t) 0 ena rest s.global at runs,
        λ e. stage_differs ena rest (sym (update_self t _ s.frames) ∙ e ∙ at),
      )

  recorded-Moves :
      (ena : EnableGuard) (rest : List Frame)
      → s.frames t ≡ record { ena = ena; stage = recorded } ∷ rest
      → Moves exporting s t
  unfolding leave
  recorded-Moves ena rest at = (
    _,
    leaves t ena rest (left t (is_outer rest) s.global) at (rw (guard_eq _ rest at) refl),
    λ e. longer rest (ap length (sym (update_self t rest s.frames) ∙ e ∙ at)),
  )
    where
      longer : (fs : List Frame) → length fs ≢ suc (length fs)
      longer fs e = omega (arith, e)

  pub idle-Moves :
      (m : RecursiveMutex)
      → (t ≡ exporting → busy s.exporter.place ≡ none)
      → s.frames t ≡ []
      → lock t (entry_of t s.global).mutex ≡ some m
      → Moves exporting s t
  unfolding enter
  idle-Moves m outside at e = (
    _,
    enters t (own t (entry_of t s.global).enable) (built t m s.global) (rw at tt) outside
        (rw e refl),
    λ q. zero_suc (ap length (sym at ∙ sym q ∙ update_self t _ s.frames)),
  )
    where
      zero_suc : {n : ℕ} → 0 ≢ suc n
      zero_suc e = omega (arith, e)

  -- A thread with a guard can go on.
  pub holder-Moves : (fs : List Frame) → s.frames t ≡ fs → 0 < length fs → Moves exporting s t
  holder-Moves [] at h = absurd (omega (arith, h))
  holder-Moves (f ∷ rest) at h = by_stage f.stage refl
    where
      renamed : (st : Stage) → f.stage ≡ st → s.frames t ≡ record { ena = f.ena; stage = st } ∷ rest
      renamed st e = at ∙ ap (λ st. record { ena = f.ena; stage = st } ∷ rest) e

      by_stage : (st : Stage) → f.stage ≡ st → Moves exporting s t
      by_stage constructed e = constructed-Moves f.ena rest (renamed constructed e)
      by_stage recorded e = recorded-Moves f.ena rest (renamed recorded e)

pub lock-none : (t : ℕ) (m : RecursiveMutex) → lock t m ≡ none → (0 < m.depth) × (m.owner ≢ t)
unfolding lock
lock-none t m e = (ground arith, ground arith)
