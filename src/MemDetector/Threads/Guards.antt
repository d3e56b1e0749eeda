-- ===== src/MemDetector/Threads/Guards.antt =====
-- What the ends of a guard of MemDetector/include/MemDetector.hpp and its record do to the locks.
use mathlib.Core.Option.{some-injective}
use sallocator.Base.{
  ℕ, suc, ◌<◌, ◌≡◌, Option, refl, ap, subst, ◌∙◌, inl, inr, true, false, some, List, [], ◌∷◌, ◌==◌,
  Bool-cases, arith, length,
}
use sallocator.MemDetector.{
  unlock, GlobalData, EnableGuard, Site, set_per_thread, get_per_thread, enter, leave,
}
use sallocator.MemDetector.Operators.{record_if}
use sallocator.MemDetector.Threads.{constructed, recorded, Frame, update}
use sallocator.MemDetector.Threads.Locks.{
  entry_of, lock-Locks, enter_inv, record_if-Takes, leave_inv,
}
use sallocator.MemDetector.Spec.{Description}
use sallocator.MemDetector.Threads.Busy.{shown, shown-Takes}
use sallocator.MemDetector.Threads.Held.{
  is_outer, IsStack, IsLocked, change-IsLocked, same-IsLocked, locks-alone, locks-depth,
}

pub enters-IsLocked :
    (tid : ℕ) (ena : EnableGuard) (g g' : GlobalData) (frames : ℕ → List Frame)
    → enter tid (some g) ≡ some (ena, some g')
    → IsLocked g frames
    → IsLocked g' (update tid (record { ena = ena; stage = constructed } ∷ frames tid) frames)
enters-IsLocked tid ena g g' frames e l =
    let (m, taken, guard, after) = enter_inv tid g ena (some g') e in
    let state : g'
        ≡ set_per_thread (get_per_thread tid)
            (record (entry_of tid g) { mutex = m; enable = false }) g =
      some-injective _ _ after in
    let k = lock-Locks tid (entry_of tid g).mutex m taken in
    let (deep, on) = locks-depth g frames l tid k.free (frames tid) refl in
    let self : (get_per_thread tid == get_per_thread tid) ≡ true = ground arith in
    change-IsLocked g g' frames tid _ (record (entry_of tid g) { mutex = m; enable = false }) l
      (rw (state, self) refl)
      (λ j ne.
        let other : (j == get_per_thread tid) ≡ false = ground arith in rw (state, other) refl)
      (locks-alone g frames l tid k.free) (rw (guard, on) refl, l.stacks tid)
      (λ h. (k.owner, k.depth ∙ ap suc deep, refl)) (λ z. absurd (omega (arith, z)))

pub leaves-IsLocked :
    (tid : ℕ) (ena : EnableGuard) (rest : List Frame) (g g' : GlobalData) (frames : ℕ → List Frame)
    → frames tid ≡ record { ena = ena; stage = recorded } ∷ rest
    → leave ena (some g) ≡ some g'
    → IsLocked g frames
    → IsLocked g' (update tid rest frames)
leaves-IsLocked tid ena rest g g' frames at e l =
    let (guard, stack) : IsStack tid (record { ena = ena; stage = recorded } ∷ rest) =
      rw at at (l.stacks tid) in
    let state = leave_inv tid (is_outer rest) g g' (rw guard at e) in
    let h : 0 < length (frames tid) = rw at (omega arith) in
    let (owner, deep, off) = l.held tid h in
    let deep' : (entry_of tid g).mutex.depth ≡ suc (length rest) = deep ∙ ap length at in
    let self : (get_per_thread tid == get_per_thread tid) ≡ true = ground arith in
    change-IsLocked g g' frames tid rest
      (record (entry_of tid g) { enable = is_outer rest; mutex = unlock (entry_of tid g).mutex }) l
      (rw (state, self) refl)
      (λ j ne.
        let other : (j == get_per_thread tid) ≡ false = ground arith in rw (state, other) refl)
      (locks-alone g frames l tid (inr owner)) stack
      (λ s. (owner, omega (arith, deep'), inner rest s))
      (λ z. (omega (arith, deep', z), outer rest z))
  where
    inner : (fs : List Frame) → 0 < length fs → is_outer fs ≡ false
    inner [] s = absurd (omega (arith, s))
    inner (f ∷ fs) s = refl

    outer : (fs : List Frame) → length fs ≡ 0 → is_outer fs ≡ true
    outer [] z = refl
    outer (f ∷ fs) z = absurd (omega (arith, z))

pub records-IsLocked :
    (d : Description) (site : Site) (ptr : ℕ) (ena : EnableGuard) (rest : List Frame)
    (g g' : GlobalData) (frames : ℕ → List Frame)
    → (b : Option ℕ) → frames site.tid ≡ record { ena = ena; stage = constructed } ∷ rest
    → record_if ena d.op ptr d.size d.align site (some g) ≡ some g'
    → IsLocked (shown b g) frames
    → IsLocked (shown b g') (update site.tid (record { ena = ena; stage = recorded } ∷ rest) frames)
records-IsLocked d site ptr ena rest g g' frames b at e l =
    let (guard, stack) : IsStack site.tid (record { ena = ena; stage = constructed } ∷ rest) =
      rw at at (l.stacks site.tid) in
    let takes = record_if-Takes (is_outer rest) d ptr site g g' (rw guard at e) in
    same-IsLocked (shown b g) (shown b g') frames _ l (shown-Takes b g g' _ takes)
      (λ u. elim (Bool-cases (u == site.tid)) [
        | inl is ↦ let e : u ≡ site.tid = ground arith in rw (is, e, at) refl
        | inr off ↦ rw off refl
      ])
      (λ u. elim (Bool-cases (u == site.tid)) [
        | inl is ↦
            let e : site.tid ≡ u = ground arith in
            let self : (site.tid == site.tid) ≡ true = ground arith in
            let own_stack : IsStack site.tid (now site.tid) = rw self (guard, stack) in
            subst (λ v. IsStack v (now v)) e own_stack
        | inr off ↦ rw off (l.stacks u)
      ])
  where
    now : ℕ → List Frame
    now = update site.tid (record { ena = ena; stage = recorded } ∷ rest) frames
