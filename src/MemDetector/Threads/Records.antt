-- ===== src/MemDetector/Threads/Records.antt =====
-- What the steps of MemDetector/include/MemDetector.hpp make of the records in the entries.
use mathlib.Core.Option.{some-injective}
use mathlib.Core.List.{append_assoc}
use sallocator.Base.{
  ℕ, ◌%◌, ◌<◌, ◌≡◌, ◌≢◌, refl, ◌∙◌, ap, inl, inr, Bool, true, false, some, List, [], ◌∷◌, ◌++◌,
  ◌==◌, Bool-cases, arith, All,
}
use sallocator.AllocAction.{AllocAction}
use sallocator.MemDetector.{
  RecursiveMutex, GlobalData, EnableGuard, Site, get_per_thread, set_per_thread, enter, leave,
}
use sallocator.MemDetector.Spec.{of_entry, Description, event}
use sallocator.MemDetector.Slots.{get_per_thread_mod, append_nil, of_entry-append}
use sallocator.MemDetector.Threads.{System, made, drained}
use sallocator.MemDetector.Threads.Locks.{entry_of, enter_inv, own, Takes, leave_inv}

abbrev IsOf : ℕ → AllocAction → Type 0
IsOf i a = a.tid % 8 ≡ i

-- What has left the entries, and what they hold, makes up the log, entry by entry.
pub record IsKept (g : GlobalData) (gone log : List AllocAction) : Type 0 where
  pub total : (i : ℕ) → i < 8 → of_entry i gone ++ (g.per_threads i).actions ≡ of_entry i log
  pub home : (i : ℕ) → i < 8 → All (IsOf i) (g.per_threads i).actions

All-append :
    (i : ℕ) (xs ys : List AllocAction) → All (IsOf i) xs → All (IsOf i) ys → All (IsOf i) (xs ++ ys)
All-append i [] ys h k = k
All-append i (x ∷ xs) ys h k = (h.0, All-append i xs ys h.1 k)

of_entry-All : (i : ℕ) (xs : List AllocAction) → All (IsOf i) (of_entry i xs)
of_entry-All i [] = tt
of_entry-All i (x ∷ xs) = elim (Bool-cases ((x.tid % 8) == i)) [
  | inl at ↦ rw at (ground arith, of_entry-All i xs)
  | inr off ↦ rw off (of_entry-All i xs)
]

of_entry_same : (i : ℕ) (xs : List AllocAction) → All (IsOf i) xs → of_entry i xs ≡ xs
of_entry_same i [] h = refl
of_entry_same i (x ∷ xs) h =
    let at : ((x.tid % 8) == i) ≡ true = ground (arith, h.0) in
    rw at (ap (◌∷◌ x) (of_entry_same i xs h.1))

of_entry_other : (i j : ℕ) (xs : List AllocAction) → i ≢ j → All (IsOf i) xs → of_entry j xs ≡ []
of_entry_other i j [] ne h = refl
of_entry_other i j (x ∷ xs) ne h =
    let off : ((x.tid % 8) == j) ≡ false = ground (arith, h.0) in
    rw off (of_entry_other i j xs ne h.1)

-- A step that leaves the actions of all entries.
pub same-IsKept :
    (g g' : GlobalData) (gone log : List AllocAction)
    → ((j : ℕ) → (g'.per_threads j).actions ≡ (g.per_threads j).actions)
    → IsKept g gone log
    → IsKept g' gone log
same-IsKept g g' gone log same k = record {
  total = λ i h. rw (same i) (k.total i h);
  home = λ i h. rw (same i) (k.home i h);
}

pub enters-actions :
    (tid : ℕ) (ena : EnableGuard) (g g' : GlobalData)
    → enter tid (some g) ≡ some (ena, some g')
    → (j : ℕ) → (g'.per_threads j).actions ≡ (g.per_threads j).actions
enters-actions tid ena g g' e =
    let (m, taken, guard, after) = enter_inv tid g ena (some g') e in
    let state : g'
        ≡ set_per_thread (get_per_thread tid)
            (record (entry_of tid g) { mutex = m; enable = false }) g =
      some-injective _ _ after in
    λ j. elim (Bool-cases (j == get_per_thread tid)) [
      | inl at ↦ let e : j ≡ get_per_thread tid = ground arith in rw (state, at, e) refl
      | inr off ↦ rw (state, off) refl
    ]

pub leaves-actions :
    (tid : ℕ) (was : Bool) (g g' : GlobalData)
    → leave (own tid was) (some g) ≡ some g'
    → (j : ℕ) → (g'.per_threads j).actions ≡ (g.per_threads j).actions
leaves-actions tid was g g' e =
    let state = leave_inv tid was g g' e in
    λ j. elim (Bool-cases (j == get_per_thread tid)) [
      | inl at ↦ let e : j ≡ get_per_thread tid = ground arith in rw (state, at, e) refl
      | inr off ↦ rw (state, off) refl
    ]

pub locks-actions :
    (i : ℕ) (m : RecursiveMutex) (g : GlobalData) (j : ℕ)
    → ((set_per_thread i (record (g.per_threads i) { mutex = m }) g).per_threads j).actions
      ≡ (g.per_threads j).actions
locks-actions i m g j = elim (Bool-cases (j == i)) [
  | inl at ↦ let e : j ≡ i = ground (arith, at) in rw (at, e) refl
  | inr off ↦ rw off refl
]

-- The records of another entry stay.
pub records-other :
    (d : Description) (site : Site) (ptr : ℕ) (was : Bool) (g g' : GlobalData)
    → Takes g g' (made (own site.tid was) d site ptr)
    → (j : ℕ) → get_per_thread site.tid ≢ j
    → (g'.per_threads j).actions ≡ (g.per_threads j).actions
records-other d site ptr was g g' takes j ne =
    let home : site.tid % 8 ≢ j = λ e. ne (omega (arith, get_per_thread_mod site.tid, e)) in
    (takes j).2
    ∙ ap (λ xs. (g.per_threads j).actions ++ xs)
        (of_entry_other (site.tid % 8) j _ home (made-IsOf was))
    ∙ append_nil (g.per_threads j).actions
  where
    event-IsOf : All (IsOf (site.tid % 8)) (event d site ptr)
    event-IsOf = elim (Bool-cases (ptr == 0)) [
      | inl null ↦ rw null tt
      | inr live ↦ rw live (refl, tt)
    ]

    made-IsOf : (b : Bool) → All (IsOf (site.tid % 8)) (made (own site.tid b) d site ptr)
    made-IsOf true = event-IsOf
    made-IsOf false = tt

pub records-IsKept :
    (g g' : GlobalData) (gone log new : List AllocAction)
    → Takes g g' new
    → IsKept g gone log
    → IsKept g' gone (log ++ new)
records-IsKept g g' gone log new t k = record {
  total = λ i h. rw ((t i).2, of_entry-append i log new, ← k.total i h, append_assoc) refl;
  home = λ i h. rw ((t i).2) (All-append i _ _ (k.home i h) (of_entry-All i new));
}

pub drains-IsKept :
    (i : ℕ) (g : GlobalData) (gone log : List AllocAction)
    → i < 8
    → IsKept g gone log
    → IsKept (drained i g) (gone ++ (g.per_threads i).actions) log
drains-IsKept i g gone log lt k = record {
  total = λ j h. elim (Bool-cases (j == i)) [
    | inl at ↦
        let e : j ≡ i = ground arith in
        rw
          (
            at,
            e,
            of_entry-append i gone (g.per_threads i).actions,
            of_entry_same i (g.per_threads i).actions (k.home i lt),
            append_nil (of_entry i gone ++ (g.per_threads i).actions),
          )
          (k.total i lt)
    | inr off ↦
        let ne : i ≢ j = ground arith in
        rw
          (
            off,
            of_entry-append j gone (g.per_threads i).actions,
            of_entry_other i j (g.per_threads i).actions ne (k.home i lt),
            append_nil (of_entry j gone),
          )
          (k.total j h)
  ];
  home = λ j h. elim (Bool-cases (j == i)) [ inl at ↦ rw at tt | inr off ↦ rw off (k.home j h) ];
}

unfoldable pub gone : System → List AllocAction
gone s = s.exporter.out ++ s.exporter.actions
