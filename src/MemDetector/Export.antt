-- ===== src/MemDetector/Export.antt =====
-- The constructor and the destructor of `GlobalData` in MemDetector/include/MemDetector.hpp, around
-- all that is recorded between them.
use mathlib.Core.List.{perm_middle}
use mathlib.Core.List.Perm
use sallocator.Base.{
  ℕ, zero, suc, ◌%◌, ◌≤◌, ◌<◌, ◌≡◌, refl, ap, ◌∙◌, Bool, true, false, some, List, [], ◌∷◌, ◌++◌,
  ◌==◌, if◌then◌else◌, Bool-cases, inl, inr, arith, Perm,
}
use sallocator.AllocAction.{AllocAction}
use sallocator.MemDetector.{GlobalData, Site, set_enable, new_global, all_actions, delete_global}
use sallocator.MemDetector.Operators.{Libc}
use sallocator.MemDetector.Spec.{Call, spec_run, run, of_entry}
use sallocator.MemDetector.Slots.{IsReady}
use sallocator.MemDetector.Refines.{run-Logs, in_state}

set_enable_above :
    (n : ℕ) (on : Bool) (g : GlobalData) (i : ℕ)
    → n ≤ i
    → (set_enable n on g).per_threads i ≡ g.per_threads i
unfolding set_enable
set_enable_above zero on g i h = refl
set_enable_above (suc n) on g i h =
    let other : (i == n) ≡ false = ground arith in
    rw (other, set_enable_above n on g i (omega arith)) refl

set_enable_below :
    (n : ℕ) (on : Bool) (g : GlobalData) (i : ℕ)
    → i < n
    → (set_enable n on g).per_threads i ≡ record (g.per_threads i) { enable = on }
unfolding set_enable
set_enable_below zero on g i h = absurd (omega arith)
set_enable_below (suc n) on g i h = elim (Bool-cases (i == n)) [
  | inl at ↦
      let e : i ≡ n = ground arith in rw (at, e, set_enable_above n on g n (omega arith)) refl
  | inr other ↦ let lt : i < n = ground arith in rw (other, set_enable_below n on g i lt) refl
]

set_enable_exports :
    (n : ℕ) (on : Bool) (g : GlobalData)
    → (set_enable n on g).export_plot_on_exit ≡ g.export_plot_on_exit
unfolding set_enable
set_enable_exports zero on g = refl
set_enable_exports (suc n) on g = set_enable_exports n on g

new_global_exports : new_global.export_plot_on_exit ≡ true
unfolding new_global
new_global_exports = set_enable_exports 8 true _

pub new_global-IsReady : IsReady new_global
unfolding new_global
new_global-IsReady i h = rw (set_enable_below 8 true _ i h) (refl, refl)

pub new_global-actions : (i : ℕ) → i < 8 → (new_global.per_threads i).actions ≡ []
unfolding new_global
new_global-actions i h = rw (set_enable_below 8 true _ i h) refl

-- The entries' parts of a log, one after the other.
abbrev pub by_entries : ℕ → List AllocAction → List AllocAction
by_entries zero log = []
by_entries (suc n) log = by_entries n log ++ of_entry n log

all_actions_eq :
    (n : ℕ) (g : GlobalData) (log : List AllocAction)
    → ((i : ℕ) → i < n → (g.per_threads i).actions ≡ of_entry i log)
    → all_actions n g ≡ by_entries n log
unfolding all_actions
all_actions_eq zero g log h = refl
all_actions_eq (suc n) g log h =
    rw (all_actions_eq n g log (λ i lt. h i (omega arith)), h n (omega arith)) refl

by_entries_none : (n : ℕ) → by_entries n [] ≡ []
by_entries_none zero = refl
by_entries_none (suc n) = rw (by_entries_none n) refl

-- An action goes into the part of its entry, and no other.
by_entries_skip :
    (n : ℕ) (a : AllocAction) (log : List AllocAction)
    → n ≤ a.tid % 8
    → by_entries n (a ∷ log) ≡ by_entries n log
by_entries_skip zero a log h = refl
by_entries_skip (suc n) a log h =
    let other : ((a.tid % 8) == n) ≡ false = ground arith in
    rw (other, by_entries_skip n a log (omega arith)) refl

by_entries_cons :
    (n : ℕ) (a : AllocAction) (log : List AllocAction)
    → a.tid % 8 < n
    → Perm (by_entries n (a ∷ log)) (a ∷ by_entries n log)
by_entries_cons zero a log h = absurd (omega arith)
by_entries_cons (suc n) a log h = elim (Bool-cases ((a.tid % 8) == n)) [
  | inl at ↦
      rw (at, by_entries_skip n a log (ground arith))
        (perm_middle (by_entries n log) (of_entry n log))
  | inr other ↦
      rw other (Perm.append_right (of_entry n log) (by_entries_cons n a log (ground arith)))
]

pub by_entries-Perm : (log : List AllocAction) → Perm (by_entries 8 log) log
by_entries-Perm [] = rw (by_entries_none 8) (Perm.refl _)
by_entries-Perm (a ∷ log) =
    Perm.trans (by_entries_cons 8 a log (omega arith)) (Perm.cons a (by_entries-Perm log))

delete_global_eq :
    (g : GlobalData) (log : List AllocAction)
    → g.export_plot_on_exit ≡ true
    → ((i : ℕ) → i < 8 → (g.per_threads i).actions ≡ of_entry i log)
    → (delete_global g).0 ≡ by_entries 8 log
unfolding delete_global
delete_global_eq g log exports h =
    ap (λ (b : Bool). if b then all_actions 8 (set_enable 8 false g) else []) exports
    ∙ all_actions_eq 8 (set_enable 8 false g) log
        (λ i lt. rw (set_enable_below 8 false g i lt) (h i lt))

module _ (L : Libc) where
  -- Any sequence of calls of the twenty operators by any threads, one after the other from the
  -- constructor of GlobalData on, runs to its end and leaves the library in the state that its own
  -- functions leave; the destructor then collects, up to order, one record for each call that got
  -- or freed a pointer, with its operation, thread, pointer, size, alignment, caller and time.
  pub delete_global-run :
      (cs : List (Call × Site)) (s : L.State)
      → (g : GlobalData) × (run L cs (in_state L s new_global)
          ≡ some (in_state L (spec_run L cs s).1 g))
        × Perm (delete_global g).0 (spec_run L cs s).0
  delete_global-run cs s =
      let (g, ran, (exports, logs)) = run-Logs L cs s new_global new_global-IsReady in
      let collected : (delete_global g).0 ≡ by_entries 8 (spec_run L cs s).0 =
        delete_global_eq g _ (exports ∙ new_global_exports) (λ i h.
          (logs i h).actions
          ∙ ap (◌++ (of_entry i (spec_run L cs s).0)) (new_global-actions i h)) in
      (g, ran, rw collected (by_entries-Perm _))
