-- ===== src/MemDetector/Slots.antt =====
-- The entries of `GlobalData` in MemDetector/include/MemDetector.hpp, and what a guard does to them.
use mathlib.Core.List.{append_assoc}
use sallocator.Base.{
  ℕ, ◌%◌, ◌<◌, ◌≡◌, refl, sym, ap, ◌∙◌, inl, inr, true, false, some, List, [], ◌∷◌, ◌++◌, arith,
  ◌==◌, Bool-cases,
}
use sallocator.AllocAction.{AllocAction}
use sallocator.MemDetector.{
  RecursiveMutex, lock, PerThreadData, GlobalData, set_per_thread, get_per_thread, EnableGuard,
  enter, Site, on, leave,
}
use sallocator.MemDetector.Operators.{record_if}
use sallocator.MemDetector.Spec.{Description, event, of_entry}

-- The entry of a thread is the one at the remainder of its id modulo 8: the factor 17 does
-- nothing.
pub get_per_thread_mod : (tid : ℕ) → get_per_thread tid ≡ tid % 8
unfolding get_per_thread
get_per_thread_mod tid = omega arith

-- No thread holds a lock, and all entries record.
abbrev pub IsReady : GlobalData → Type 0
IsReady g =
    (i : ℕ) → i < 8 → ((g.per_threads i).mutex.depth ≡ 0) × ((g.per_threads i).enable ≡ true)

-- The entry has got the actions `log`, and is as before otherwise.
pub record Appends (p p' : PerThreadData) (log : List AllocAction) : Type 0 where
  pub actions : p'.actions ≡ p.actions ++ log
  pub enable : p'.enable ≡ p.enable
  pub depth : p'.mutex.depth ≡ p.mutex.depth

-- Each entry has got its part of `log`, and the plot is exported as before.
abbrev pub Logs : GlobalData → GlobalData → List AllocAction → Type 0
Logs g g' log =
    (g'.export_plot_on_exit ≡ g.export_plot_on_exit)
    × ((i : ℕ) → i < 8 → Appends (g.per_threads i) (g'.per_threads i) (of_entry i log))

pub append_nil : (xs : List AllocAction) → xs ++ [] ≡ xs
append_nil [] = refl
append_nil (x ∷ xs) = ap (◌∷◌ x) (append_nil xs)

pub of_entry-append :
    (i : ℕ) (xs ys : List AllocAction) → of_entry i (xs ++ ys) ≡ of_entry i xs ++ of_entry i ys
of_entry-append i [] ys = refl
of_entry-append i (x ∷ xs) ys = elim (Bool-cases ((x.tid % 8) == i)) [
  | inl e ↦ rw e (ap (◌∷◌ x) (of_entry-append i xs ys))
  | inr e ↦ rw e (of_entry-append i xs ys)
]

pub Logs-trans :
    (g g' g'' : GlobalData) (log log' : List AllocAction)
    → Logs g g' log
    → Logs g' g'' log'
    → Logs g g'' (log ++ log')
Logs-trans g g' g'' log log' a b = (
  b.0 ∙ a.0,
  λ i h. record {
    actions =
        rw (of_entry-append i log log', ← append_assoc, ← (a.1 i h).actions) (b.1 i h).actions;
    enable = (b.1 i h).enable ∙ (a.1 i h).enable;
    depth = (b.1 i h).depth ∙ (a.1 i h).depth;
  },
)

pub Logs-IsReady :
    (g g' : GlobalData) (log : List AllocAction) → Logs g g' log → IsReady g → IsReady g'
Logs-IsReady g g' log a r i h = ((a.1 i h).depth ∙ (r i h).0, (a.1 i h).enable ∙ (r i h).1)

-- The state inside a guard, and the guard.
abbrev pub inside : ℕ → GlobalData → GlobalData
inside tid g =
    let i = get_per_thread tid in
    set_per_thread i
      (record (g.per_threads i) { mutex = record { owner = tid; depth = 1 }; enable = false }) g

abbrev pub guard_of : ℕ → EnableGuard
guard_of tid = record { tid = tid; was_enable = true; per_thread = some (get_per_thread tid) }

lock_free :
    (tid : ℕ) (m : RecursiveMutex)
    → m.depth ≡ 0
    → lock tid m ≡ some (record { owner = tid; depth = 1 })
unfolding lock
lock_free tid m e = let free : (m.depth == 0) ≡ true = ground (arith, e) in rw free refl

pub enter-IsReady :
    (tid : ℕ) (g : GlobalData)
    → IsReady g
    → enter tid (some g) ≡ some (guard_of tid, some (inside tid g))
unfolding enter
enter-IsReady tid g r =
    let at = r (get_per_thread tid) (omega (arith, get_per_thread_mod tid)) in
    rw (lock_free tid (g.per_threads (get_per_thread tid)).mutex at.0, at.1) refl

pub leave-Logs :
    (d : Description) (ptr : ℕ) (site : Site) (g : GlobalData)
    → IsReady g
    → (g' : GlobalData) × (leave
          (guard_of site.tid)
          (record_if (guard_of site.tid) d.op ptr d.size d.align site (some (inside site.tid g)))
        ≡ some g')
      × Logs g g' (event d site ptr)
unfolding leave on
leave-Logs d ptr site g r =
    let here : (get_per_thread site.tid == get_per_thread site.tid) ≡ true = ground arith in
    elim (Bool-cases (ptr == 0)) [
      | inl null ↦ rw null (
        _,
        refl,
        (
          refl,
          λ j h. elim (Bool-cases (j == get_per_thread site.tid)) [
            | inl at ↦
                let e : j ≡ get_per_thread site.tid = ground arith in
                rw (at, here, e)
                  (record {
                    actions = sym (append_nil _);
                    enable = sym (rw (← e) (r j h).1);
                    depth = sym (rw (← e) (r j h).0);
                  })
            | inr other ↦
                rw other (record { actions = sym (append_nil _); enable = refl; depth = refl })
          ],
        ),
      )
      | inr live ↦ rw live (
        _,
        refl,
        (
          refl,
          λ j h. elim (Bool-cases (j == get_per_thread site.tid)) [
            | inl at ↦
                let e : j ≡ get_per_thread site.tid = ground arith in
                let owned : ((site.tid % 8) == get_per_thread site.tid) ≡ true =
                  ground (arith, get_per_thread_mod site.tid) in
                rw (at, here, e, owned)
                  (record {
                    actions = refl;
                    enable = sym (rw (← e) (r j h).1);
                    depth = sym (rw (← e) (r j h).0);
                  })
            | inr other ↦
                let foreign : ((site.tid % 8) == j) ≡ false =
                  ground (arith, get_per_thread_mod site.tid) in
                rw (other, foreign)
                  (record { actions = sym (append_nil _); enable = refl; depth = refl })
          ],
        ),
      )
    ]
