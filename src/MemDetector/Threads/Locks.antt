-- ===== src/MemDetector/Threads/Locks.antt =====
-- What a guard of MemDetector/include/MemDetector.hpp does to the entry of its thread.
use mathlib.Core.Option.{some-injective}
use sallocator.Base.{
  ℕ, suc, ◌%◌, ◌≡◌, ◌≢◌, ◌⊎◌, refl, sym, ap, inl, inr, Bool, true, false, Option, none, some, List,
  [], ◌∷◌, ◌++◌, ◌==◌, Bool-cases, arith,
}
use sallocator.AllocAction.{AllocAction}
use sallocator.MemDetector.{
  RecursiveMutex, lock, unlock, PerThreadData, GlobalData, EnableGuard, Site, set_per_thread,
  get_per_thread, entered, enter, on, leave,
}
use sallocator.MemDetector.Operators.{record_if}
use sallocator.MemDetector.Spec.{Description, event, of_entry}
use sallocator.MemDetector.Slots.{get_per_thread_mod, append_nil}
use sallocator.MemDetector.Threads.{made}

-- The entry of the thread.
abbrev pub entry_of : ℕ → GlobalData → PerThreadData
entry_of tid g = g.per_threads (get_per_thread tid)

none_not_some {ℓ} : {A : Type ℓ} {x : A} → none ≢ some x
none_not_some e = cc e

-- The two ways to take a lock.
pub record Locks (tid : ℕ) (m m' : RecursiveMutex) : Type 0 where
  pub owner : m'.owner ≡ tid
  pub depth : m'.depth ≡ suc m.depth
  pub free : (m.depth ≡ 0) ⊎ (m.owner ≡ tid)

pub lock-Locks : (tid : ℕ) (m m' : RecursiveMutex) → lock tid m ≡ some m' → Locks tid m m'
unfolding lock
lock-Locks tid m m' e = record { owner = ground arith; depth = ground arith; free = ground arith }

pub enter_inv :
    (tid : ℕ) (g : GlobalData) (ena : EnableGuard) (r : Option GlobalData)
    → enter tid (some g) ≡ some (ena, r)
    → (m : RecursiveMutex) × (lock tid (entry_of tid g).mutex ≡ some m)
      × (ena ≡ record {
        tid = tid;
        was_enable = (entry_of tid g).enable;
        per_thread = some (get_per_thread tid);
      })
      × (r
          ≡ some (
              set_per_thread
                (get_per_thread tid)
                (record (entry_of tid g) { mutex = m; enable = false })
                g))
unfolding enter
enter_inv tid g ena r e = inv (lock tid (entry_of tid g).mutex) refl e
  where
    inv :
        (o : Option RecursiveMutex)
        → lock tid (entry_of tid g).mutex ≡ o
        → entered tid (get_per_thread tid) g o ≡ some (ena, r)
        → (m : RecursiveMutex) × (lock tid (entry_of tid g).mutex ≡ some m)
          × (ena ≡ record {
            tid = tid;
            was_enable = (entry_of tid g).enable;
            per_thread = some (get_per_thread tid);
          })
          × (r
              ≡ some (
                  set_per_thread
                    (get_per_thread tid)
                    (record (entry_of tid g) { mutex = m; enable = false })
                    g))
    inv none l q = absurd (none_not_some q)
    inv (some m) l q = (
      m,
      l,
      ap (λ x. x.0) (some-injective _ _ (sym q)),
      ap (λ x. x.1) (some-injective _ _ (sym q)),
    )

-- The guard of a thread.
abbrev pub own : ℕ → Bool → EnableGuard
own tid was = record { tid = tid; was_enable = was; per_thread = some (get_per_thread tid) }

-- Only the actions of the entries have changed: each has got its part of `log`.
abbrev pub Takes : GlobalData → GlobalData → List AllocAction → Type 0
Takes g g' log =
    (j : ℕ)
    → ((g'.per_threads j).mutex ≡ (g.per_threads j).mutex)
      × ((g'.per_threads j).enable ≡ (g.per_threads j).enable)
      × ((g'.per_threads j).actions ≡ (g.per_threads j).actions ++ of_entry j log)

Takes-nothing : (g : GlobalData) → Takes g g []
Takes-nothing g j = (refl, refl, sym (append_nil _))

on-Takes :
    (d : Description) (ptr : ℕ) (site : Site) (g g' : GlobalData)
    → on (own site.tid true) d.op ptr d.size d.align site (some g) ≡ some g'
    → Takes g g' (event d site ptr)
unfolding on
on-Takes d ptr site g g' q = elim (Bool-cases (ptr == 0)) [
  | inl null ↦
      let same : g ≡ g' = some-injective _ _ (rw null at q) in rw (← same, null) (Takes-nothing g)
  | inr live ↦ λ j.
      let same : pushed ≡ g' = some-injective _ _ (rw live at q) in
      elim (Bool-cases (j == get_per_thread site.tid)) [
        | inl at ↦
            let e : j ≡ get_per_thread site.tid = ground arith in
            let owned : ((site.tid % 8) == get_per_thread site.tid) ≡ true =
              ground (arith, get_per_thread_mod site.tid) in
            rw (← same, live, at, e, owned) (refl, refl, refl)
        | inr other ↦
            let foreign : ((site.tid % 8) == j) ≡ false =
              ground (arith, get_per_thread_mod site.tid) in
            rw (← same, live, other, foreign) (refl, refl, sym (append_nil _))
      ]
]
  where
    pushed : GlobalData
    pushed =
        let action : AllocAction = record {
          op = d.op;
          tid = site.tid;
          ptr = ptr;
          size = d.size;
          align = d.align;
          caller = site.caller;
          time = site.time;
        } in
        let p = entry_of site.tid g in
        set_per_thread (get_per_thread site.tid) (record p { actions = p.actions ++ action ∷ [] }) g

pub record_if-Takes :
    (was : Bool) (d : Description) (ptr : ℕ) (site : Site) (g g' : GlobalData)
    → record_if (own site.tid was) d.op ptr d.size d.align site (some g) ≡ some g'
    → Takes g g' (made (own site.tid was) d site ptr)
record_if-Takes true d ptr site g g' q = on-Takes d ptr site g g' q
record_if-Takes false d ptr site g g' q =
    let same : g ≡ g' = some-injective _ _ q in rw (← same) (Takes-nothing g)

pub leave_inv :
    (tid : ℕ) (was : Bool) (g g' : GlobalData)
    → leave (own tid was) (some g) ≡ some g'
    → g'
      ≡ set_per_thread
          (get_per_thread tid)
          (record (entry_of tid g) { enable = was; mutex = unlock (entry_of tid g).mutex })
          g
unfolding leave
leave_inv tid was g g' q = sym (some-injective _ _ q)
