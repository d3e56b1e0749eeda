-- ===== src/MemDetector.antt =====
-- MemDetector/include/MemDetector.hpp: the records of the allocations of each thread, the guard that
-- switches them off while an operator runs, and the operators that replace `new` and `delete`. The
-- plotting of the records is commented out in the sources, and so left out.
pub mod Operators
pub mod Slots
pub mod Spec
pub mod Calls
pub mod Refines
pub mod Nested
pub mod Export
pub mod Threads
pub mod Msvc
mod Tests
use sallocator.Base.{
  ℕ, suc, zero, ◌+◌, ◌-◌, ◌%◌, Bool, true, false, Option, none, some, List, [], ◌∷◌, ◌++◌, mul64,
  ◌==◌, if◌then◌else◌,
}
use sallocator.AllocAction.{AllocOp, AllocAction}

-- `std::recursive_mutex`: the thread that holds it, and how often it has locked it.
pub record RecursiveMutex : Type 0 where
  pub owner : ℕ
  pub depth : ℕ

-- `none`: the thread has to wait.
unfoldable pub lock : ℕ → RecursiveMutex → Option RecursiveMutex
lock tid m =
    if m.depth == 0
    then some (record { owner = tid; depth = 1 })
    else (if m.owner == tid then some (record { owner = tid; depth = suc m.depth }) else none)

abbrev pub unlock : RecursiveMutex → RecursiveMutex
unlock m = record m { depth = m.depth - 1 }

-- `lock` is the field of the same name, renamed since a function has it.
pub record PerThreadData : Type 0 where
  pub mutex : RecursiveMutex
  pub actions : List AllocAction
  pub enable : Bool

abbrev pub k_per_threads_count : ℕ
k_per_threads_count = 8

-- `per_threads i` is the entry of the array at `i`, below `kPerThreadsCount`.
pub record GlobalData : Type 0 where
  pub per_threads : ℕ → PerThreadData
  pub export_plot_on_exit : Bool
  pub stopped : Bool

abbrev pub set_per_thread : ℕ → PerThreadData → GlobalData → GlobalData
set_per_thread i p g = record g { per_threads = λ j. if j == i then p else g.per_threads j }

-- A loop over the entries: `enable = on` for the first `n` of them.
unfoldable pub set_enable : ℕ → Bool → GlobalData → GlobalData
set_enable zero on g = g
set_enable (suc n) on g =
    let g' = set_enable n on g in set_per_thread n (record (g'.per_threads n) { enable = on }) g'

-- An entry before the constructor of `GlobalData` runs.
abbrev no_per_thread : PerThreadData
no_per_thread = record { mutex = record { owner = 0; depth = 0 }; actions = []; enable = false }

-- `GlobalData()`
unfoldable pub new_global : GlobalData
new_global =
    set_enable k_per_threads_count true
      (record { per_threads = λ i. no_per_thread; export_plot_on_exit = true; stopped = false })

-- The actions of the first `n` entries, one entry after the other.
unfoldable pub all_actions : ℕ → GlobalData → List AllocAction
all_actions zero g = []
all_actions (suc n) g = all_actions n g ++ (g.per_threads n).actions

-- `~GlobalData()`: the vector that it collects, and the state that it leaves. No export thread
-- runs.
unfoldable pub delete_global : GlobalData → List AllocAction × GlobalData
delete_global g =
    let g' = set_enable k_per_threads_count false g in
    (if g.export_plot_on_exit then all_actions k_per_threads_count g' else [], g')

-- `mallocvis_init` and `mallocvis_deinit`, on the variable `global`.
unfoldable pub mallocvis_init : Option GlobalData → Option GlobalData
mallocvis_init global = some new_global

unfoldable pub mallocvis_deinit : Option GlobalData → List AllocAction × Option GlobalData
unfolding delete_global
mallocvis_deinit none = ([], none)
mallocvis_deinit (some g) = ((delete_global g).0, none)

-- `get_per_thread`: the index of the entry.
unfoldable pub get_per_thread : ℕ → ℕ
get_per_thread tid = mul64 tid 17 % k_per_threads_count

-- `per_thread` is the index of the entry, or the null pointer.
pub record EnableGuard : Type 0 where
  pub tid : ℕ
  pub was_enable : Bool
  pub per_thread : Option ℕ

-- `operator bool`
abbrev pub to_bool : EnableGuard → Bool
to_bool guard = guard.was_enable

-- What the constructor does once it has the lock, if it gets it.
abbrev pub entered :
    ℕ → ℕ → GlobalData → Option RecursiveMutex → Option (EnableGuard × Option GlobalData)
entered tid i g none = none
entered tid i g (some m) =
    let p = g.per_threads i in
    some (
      record { tid = tid; was_enable = p.enable; per_thread = some i },
      some (set_per_thread i (record p { mutex = m; enable = false }) g),
    )

-- `EnableGuard()`. `none`: the thread waits for the lock.
unfoldable pub enter : ℕ → Option GlobalData → Option (EnableGuard × Option GlobalData)
enter tid none = some (record { tid = tid; was_enable = false; per_thread = none }, none)
enter tid (some g) =
    let i = get_per_thread tid in entered tid i g (lock tid (g.per_threads i).mutex)

-- Where a call stands and when it runs: the thread, the return address and the clock.
pub record Site : Type 0 where
  pub tid : ℕ
  pub caller : ℕ
  pub time : ℕ

-- `EnableGuard::on`, which runs only if the guard has an entry.
unfoldable pub on :
    EnableGuard → AllocOp → (ptr size align : ℕ) → Site → Option GlobalData → Option GlobalData
on guard op ptr size align site none = none
on guard op ptr size align site (some g) = if ptr == 0 then some g else elim guard.per_thread [
  | none ↦ some g
  | some i ↦
      let action : AllocAction = record {
        op = op;
        tid = guard.tid;
        ptr = ptr;
        size = size;
        align = align;
        caller = site.caller;
        time = site.time;
      } in
      let p = g.per_threads i in
      some (set_per_thread i (record p { actions = p.actions ++ action ∷ [] }) g)
]

-- `~EnableGuard()`
unfoldable pub leave : EnableGuard → Option GlobalData → Option GlobalData
leave guard none = none
leave guard (some g) = elim guard.per_thread [
  | none ↦ some g
  | some i ↦
      let p = g.per_threads i in
      some (set_per_thread i (record p { enable = guard.was_enable; mutex = unlock p.mutex }) g)
]
