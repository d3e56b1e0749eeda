-- ===== src/MemDetector/Nested.antt =====
-- Calls of the operators of MemDetector/include/MemDetector.hpp while a guard of the thread, or of
-- another, is in force, and before there is a `GlobalData`.
use sallocator.Base.{
  ℕ, suc, ◌<◌, ◌≡◌, ◌≢◌, refl, sym, true, false, none, some, [], ◌==◌, Bool-cases, inl, inr, arith,
}
use sallocator.MemDetector.{
  GlobalData, Site, RecursiveMutex, lock, get_per_thread, enter, leave, EnableGuard, set_per_thread,
}
use sallocator.MemDetector.Operators.{Libc, blocks}
use sallocator.MemDetector.Spec.{Call, describe, do_real, call, outcome}
use sallocator.MemDetector.Calls.{call_ran, call_blocks}
use sallocator.MemDetector.Slots.{Logs, append_nil}

-- The thread `tid` is between the constructor and the destructor of a guard.
abbrev pub IsHeldBy : ℕ → GlobalData → Type 0
IsHeldBy tid g =
    let p = g.per_threads (get_per_thread tid) in
    (p.mutex.owner ≡ tid) × (0 < p.mutex.depth) × (p.enable ≡ false)

lock_again :
    (tid : ℕ) (m : RecursiveMutex)
    → m.owner ≡ tid
    → 0 < m.depth
    → lock tid m ≡ some (record { owner = m.owner; depth = suc m.depth })
unfolding lock
lock_again tid m e h =
    let held : (m.depth == 0) ≡ false = ground arith in
    let own : (m.owner == tid) ≡ true = ground arith in rw (held, own, e) refl

lock_held : (tid : ℕ) (m : RecursiveMutex) → m.owner ≢ tid → 0 < m.depth → lock tid m ≡ none
unfolding lock
lock_held tid m ne h =
    let held : (m.depth == 0) ≡ false = ground arith in
    let foreign : (m.owner == tid) ≡ false = ground arith in rw (held, foreign) refl

-- The guard within a guard, and the state that it leaves.
abbrev inner : ℕ → EnableGuard
inner tid = record { tid = tid; was_enable = false; per_thread = some (get_per_thread tid) }

abbrev entered_again : ℕ → GlobalData → GlobalData
entered_again tid g =
    let i = get_per_thread tid in
    let p = g.per_threads i in
    set_per_thread i
      (record p {
        mutex = record { owner = p.mutex.owner; depth = suc p.mutex.depth };
        enable = false;
      })
      g

enter_again :
    (tid : ℕ) (g : GlobalData)
    → IsHeldBy tid g
    → enter tid (some g) ≡ some (inner tid, some (entered_again tid g))
unfolding enter
enter_again tid g (own, held, off) =
    rw (lock_again tid (g.per_threads (get_per_thread tid)).mutex own held, off) refl

leave_again :
    (tid : ℕ) (g : GlobalData)
    → IsHeldBy tid g
    → (g' : GlobalData) × (leave (inner tid) (some (entered_again tid g)) ≡ some g') × Logs g g' []
unfolding leave
leave_again tid g (own, held, off) =
    let here : (get_per_thread tid == get_per_thread tid) ≡ true = ground arith in
    (
      _,
      refl,
      (
        refl,
        λ j h. elim (Bool-cases (j == get_per_thread tid)) [
          | inl at ↦
              let e : j ≡ get_per_thread tid = ground arith in
              rw (at, here, e)
                (record { actions = sym (append_nil _); enable = sym off; depth = omega arith })
          | inr other ↦
              rw other (record { actions = sym (append_nil _); enable = refl; depth = refl })
        ],
      ),
    )

enter_waits :
    (tid other : ℕ) (g : GlobalData)
    → IsHeldBy tid g
    → tid ≢ other
    → get_per_thread tid ≡ get_per_thread other
    → enter other (some g) ≡ none
unfolding enter
enter_waits tid other g (own, held, off) ne e =
    rw (← e, lock_held other (g.per_threads (get_per_thread tid)).mutex (rw own ne) held) refl

module _ (L : Libc) (c : Call) (site : Site) (s : L.State) where
  -- A call that a thread makes while a guard of its own is in force does not wait, does what the
  -- function of the library does and records nothing, and the guard stays in force.
  pub call_nested :
      (g : GlobalData)
      → IsHeldBy site.tid g
      → (g' : GlobalData) × (call L c site (record { libc = s; global = some g })
          ≡ outcome L (describe c) (do_real L (describe c).real s) (some g'))
        × Logs g g' []
  call_nested g h =
      let (g', left, logs) = leave_again site.tid g h in
      rw
        (
          call_ran L site (record { libc = s; global = some g }) _ _ (enter_again site.tid g h) c,
          left,
        )
        (g', refl, logs)

  -- While a guard of a thread is in force, a call of another thread with the same entry waits.
  pub call_waits :
      (tid : ℕ) (g : GlobalData)
      → IsHeldBy tid g
      → tid ≢ site.tid
      → get_per_thread tid ≡ get_per_thread site.tid
      → call L c site (record { libc = s; global = some g }) ≡ blocks
  call_waits tid g (own, held, off) ne e =
      call_blocks L site (record { libc = s; global = some g })
        (enter_waits tid site.tid g (own, held, off) ne e) c

  -- Before there is a GlobalData, each operator does what the function of the library does, with
  -- the exception of C++, and records nothing.
  pub call_unobserved :
      call L c site (record { libc = s; global = none })
      ≡ outcome L (describe c) (do_real L (describe c).real s) none
  unfolding enter leave
  call_unobserved = call_ran L site (record { libc = s; global = none }) _ _ refl c
