-- ===== src/MemDetector/Refines.antt =====
-- The operators of MemDetector/include/MemDetector.hpp against what they promise.
use sallocator.Base.{ℕ, ◌≡◌, refl, Bool, some, List, [], ◌∷◌, ◌==◌, ◌&&◌, Bool-cases, sym, inl, inr}
use sallocator.MemDetector.{GlobalData, Site}
use sallocator.MemDetector.Operators.{Libc, Detector}
use sallocator.MemDetector.Spec.{
  Call, Real, describe, event, do_real, call, outcome, outcome_of, spec_run, run, after,
}
use sallocator.MemDetector.Calls.{call_ran}
use sallocator.MemDetector.Slots.{
  IsReady, Logs, Logs-trans, Logs-IsReady, enter-IsReady, leave-Logs, append_nil,
}

module _ (L : Libc) where
  abbrev pub in_state : L.State → GlobalData → Detector L
  in_state s g = record { libc = s; global = some g }

  -- A call does what the library's function does, and gets its record into the log.
  abbrev pub Step : Call → Site → L.State → GlobalData → Type 0
  Step c site s g =
      (g' : GlobalData) × (call L c site (in_state s g)
        ≡ outcome L (describe c) (do_real L (describe c).real s) (some g'))
      × Logs g g' (event (describe c) site (do_real L (describe c).real s).0)

  -- In a state in which no lock is held and all entries record each operator returns what the
  -- function of the library returns, or throws std::bad_alloc if it is one that throws and there
  -- is no memory, and its record goes to the entry of its thread if the pointer is not null.
  pub call-Step :
      (c : Call) (site : Site) (s : L.State) (g : GlobalData) → IsReady g → Step c site s g
  call-Step c site s g r =
      let (g', left, logs) = leave-Logs (describe c) (do_real L (describe c).real s).0 site g r in
      rw (call_ran L site (in_state s g) _ _ (enter-IsReady site.tid g r) c, left) (g', refl, logs)

  after_outcome :
      (real : Real) (throws : Bool) (ptr : ℕ) (w : Detector L)
      → after L (outcome_of L real throws ptr w) ≡ some w
  after_outcome (Real.free p) throws ptr w = refl
  after_outcome (Real.malloc size) throws ptr w = elim (Bool-cases (throws && (ptr == 0))) [
    | inl t ↦ rw t refl
    | inr f ↦ rw f refl
  ]
  after_outcome (Real.memalign align size) throws ptr w = elim (Bool-cases (throws && (ptr == 0))) [
    | inl t ↦ rw t refl
    | inr f ↦ rw f refl
  ]

  -- From a state in which no lock is held and all entries record, any sequence of calls of the
  -- twenty operators by any threads, one after the other, runs to its end, and each of the eight
  -- entries gets the records of the threads with that remainder modulo 8, in order; its lock and
  -- its switch are as before.
  pub run-Logs :
      (cs : List (Call × Site)) (s : L.State) (g : GlobalData)
      → IsReady g
      → (g' : GlobalData) × (run L cs (in_state s g) ≡ some (in_state (spec_run L cs s).1 g'))
        × Logs g g' (spec_run L cs s).0
  run-Logs [] s g r =
      (g, refl, (refl, λ i h. record { actions = sym (append_nil _); enable = refl; depth = refl }))
  run-Logs ((c, site) ∷ cs) s g r =
      let (g', ran, logs) = call-Step c site s g r in
      let (g'', rest, more) =
        run-Logs cs (do_real L (describe c).real s).1 g' (Logs-IsReady g g' _ logs r) in
      rw
        (
          run,
          ran,
          after_outcome (describe c).real (describe c).throws _
              (in_state (do_real L (describe c).real s).1 g'),
          rest,
        )
        (g'', refl, Logs-trans g g' g'' _ _ logs more)
