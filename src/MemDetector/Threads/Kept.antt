-- ===== src/MemDetector/Threads/Kept.antt =====
-- What the steps of the threads and of the export thread of MemDetector/include/MemDetector.hpp do to
-- the records, and that none is lost or made twice.
use mathlib.Core.List.{append_assoc, perm_middle}
use mathlib.Core.List.Perm
use sallocator.Base.{
  ℕ, zero, suc, ◌≤◌, ◌≡◌, refl, sym, ap, subst, ◌∙◌, Bool, true, false, some, List, [], ◌∷◌, ◌++◌,
  arith, Perm, if◌then◌else◌,
}
use sallocator.AllocAction.{AllocAction}
use sallocator.MemDetector.{GlobalData, EnableGuard, Site, all_actions}
use sallocator.MemDetector.Spec.{of_entry, Description}
use sallocator.MemDetector.Operators.{record_if}
use sallocator.MemDetector.Slots.{append_nil}
use sallocator.MemDetector.Export.{by_entries, by_entries-Perm, new_global-actions}
use sallocator.MemDetector.Threads.{
  constructed, System, Step, enters, records, leaves, stops, tests, locks, moves, drains, writes,
  made, busy, moving, at_test, finished, Frame, Reach, here, next,
}
use sallocator.MemDetector.Threads.Locks.{own, record_if-Takes}
use sallocator.MemDetector.Threads.Held.{is_outer, IsStack, IsLocked}
use sallocator.MemDetector.Threads.Busy.{shown, Inv, holder-ne}
use sallocator.MemDetector.Threads.Exclusion.{Reach-Inv}
use sallocator.MemDetector.Threads.Records.{
  IsKept, gone, same-IsKept, enters-actions, leaves-actions, locks-actions, records-other,
  records-IsKept, drains-IsKept,
}

-- What stands in `thread_actions` is still all that the entry has.
abbrev IsMoving : System → Type 0
IsMoving s =
    (i : ℕ) (last : Bool) (xs : List AllocAction)
    → s.exporter.place ≡ moving i last xs
    → xs ≡ (s.global.per_threads i).actions

guard_eq :
    {exporting : ℕ} {s : System}
    → Inv exporting s
    → (t : ℕ) (f : Frame) (rest : List Frame) → s.frames t ≡ f ∷ rest
    → f.ena ≡ own t (is_outer rest)
guard_eq v t f rest at =
    let stack : IsStack t (f ∷ rest) = rw at at (v.operators.stacks t) in stack.0

moving_actions :
    (i i' : ℕ) (last last' : Bool) (xs ys : List AllocAction)
    → moving i last xs ≡ moving i' last' ys
    → (i ≡ i') × (xs ≡ ys)
moving_actions i i' last last' xs ys e = (cc e, cc e)

-- No thread of the entry whose records are moved makes one.
records-IsMoving :
    {exporting : ℕ} {s : System} (d : Description) (site : Site) (ptr : ℕ) {ena : EnableGuard}
    {rest : List Frame} {g : GlobalData}
    → Inv exporting s
    → s.frames site.tid ≡ record { ena = ena; stage = constructed } ∷ rest
    → record_if ena d.op ptr d.size d.align site (some s.global) ≡ some g
    → IsMoving s
    → (i : ℕ) (last : Bool) (xs : List AllocAction) → s.exporter.place ≡ moving i last xs
    → xs ≡ (g.per_threads i).actions
records-IsMoving {s = s} d site ptr {ena} {rest} {g} v at e k i last xs q =
    let guard = guard_eq v site.tid _ rest at in
    let takes = record_if-Takes (is_outer rest) d ptr site s.global g (rw guard at e) in
    let l : IsLocked (shown (some i) s.global) s.frames =
      subst (λ b. IsLocked (shown b s.global) s.frames) (ap busy q) v.operators in
    let ne = holder-ne s.global s.frames i site.tid l (rw at (omega arith)) in
    k i last xs q ∙ sym (records-other d site ptr (is_outer rest) s.global g takes i ne)

Step-IsMoving :
    (exporting : ℕ) {s s' : System}
    → Step exporting s s'
    → Inv exporting s
    → IsMoving s
    → IsMoving s'
Step-IsMoving exporting {s} (enters tid ena g may outside e) v k =
    λ i last xs q. k i last xs q ∙ sym (enters-actions tid ena s.global g e i)
Step-IsMoving exporting (records d site ptr ena rest g at e) v k =
    records-IsMoving d site ptr v at e k
Step-IsMoving exporting {s} (leaves tid ena rest g at e) v k = λ i last xs q.
    k i last xs q
    ∙ sym (leaves-actions tid (is_outer rest) s.global g (rw (guard_eq v tid _ rest at) at e) i)
Step-IsMoving exporting stops v k = k
Step-IsMoving exporting (tests at) v k = λ i last xs q. cc q
Step-IsMoving exporting (locks i last m at lt alone e) v k = λ i last xs q. cc q
Step-IsMoving exporting {s} (moves i last at) v k = λ i' last' xs q.
    let (same, actions) = moving_actions i i' last last' _ xs q in
    sym actions ∙ ap (λ j. (s.global.per_threads j).actions) same
Step-IsMoving exporting (drains i last xs at) v k = λ i last xs q. cc q
Step-IsMoving exporting (writes last at) v k = λ i last' xs q. not_moving last q
  where
    not_moving :
        (b : Bool) {i : ℕ} {last : Bool} {xs : List AllocAction}
        → (if b then finished else at_test) ≡ moving i last xs
        → {A : Type 0} → A
    not_moving true q = cc q
    not_moving false q = cc q

Step-IsKept :
    (exporting : ℕ) {s s' : System}
    → Step exporting s s'
    → Inv exporting s
    → IsMoving s
    → IsKept s.global (gone s) s.log
    → IsKept s'.global (gone s') s'.log
unfolding gone
Step-IsKept exporting {s} (enters tid ena g may outside e) v h k =
    same-IsKept s.global g (gone s) s.log (enters-actions tid ena s.global g e) k
Step-IsKept exporting {s} (records d site ptr ena rest g at e) v h k =
    let guard = guard_eq v site.tid _ rest at in
    let takes = record_if-Takes (is_outer rest) d ptr site s.global g (rw guard at e) in
    records-IsKept s.global g (gone s) s.log (made ena d site ptr) (rw guard takes) k
Step-IsKept exporting {s} (leaves tid ena rest g at e) v h k =
    same-IsKept s.global g (gone s) s.log
      (leaves-actions tid (is_outer rest) s.global g (rw (guard_eq v tid _ rest at) at e)) k
Step-IsKept exporting {s} stops v h k =
    same-IsKept s.global (record s.global { stopped = true }) (gone s) s.log (λ j. refl) k
Step-IsKept exporting (tests at) v h k = k
Step-IsKept exporting {s} (locks i last m at lt alone e) v h k =
    same-IsKept s.global _ (gone s) s.log (locks-actions i m s.global) k
Step-IsKept exporting (moves i last at) v h k = k
Step-IsKept exporting {s} (drains i last xs at) v h k =
    let same : xs ≡ (s.global.per_threads i).actions = h i last xs at in
    let b = v.export i (ap busy at) in
    rw (same, ← append_assoc) (drains-IsKept i s.global (gone s) s.log b.index_lt k)
Step-IsKept exporting {s} (writes last at) v h k = rw (append_nil (gone s)) k

pub kept :
    {exporting : ℕ} {s : System} → Reach exporting s → IsMoving s × IsKept s.global (gone s) s.log
unfolding gone
kept here = (
  λ i last xs q. cc q,
  record { total = λ i h. new_global-actions i h; home = λ i h. rw (new_global-actions i h) tt },
)
kept {exporting} (next r st) =
    let (h, k) = kept r in
    (Step-IsMoving exporting st (Reach-Inv r) h, Step-IsKept exporting st (Reach-Inv r) h k)

append_comm : (xs ys : List AllocAction) → Perm (xs ++ ys) (ys ++ xs)
append_comm [] ys = rw (append_nil ys) (Perm.refl ys)
append_comm (x ∷ xs) ys =
    Perm.trans (Perm.cons x (append_comm xs ys)) (Perm.symm (perm_middle ys xs))

exchange :
    (ws xs ys zs : List AllocAction) → Perm ((ws ++ xs) ++ (ys ++ zs)) ((ws ++ ys) ++ (xs ++ zs))
exchange ws xs ys zs =
    rw
      (
        append_assoc ws xs (ys ++ zs),
        append_assoc ws ys (xs ++ zs),
        ← append_assoc xs ys zs,
        ← append_assoc ys xs zs,
      )
      (Perm.append_left ws (Perm.append_right zs (append_comm xs ys)))

kept_actions :
    (n : ℕ) (g : GlobalData) (gone log : List AllocAction)
    → n ≤ 8
    → IsKept g gone log
    → Perm (by_entries n log) (by_entries n gone ++ all_actions n g)
unfolding all_actions
kept_actions zero g gone log h k = Perm.refl []
kept_actions (suc n) g gone log h k = rw (← k.total n (omega arith)) (
    Perm.trans (Perm.append_right _ (kept_actions n g gone log (omega arith) k))
      (exchange (by_entries n gone) (all_actions n g) (of_entry n gone) (g.per_threads n).actions))

-- In each state that threads that run the operators and the thread of exprot_thead_entry reach,
-- their steps interleaved in any order, the records that are written to the file, that the export
-- thread has collected, and that stand in the entries, are together, up to order, the records that
-- the guards have made: none is lost and none is there twice.
pub Reach-Perm :
    {exporting : ℕ} {s : System}
    → Reach exporting s
    → Perm (s.exporter.out ++ s.exporter.actions ++ all_actions 8 s.global) s.log
unfolding gone
Reach-Perm {exporting} {s} r =
    let gone_perm = Perm.append_right (all_actions 8 s.global) (by_entries-Perm (gone s)) in
    Perm.symm (
      Perm.trans (Perm.symm (by_entries-Perm s.log))
        (Perm.trans (kept_actions 8 s.global (gone s) s.log (omega arith) ((kept r).1)) gone_perm))
