-- ===== src/StaticFor/Loops.antt =====
-- The loops of include/static_for.hpp against each other.
use sallocator.Base.{
  ℕ, zero, suc, ◌+◌, ◌-◌, ◌≤◌, ◌<◌, ◌≡◌, ◌⊎◌, refl, ap, subst, inl, inr, Bool, true, false,
  Bool-cases, arith,
}
use sallocator.StaticFor.{
  static_for_count, static_for, static_for_count_break, static_for_break, static_for_impl,
  index_sequence, static_for_n,
}

first : (beg : ℕ) → beg ≡ beg + 0
first beg = omega arith

later : (beg j : ℕ) → beg + 1 + j ≡ beg + suc j
later beg j = omega arith

module _ {S : Type 0} where
  impl-count :
      (count beg : ℕ) (lambda : ℕ → S → S) (s : S)
      → static_for_impl lambda (index_sequence count beg) s ≡ static_for_count count beg lambda s
  unfolding static_for_impl index_sequence static_for_count
  impl-count zero beg lambda s = refl
  impl-count (suc n) beg lambda s = impl-count n (beg + 1) lambda (lambda beg s)

  -- static_for<N> runs the body as static_for<0, N> does, for a body without a Breaker.
  pub static_for_n-static_for :
      (n : ℕ) (lambda : ℕ → S → S) (s : S) → static_for_n n lambda s ≡ static_for 0 n lambda s
  unfolding static_for_n static_for
  static_for_n-static_for n lambda s =
      let e : n - 0 ≡ n = omega arith in rw e (impl-count n 0 lambda s)

  -- The loop made `runs` calls and ended in `final`. None of them but the last one broke, and that
  -- one broke or is the call at the last index.
  pub record Stops (count beg : ℕ) (lambda : ℕ → S → S × Bool) (s final : S) : Type 0 where
    pub runs : ℕ
    pub bounded : runs ≤ count
    pub prefix : static_for_count runs beg (λ i t. (lambda i t).0) s ≡ final
    pub goes_on :
        (j : ℕ)
        → j + 1 < runs
        → (lambda (beg + j) (static_for_count j beg (λ i t. (lambda i t).0) s)).1 ≡ false
    pub stop :
        (runs ≡ count)
        ⊎ ((j : ℕ) × (runs ≡ j + 1)
            × ((lambda (beg + j) (static_for_count j beg (λ i t. (lambda i t).0) s)).1 ≡ true))

  -- The calls before the last, the first of them included, do not break.
  earlier :
      (beg : ℕ) (lambda : ℕ → S → S × Bool) (s : S) (runs : ℕ)
      → ((j : ℕ)
          → j + 1 < runs
          → (lambda
              (beg + 1 + j)
              (static_for_count j (beg + 1) (λ i t. (lambda i t).0) (lambda beg s).0)).1
            ≡ false)
      → (lambda beg s).1 ≡ false
      → (j : ℕ) → j + 1 < suc runs
      → (lambda (beg + j) (static_for_count j beg (λ i t. (lambda i t).0) s)).1 ≡ false
  unfolding static_for_count
  earlier beg lambda s runs rest on zero h = subst (λ i. (lambda i s).1 ≡ false) (first beg) on
  earlier beg lambda s runs rest on (suc j) h =
      subst
        (λ i.
          (lambda i (static_for_count j (beg + 1) (λ k t. (lambda k t).0) (lambda beg s).0)).1
          ≡ false)
        (later beg j) (rest j (omega arith))

  count_break-Stops :
      (count beg : ℕ) (lambda : ℕ → S → S × Bool) (s : S)
      → Stops count beg lambda s (static_for_count_break count beg lambda s)
  unfolding static_for_count static_for_count_break
  count_break-Stops zero beg lambda s = record {
    runs = 0;
    bounded = omega arith;
    prefix = refl;
    goes_on = λ j h. absurd (omega arith);
    stop = inl refl;
  }
  count_break-Stops (suc n) beg lambda s = elim (Bool-cases (lambda beg s).1) [
    | inl broken ↦ rw broken (record {
      runs = 1;
      bounded = omega arith;
      prefix = refl;
      goes_on = λ j h. absurd (omega arith);
      stop = inr (0, refl, subst (λ i. (lambda i s).1 ≡ true) (first beg) broken);
    })
    | inr on ↦
        let rest = count_break-Stops n (beg + 1) lambda (lambda beg s).0 in
        rw on (record {
          runs = suc rest.runs;
          bounded = omega (arith, rest.bounded);
          prefix = rest.prefix;
          goes_on = earlier beg lambda s _ rest.goes_on on;
          stop = elim rest.stop [
            | inl all ↦ inl (ap suc all)
            | inr (j, e, broken) ↦ inr (
              suc j,
              omega (arith, e),
              subst
                  (λ i.
                    (lambda i
                      (static_for_count j (beg + 1) (λ k t. (lambda k t).0) (lambda beg s).0)).1
                    ≡ true)
                  (later beg j) broken,
            )
          ];
        })
  ]

  -- static_for<Beg, End> with a body that gets a Breaker does what the first calls of the loop
  -- without one do, up to the first call that breaks, which is the last, or up to End.
  pub static_for_break-Stops :
      (beg end : ℕ) (lambda : ℕ → S → S × Bool) (s : S)
      → Stops (end - beg) beg lambda s (static_for_break beg end lambda s)
  unfolding static_for_break
  static_for_break-Stops beg end lambda s = count_break-Stops (end - beg) beg lambda s
