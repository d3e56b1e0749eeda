-- ===== src/Os/Owned.antt =====
-- Bookkeeping on the allocated regions: who owns what, up to order, with no overlap.
use mathlib.Core.List.{Pairwise, Pairwise-cons}
use mathlib.Core.List.Perm
use sallocator.Base.{ℕ, ◌≡◌, Bool, List, ◌∷◌, Perm}
use sallocator.Os.{Kind, Region, region, Os, Apart, Apart-symm, ApartFrom, Releases}

-- The allocated regions are the listed ones, and no two of these overlap.
pub record Owns (live owned : List Region) : Type 0 where
  pub same : Perm live owned
  pub apart : Pairwise Apart owned

Bool_set : IsSet Bool
Bool_set = hlevel

pub Apart-prop : (r s : Region) → IsProp (Apart r s)
Apart-prop r s = Bool_set _ _

module _ {live rs : List Region} where
  pub Owns-perm : {rs' : List Region} → Perm rs rs' → Owns live rs → Owns live rs'
  Owns-perm p h = record {
    same = Perm.trans h.same p;
    apart = Perm.pairwise Apart-prop Apart-symm p h.apart;
  }

  pub Owns-add :
      {live' : List Region} (r : Region)
      → live' ≡ r ∷ live
      → ApartFrom r live
      → Owns live rs
      → Owns live' (r ∷ rs)
  Owns-add r e apart h = record {
    same = rw e (Perm.cons r h.same);
    apart = Pairwise-cons.1 (λ q m. apart q ((Perm.mem_iff h.same).1 m), h.apart);
  }

  pub Owns-apart : {r : Region} → Owns live (r ∷ rs) → ApartFrom r rs
  Owns-apart h = (Pairwise-cons.0 h.apart).0

pub Owns-release :
    (o : Os) {k : Kind} {p n : ℕ} {s s' : o.State} {rs : List Region}
    → Releases o k p n s s'
    → Owns (o.live s) (region k p n ∷ rs)
    → Owns (o.live s') rs
Owns-release o {rs} law h = record {
  same = law rs h.same (Owns-apart h);
  apart = (Pairwise-cons.0 h.apart).1;
}
