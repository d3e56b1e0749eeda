-- ===== src/OsAllocator/Held.antt =====
-- The blocks of src/SysApi.cpp that are in use, the regions behind them and their headers.
use mathlib.Core.List.{Pairwise, Pairwise-cons, mem-cons_self, mem-cons_of_mem}
use mathlib.Core.List.Perm
use sallocator.Base.{
  ℕ, ◌+◌, ◌-◌, ◌^◌, ◌≤◌, ◌<◌, ◌≡◌, ◌≢◌, ◌⊎◌, refl, inl, inr, ap, ◌∙◌, List, [], ◌∷◌, ◌++◌, Mem, All,
  Perm, arith, sub64, add64,
}
use sallocator.Os.{Kind, Region, region, Os, Platform, Apart, ApartFrom}
use sallocator.Os.Blocks.{Block, NoOverlap, Separate}
use sallocator.OsAllocator.{read_header}
use sallocator.OsAllocator.Small.{small_kind}

-- A block of the C library.
pub record IsSmall (o : Os) (x : Platform) (b : Block) (r : Region) : Type 0 where
  pub below : b.size < o.page_size
  pub positive : 0 < b.size
  pub ptr_ne : b.ptr ≢ 0
  pub is_region : r ≡ region (small_kind x) b.ptr r.size
  pub size_le : b.size ≤ r.size

-- A block in a mapping, with a header that names the mapping.
pub record IsPaged (o : Os) (words : ℕ → ℕ) (b : Block) (r : Region) : Type 0 where
  pub pages : o.page_size ≤ b.size
  pub positive : 0 < b.size
  pub is_region : r ≡ region Kind.pages r.base r.size
  pub room : r.base + 16 ≤ b.ptr
  pub within : b.ptr + b.size ≤ r.base + r.size
  pub bounded : r.base + r.size < 2 ^ 64
  pub header :
      read_header (sub64 b.ptr 16) words ≡ record { base_ptr = r.base; total_size = r.size }

-- No byte of the word at `a` belongs to the block.
abbrev pub OutsideWord : ℕ → Block → Type 0
OutsideWord a b = (a + 8 ≤ b.ptr) ⊎ (b.ptr + b.size ≤ a)

pub read_header-same :
    (p : ℕ) (words words' : ℕ → ℕ)
    → 16 ≤ p
    → p < 2 ^ 64
    → words' (p - 16) ≡ words (p - 16)
    → words' (p - 8) ≡ words (p - 8)
    → read_header (sub64 p 16) words' ≡ read_header (sub64 p 16) words
unfolding read_header
read_header-same p words words' le lt first second =
    let a : sub64 p 16 ≡ p - 16 = omega arith in
    let b : add64 (p - 16) 8 ≡ p - 8 = omega arith in rw (a, b, first, second) refl

module _ (o : Os) (x : Platform) (words : ℕ → ℕ) where
  abbrev pub IsHeld : Block → Region → Type 0
  IsHeld b r = IsSmall o x b r ⊎ IsPaged o words b r

  -- Each block lies in the region at its place.
  abbrev pub Holds : List Block → List Region → Type 0
  Holds [] [] = Unit
  Holds [] (r ∷ rs) = ⊥
  Holds (b ∷ bs) [] = ⊥
  Holds (b ∷ bs) (r ∷ rs) = IsHeld b r × Holds bs rs

  pub IsHeld-within :
      (b : Block) (r : Region)
      → IsHeld b r
      → (r.base ≤ b.ptr) × (b.ptr + b.size ≤ r.base + r.size) × (0 < b.size)
  IsHeld-within b r (inl h) =
      let base : r.base ≡ b.ptr = ap (λ q. q.base) h.is_region in
      (omega (arith, base), omega (arith, base, h.size_le), h.positive)
  IsHeld-within b r (inr h) = (omega (arith, h.room), h.within, h.positive)

  All-NoOverlap :
      (b : Block) (r : Region) (bs : List Block) (rs : List Region)
      → IsHeld b r
      → Holds bs rs
      → ApartFrom r rs
      → All (NoOverlap b) bs
  All-NoOverlap b r [] rs h hs apart = tt
  All-NoOverlap b r (c ∷ bs) [] h hs apart = absurd hs
  All-NoOverlap b r (c ∷ bs) (q ∷ rs) h hs apart = (
    ground (arith, IsHeld-within b r h, IsHeld-within c q hs.0, apart q mem-cons_self),
    All-NoOverlap b r bs rs h hs.1 (λ s m. apart s (mem-cons_of_mem q m)),
  )

  pub Holds-Separate :
      (bs : List Block) (rs : List Region) → Holds bs rs → Pairwise Apart rs → Separate bs
  Holds-Separate [] rs hs apart = tt
  Holds-Separate (b ∷ bs) [] hs apart = absurd hs
  Holds-Separate (b ∷ bs) (r ∷ rs) hs apart =
      let (first, rest) = Pairwise-cons.0 apart in
      (All-NoOverlap b r bs rs hs.0 hs.1 first, Holds-Separate bs rs hs.1 rest)

  -- A block in the middle of the list, with its region, and the others with theirs.
  pub Holds-middle :
      (xs ys : List Block) (b : Block) (rs : List Region)
      → Holds (xs ++ b ∷ ys) rs
      → (r : Region) × (rest : List Region) × Perm rs (r ∷ rest)
        × IsHeld b r
        × Holds (xs ++ ys) rest
  Holds-middle [] ys b (r ∷ rs) (h, hs) = (r, rs, Perm.refl (r ∷ rs), h, hs)
  Holds-middle [] ys b [] h = absurd h
  Holds-middle (y ∷ xs) ys b [] h = absurd h
  Holds-middle (y ∷ xs) ys b (q ∷ rs) (h, hs) =
      let (r, rest, same, found, others) = Holds-middle xs ys b rs hs in
      (r, q ∷ rest, Perm.trans (Perm.cons q same) (Perm.swap r q rest), found, (h, others))

-- The blocks stay held where the headers stay as they are.
module _ (o : Os) (x : Platform) (words words' : ℕ → ℕ) where
  IsPaged-frame :
      (b : Block) (r : Region)
      → IsPaged o words b r
      → read_header (sub64 b.ptr 16) words' ≡ read_header (sub64 b.ptr 16) words
      → IsPaged o words' b r
  IsPaged-frame b r h same = record {
    pages = h.pages;
    positive = h.positive;
    is_region = h.is_region;
    room = h.room;
    within = h.within;
    bounded = h.bounded;
    header = same ∙ h.header;
  }

  pub Holds-frame :
      (bs : List Block) (rs : List Region)
      → Holds o x words bs rs
      → ((b : Block) (r : Region)
          → Mem r rs
          → IsPaged o words b r
          → read_header (sub64 b.ptr 16) words' ≡ read_header (sub64 b.ptr 16) words)
      → Holds o x words' bs rs
  Holds-frame [] rs hs same = hs
  Holds-frame (b ∷ bs) [] hs same = hs
  Holds-frame (b ∷ bs) (r ∷ rs) (inl h, hs) same =
      (inl h, Holds-frame bs rs hs (λ c q m. same c q (mem-cons_of_mem r m)))
  Holds-frame (b ∷ bs) (r ∷ rs) (inr h, hs) same = (
    inr (IsPaged-frame b r h (same b r mem-cons_self h)),
    Holds-frame bs rs hs (λ c q m. same c q (mem-cons_of_mem r m)),
  )

  -- The words of a header lie in no block.
  All-OutsideWord :
      (a : ℕ) (r : Region) (bs : List Block) (rs : List Region)
      → Holds o x words bs rs
      → r.base ≤ a
      → a + 8 ≤ r.base + r.size
      → ApartFrom r rs
      → All (OutsideWord a) bs
  All-OutsideWord a r [] rs hs ge le apart = tt
  All-OutsideWord a r (c ∷ bs) [] hs ge le apart = absurd hs
  All-OutsideWord a r (c ∷ bs) (q ∷ rs) hs ge le apart = (
    ground (arith, IsHeld-within o x words c q hs.0, apart q mem-cons_self),
    All-OutsideWord a r bs rs hs.1 ge le (λ s m. apart s (mem-cons_of_mem q m)),
  )

  -- Clients write into their own blocks only. `Kept` is where other blocks keep the words.
  pub Holds-written :
      (Kept : ℕ → Type 0) (bs : List Block) (rs : List Region)
      → Holds o x words bs rs
      → Pairwise Apart rs
      → ((b : Block) (r : Region)
          → Mem r rs
          → IsPaged o words b r
          → Kept (b.ptr - 16) × Kept (b.ptr - 8))
      → ((a : ℕ) → Kept a → All (OutsideWord a) bs → words' a ≡ words a)
      → Holds o x words' bs rs
  Holds-written Kept [] rs hs apart kept same = hs
  Holds-written Kept (b ∷ bs) [] hs apart kept same = hs
  Holds-written Kept (b ∷ bs) (r ∷ rs) (h, hs) apart kept same =
      let (first, rest) = Pairwise-cons.0 apart in
      let tail =
        Holds-written (λ a. Kept a × OutsideWord a b) bs rs hs rest
          (λ c q m k.
            let (one, two) = kept c q (mem-cons_of_mem r m) k in
            let away = first q m in
            let span = IsHeld-within o x words b r h in
            (
              (one, ground (arith, away, span, k.room, k.within, k.positive)),
              (two, ground (arith, away, span, k.room, k.within, k.positive)),
            ))
          (λ a k out. same a k.0 (k.1, out)) in
      (head h first, tail)
    where
      head : IsHeld o x words b r → ApartFrom r rs → IsHeld o x words' b r
      head (inl k) first = inl k
      head (inr k) first =
          let (one, two) = kept b r mem-cons_self k in
          let keeps : (a : ℕ) → Kept a → r.base ≤ a → a + 8 ≤ b.ptr → words' a ≡ words a =
            λ a kept_a ge le.
              same a kept_a
                (inl le, All-OutsideWord a r bs rs hs ge (omega (arith, le, k.within)) first) in
          inr (
            IsPaged-frame b r k (
              read_header-same b.ptr words words' (omega (arith, k.room))
                (omega (arith, k.within, k.bounded))
                (keeps (b.ptr - 16) one (omega (arith, k.room)) (omega (arith, k.room)))
                (keeps (b.ptr - 8) two (omega (arith, k.room)) (omega (arith, k.room)))))
