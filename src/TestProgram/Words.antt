-- ===== src/TestProgram/Words.antt =====
-- What `memset` and the reads of `test_allocation` in src/main.cpp do to the words below a block.
use sallocator.Base.{
  ℕ, zero, suc, ◌+◌, ◌%◌, ◌^◌, ◌≤◌, ◌<◌, ◌≡◌, ◌⊎◌, refl, inl, inr, Bool, true, arith, ltb, ◌==◌,
  sub64, add64, Bool-cases,
}
use sallocator.Os.{Os, Platform, win32, posix}
use sallocator.OsAllocator.{Build, Sys, os_free, get_page_size, read_header}
use sallocator.TestProgram.{ByteMemory, holds_value}

-- `memset` sets each byte of the block and no word outside of it.
pub record IsByteMemory (m : ByteMemory) : Type 0 where
  pub filled :
      (p value size : ℕ) (words : ℕ → ℕ) (a : ℕ)
      → p ≤ a
      → a < p + size
      → m.load (m.fill p value size words) a ≡ value % 256
  pub outside :
      (p value size : ℕ) (words : ℕ → ℕ) (a : ℕ)
      → (a + 8 ≤ p) ⊎ (p + size ≤ a)
      → m.fill p value size words a ≡ words a

-- The page size does not depend on the words.
record PageView {o : Os} (w : Sys o) (words : ℕ → ℕ) : Type 0 where
  size : ℕ
  cached : ℕ
  before : get_page_size w ≡ (size, record w { cached_page_size = cached })
  after :
      get_page_size (record w { words = words })
      ≡ (size, record w { words = words; cached_page_size = cached })

view_of_page : (o : Os) (w : Sys o) (words : ℕ → ℕ) → PageView w words
unfolding get_page_size
view_of_page o w words = elim (Bool-cases (w.cached_page_size == 0)) [
  | inl fresh ↦ record {
    size = o.page_size;
    cached = o.page_size;
    before = rw fresh refl;
    after = rw fresh refl;
  }
  | inr known ↦ record {
    size = w.cached_page_size;
    cached = w.cached_page_size;
    before = rw known refl;
    after = rw known refl;
  }
]

-- `OS_Free` reads no word but the header.
pub os_free-words :
    (o : Os) (x : Platform) (nd : Bool) (p size : ℕ) (w : Sys o) (words : ℕ → ℕ)
    → read_header (sub64 p 16) words ≡ read_header (sub64 p 16) w.words
    → let b : Build = record { platform = x; ndebug = nd } in
      (os_free b p size (record w { words = words })).os ≡ (os_free b p size w).os
unfolding os_free
os_free-words o win32 nd p size w words same =
    let page = view_of_page o w words in
    elim (Bool-cases (p == 0)) [
      | inl null ↦ rw null refl
      | inr live ↦ elim (Bool-cases (ltb size page.size)) [
        | inl below ↦ rw (live, page.before, page.after, below) refl
        | inr paged ↦ rw (live, page.before, page.after, paged, same) refl
      ]
    ]
os_free-words o posix nd p size w words same =
    let page = view_of_page o w words in
    elim (Bool-cases (p == 0)) [
      | inl null ↦ rw null refl
      | inr live ↦ elim (Bool-cases (ltb size page.size)) [
        | inl below ↦ rw (live, page.before, page.after, below) refl
        | inr paged ↦ rw (live, page.before, page.after, paged, same) refl
      ]
    ]

-- A word at most 16 bytes below a block, modulo 2 ^ 64, does not overlap it.
below_or_above :
    (p size n : ℕ)
    → 8 ≤ n
    → n ≤ 16
    → size + 16 ≤ 2 ^ 64
    → (sub64 p n + 8 ≤ p) ⊎ (p + size ≤ sub64 p n)
below_or_above p size n ge le fits = elim (Bool-cases (ltb p n)) [
  | inl low ↦ inr (ground (arith, fits, le))
  | inr high ↦ inl (ground (arith, fits, ge, le))
]

module _ {m : ByteMemory} (law : IsByteMemory m) where
  pub all_hold :
      (n q : ℕ) (words : ℕ → ℕ)
      → ((a : ℕ) → q ≤ a → a < q + n → m.load words a ≡ 0xAB)
      → holds_value m n q words ≡ true
  unfolding holds_value
  all_hold zero q words h = refl
  all_hold (suc n) q words h =
      let first : (m.load words q == 0xAB) ≡ true =
        ground (arith, h q (omega arith) (omega arith)) in
      rw (first, all_hold n (suc q) words (λ a le lt. h a (omega arith) (omega arith))) refl

  pub header_kept :
      (p size : ℕ) (words : ℕ → ℕ)
      → size + 16 ≤ 2 ^ 64
      → read_header (sub64 p 16) (m.fill p 0xAB size words) ≡ read_header (sub64 p 16) words
  unfolding read_header
  header_kept p size words fits =
      let at = sub64 p 16 in
      let shift : sub64 p 8 ≡ add64 at 8 = omega arith in
      let first : (at + 8 ≤ p) ⊎ (p + size ≤ at) =
        below_or_above p size 16 (omega arith) (omega arith) fits in
      let second : (add64 at 8 + 8 ≤ p) ⊎ (p + size ≤ add64 at 8) =
        rw (← shift) (below_or_above p size 8 (omega arith) (omega arith) fits) in
      rw (law.outside p 0xAB size words at first, law.outside p 0xAB size words (add64 at 8) second)
        refl
