-- ===== src/OsAllocator/Mappings.antt =====
-- The mapping of an OS_Alloc of src/SysApi.cpp from a page on: where its header lies, and what it holds.
use native.Mathlib.Nat.{mod_self}
use sallocator.Base.{
  ℕ, ◌+◌, ◌-◌, ◌%◌, ◌^◌, ◌≤◌, ◌<◌, ◌≡◌, ◌⊎◌, refl, inl, inr, arith, ◌==◌, sub64, true, false,
  Bool-cases, leb,
}
use sallocator.Bits.{
  IsPow2, round_up, round_up_bounds, round_up_least, round_up-mod, IsPow2-mod, sixteen-IsPow2,
  multiples_apart,
}
use sallocator.Os.{Os, IsLawful}
use sallocator.OsAllocator.{
  Build, Sys, Outcome, returns, fault, place, header_size_of, total_size_of, write_header,
  read_header, fill_zero, store_header, holds_header, effective,
}
use sallocator.OsAllocator.Place.{
  header_size_eq, total_size_eq, place_bounds, place_aligned, header_below, header_whole,
}
use sallocator.OsAllocator.Header.{
  read_header-write_header, read_header-write_header_far, read_header-fill_zero,
}
use sallocator.OsAllocator.Pages.{effective-IsPow2, IsPageRequest, Mapped}

module _ {o : Os} (law : IsLawful o) {b : Build} {size alignment : ℕ} {w : Sys o}
    (q : IsPageRequest o b size alignment w) where
  pub pow2 : IsPow2 (effective alignment)
  pow2 = effective-IsPow2 alignment q.pow2

  pub total_eq :
      total_size_of size (effective alignment)
      ≡ size + effective alignment + round_up (effective alignment) 16
  total_eq = total_size_eq pow2 size q.fits

  module _ {r : Outcome (Sys o) ℕ}
      (m : Mapped size (effective alignment) (record w { cached_page_size = o.page_size }) r) where
    low : 16 ≤ m.base
    low = omega (arith, m.base_ge, law.page_size_holds_header)

    pub fits : m.base + effective alignment + 16 ≤ 2 ^ 64
    fits = omega (arith, m.bounded, total_eq, round_up_bounds pow2 16)

    pub bounds :
        (place m.base (effective alignment) % effective alignment ≡ 0)
        × (m.base + 16 ≤ place m.base (effective alignment))
        × (place m.base (effective alignment) < m.base + effective alignment + 16)
    bounds = place_bounds pow2 m.base low fits

    -- The block with its size ends inside of the mapping.
    pub block_inside :
        place m.base (effective alignment) + size
        ≤ m.base + total_size_of size (effective alignment)
    block_inside = omega (arith, bounds, total_eq, round_up_bounds pow2 16)

    header_le : header_size_of (effective alignment) ≤ place m.base (effective alignment)
    header_le =
        rw (header_size_eq pow2 (omega (arith, fits)))
          (round_up_least pow2 16 _ (bounds).0 (omega (arith, bounds)))

    header_ge : 16 ≤ header_size_of (effective alignment)
    header_ge = omega (arith, header_size_eq pow2 (omega (arith, fits)), round_up_bounds pow2 16)

    abbrev pub header_addr : ℕ
    header_addr = sub64 (place m.base (effective alignment)) (header_size_of (effective alignment))

    pub header_addr_eq :
        header_addr ≡ place m.base (effective alignment) - header_size_of (effective alignment)
    header_addr_eq = omega (arith, header_le, bounds, fits)

    -- The state after the system call.
    abbrev pub mapped : Sys o
    mapped = record w {
      os = m.os';
      words = fill_zero m.base (total_size_of size (effective alignment)) w.words;
      cached_page_size = o.page_size;
    }

    -- The state after `OS_Alloc`.
    abbrev pub stored : Sys o
    stored = record mapped {
      words =
          write_header header_addr
            (record { base_ptr = m.base; total_size = total_size_of size (effective alignment) })
            mapped.words;
    }

    -- The header lies in the mapping, or below it.
    pub outcomes :
        ((m.base ≤ header_addr) × (r ≡ returns (place m.base (effective alignment)) stored))
        ⊎ ((header_addr < m.base) × (r ≡ fault header_addr mapped))
    unfolding store_header
    outcomes = elim (Bool-cases (leb m.base header_addr)) [
      | inl above ↦
          let inside : holds_header m.base (total_size_of size (effective alignment)) header_addr
              ≡ true =
            ground (arith, above, header_addr_eq, header_ge, header_le, block_inside) in
          inl (ground (arith, above), rw (m.returned, inside) refl)
      | inr below ↦
          let outside : holds_header m.base (total_size_of size (effective alignment)) header_addr
              ≡ false =
            rw below refl in
          inr (ground (arith, below), rw (m.returned, outside) refl)
    ]

    -- The header lies in a mapping that is aligned.
    pub aligned_inside : m.base % effective alignment ≡ 0 → m.base ≤ header_addr
    aligned_inside whole = omega (arith, header_addr_eq, place_aligned pow2 m.base low fits whole)

    -- As all are, with an alignment up to the page size.
    pub pages_inside : alignment ≤ o.page_size → m.base ≤ header_addr
    pages_inside le = aligned_inside (
        IsPow2-mod law.page_size_pow2 pow2 m.base (ground (arith, law.page_size_holds_header, le))
          m.base_aligned)

    pub pages_returned :
        alignment ≤ o.page_size → r ≡ returns (place m.base (effective alignment)) stored
    pages_returned le = elim outcomes [
      | inl (above, e) ↦ e
      | inr (below, e) ↦ absurd (omega (arith, below, pages_inside le))
    ]

    -- With an alignment up to 16 the header lies right below the block.
    pub header_size_small : alignment ≤ 16 → header_size_of (effective alignment) ≡ 16
    header_size_small small = rw (header_size_eq pow2 (omega (arith, fits))) (
        omega (
          arith,
          round_up_bounds pow2 16,
          round_up_least pow2 16 16 (IsPow2-mod sixteen-IsPow2 pow2 16 (ground arith) refl),
        ))

    pub stored-header :
        alignment ≤ 16
        → read_header (sub64 (place m.base (effective alignment)) 16) stored.words
          ≡ record { base_ptr = m.base; total_size = total_size_of size (effective alignment) }
    stored-header small = rw (header_size_small small) (
        read_header-write_header (sub64 (place m.base (effective alignment)) 16) _ mapped.words
          (omega arith))

    header_wide : 16 < alignment → 32 ≤ header_size_of (effective alignment)
    header_wide big = rw (header_size_eq pow2 (omega (arith, fits))) (
        omega (
          arith,
          header_whole pow2,
          multiples_apart 16 16 (effective alignment) refl
              (IsPow2-mod pow2 sixteen-IsPow2 _ (ground arith) (mod_self (effective alignment)))
              (ground arith),
        ))

    pub header_far : 16 < alignment → header_addr + 32 ≤ place m.base (effective alignment)
    header_far big = omega (arith, header_wide big, header_addr_eq, header_le)

    pub stored_at :
        read_header header_addr stored.words
        ≡ record { base_ptr = m.base; total_size = total_size_of size (effective alignment) }
    stored_at = read_header-write_header header_addr _ mapped.words (omega arith)

    -- With a larger one, the words right below the block are those of the new mapping.
    pub stored-zero :
        16 < alignment
        → read_header (sub64 (place m.base (effective alignment)) 16) stored.words
          ≡ record { base_ptr = 0; total_size = 0 }
    stored-zero big =
        rw
          (read_header-write_header_far (place m.base (effective alignment)) _ _ mapped.words
            (header_wide big) header_le (omega (arith, bounds, fits)))
          (read_header-fill_zero m.base _ (place m.base (effective alignment)) w.words (bounds).1
            (omega (arith, block_inside)) (omega (arith, bounds, fits)))

    -- With an alignment above the page size, the header lies below a mapping that is not aligned.
    pub unaligned_below :
        o.page_size < alignment → (m.base % alignment == 0) ≡ false → header_addr < m.base
    unaligned_below big part =
        let same : effective alignment ≡ alignment = ground (arith, law.page_size_holds_header) in
        let up = round_up_bounds pow2 m.base in
        let next : m.base < round_up (effective alignment) m.base =
          ground (arith, same, up, round_up-mod (effective alignment) m.base) in
        let paged : round_up (effective alignment) m.base % o.page_size ≡ 0 =
          IsPow2-mod pow2 law.page_size_pow2 _ (omega (arith, same))
            (round_up-mod (effective alignment) m.base) in
        let apart : m.base + o.page_size ≤ round_up (effective alignment) m.base =
          multiples_apart o.page_size m.base _ m.base_aligned paged next in
        omega (
          arith,
          header_addr_eq,
          header_below pow2 m.base (omega (arith, same, law.page_size_holds_header)) low fits
              (omega (arith, apart, law.page_size_holds_header)),
        )
