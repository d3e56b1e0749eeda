-- ===== src/OsAllocator/Header.antt =====
-- The headers of the mappings in src/SysApi.cpp, and what `OS_Free` does with them.
use sallocator.Base.{ℕ, ◌^◌, ◌≤◌, ◌<◌, ◌≡◌, ◌≢◌, ◌⊎◌, ◌+◌, Bool, false, arith, ltb, ◌==◌, sub64}
use sallocator.Os.{Kind, Os, win32, posix, Platform, IsLawful, Releases}
use sallocator.OsAllocator.{
  Build, Sys, AllocHeader, write_word, write_header, read_header, fill_zero, os_free, unmap,
}
use sallocator.OsAllocator.Pages.{get_page_size_eq, IsCached}

-- The header that `OS_Free` finds, and what it does with it.
pub read_header-write_header :
    (a : ℕ) (h : AllocHeader) (words : ℕ → ℕ)
    → a < 2 ^ 64
    → read_header a (write_header a h words) ≡ h
unfolding read_header write_header write_word
read_header-write_header a h words lt = ground arith

pub write_header-base :
    (a : ℕ) (h : AllocHeader) (words : ℕ → ℕ) → a < 2 ^ 64 → write_header a h words a ≡ h.base_ptr
unfolding write_header write_word
write_header-base a h words lt = ground arith

-- A header that is written 32 bytes or more below a block is not the one 16 bytes below it.
pub read_header-write_header_far :
    (p n : ℕ) (h : AllocHeader) (words : ℕ → ℕ)
    → 32 ≤ n
    → n ≤ p
    → p < 2 ^ 64
    → read_header (sub64 p 16) (write_header (sub64 p n) h words) ≡ read_header (sub64 p 16) words
unfolding read_header write_header write_word
read_header-write_header_far p n h words far le lt = ground arith

-- The words in a new mapping are 0.
pub read_header-fill_zero :
    (base n p : ℕ) (words : ℕ → ℕ)
    → base + 16 ≤ p
    → p ≤ base + n
    → p < 2 ^ 64
    → read_header (sub64 p 16) (fill_zero base n words) ≡ record { base_ptr = 0; total_size = 0 }
unfolding read_header fill_zero
read_header-fill_zero base n p words room le lt = ground arith

-- The headers outside of it stay.
pub read_header-fill_zero_apart :
    (base n c : ℕ) (words : ℕ → ℕ)
    → (base + n + 16 ≤ c) ⊎ (c ≤ base)
    → 16 ≤ c
    → c < 2 ^ 64
    → read_header (sub64 c 16) (fill_zero base n words) ≡ read_header (sub64 c 16) words
unfolding read_header fill_zero
read_header-fill_zero_apart base n c words apart ge lt = ground arith

-- The write of a header leaves the headers of other blocks alone.
pub read_header-write_header_apart :
    (p c : ℕ) (h : AllocHeader) (words : ℕ → ℕ)
    → (p + 16 ≤ c) ⊎ (c + 16 ≤ p)
    → 16 ≤ p
    → 16 ≤ c
    → p < 2 ^ 64
    → c < 2 ^ 64
    → read_header (sub64 c 16) (write_header (sub64 p 16) h words) ≡ read_header (sub64 c 16) words
unfolding read_header write_header write_word
read_header-write_header_apart p c h words apart p_ge c_ge p_lt c_lt = ground arith

pub unmap-Releases :
    {o : Os} (law : IsLawful o) (x : Platform) (nd : Bool) (h : AllocHeader) (s : o.State)
    → Releases o Kind.pages h.base_ptr h.total_size s
        (unmap o (record { platform = x; ndebug = nd }) h s)
unfolding unmap
unmap-Releases law win32 nd h s = law.virtual_free_law h.base_ptr h.total_size s
unmap-Releases law posix nd h s = law.munmap_law h.base_ptr h.total_size s

pub os_free_pages :
    {o : Os} (law : IsLawful o) (b : Build) (p size : ℕ) (w : Sys o)
    → p ≢ 0
    → IsCached w
    → o.page_size ≤ size
    → (os_free b p size w).os ≡ unmap o b (read_header (sub64 p 16) w.words) w.os
unfolding os_free
os_free_pages {o} law b p size w ne cached le =
    let live : (p == 0) ≡ false = ground arith in
    let big : ltb size o.page_size ≡ false = ground arith in
    rw (live, get_page_size_eq law w cached, big)
