-- ===== src/Addr2sym/Backtrace.antt =====
-- What MemDetector/include/intern/addr2sym.hpp makes of the lines of `backtrace_symbols`.
use mathlib.Core.List.{append_assoc}
use sallocator.Base.{
  ℕ, suc, ◌+◌, ◌<◌, ◌≤◌, ◌≡◌, ◌≢◌, refl, ap, ◌∙◌, false, Option, none, some, [], ◌∷◌, ◌++◌, add64,
  sub64, ◌==◌, not, if◌then◌else◌, arith, length, length-append, Bytes, npos, find, rfind_at,
  substr, Lacks, find_at-append, drop, rfind_at-append, rfind_at_none, drop-append, take-append,
  take_all,
}
use sallocator.Addr2sym.{Symbols, demangled, after_slash, cut_line, addr2sym_unix}

-- The parts of a line "file(function+offset)address"; a line without a function has an empty one.
pub record Line : Type 0 where
  pub folder : Option Bytes
  pub file : Bytes
  pub function : Bytes
  pub offset : Bytes
  pub address : Bytes

-- The path, with its last slash.
abbrev path_of : Line → Bytes
path_of l = elim l.folder [ none ↦ l.file | some f ↦ f ++ b'/' ∷ l.file ]

abbrev pub print : Line → Bytes
print l = path_of l ++ (b'(' ∷ (l.function ++ (b'+' ∷ (l.offset ++ (b')' ∷ l.address)))))

-- The marks of a line stand only where they belong.
pub record IsLine (l : Line) : Type 0 where
  pub path : Lacks b'(' (path_of l)
  pub file : Lacks b'/' l.file
  pub function : Lacks b'+' l.function
  pub offset : Lacks b')' l.offset × Lacks b'/' l.offset
  pub short : length (print l) < npos

-- The name of the function, or else of the file, with the offset.
abbrev symbol_of : (Bytes → Option Bytes) → (function file offset : Bytes) → Bytes
symbol_of demangle [] file offset = file ++ b'+' ∷ offset
symbol_of demangle (c ∷ cs) file offset = demangled (demangle (c ∷ cs)) (c ∷ cs) (b'+' ∷ offset)

abbrev pub symbol : (Bytes → Option Bytes) → Line → Bytes
symbol demangle l = symbol_of demangle l.function l.file l.offset

-- The searches of `cut_line` in a text of these parts.
module _ (p f o a : Bytes) (path : Lacks b'(' p) (function : Lacks b'+' f) (offset : Lacks b')' o)
    (short : length (p ++ (b'(' ∷ (f ++ (b'+' ∷ (o ++ (b')' ∷ a)))))) < npos) where
  ret : Bytes
  ret = p ++ (b'(' ∷ (f ++ (b'+' ∷ (o ++ (b')' ∷ a)))))

  abbrev at_plus : ℕ
  at_plus = length p + suc (length f)

  sizes : length p + (length f + (length o + 3)) ≤ length ret
  unfolding ret
  sizes = omega (
    arith,
    length-append p (b'(' ∷ (f ++ (b'+' ∷ (o ++ (b')' ∷ a))))),
    length-append f (b'+' ∷ (o ++ (b')' ∷ a))),
    length-append o (b')' ∷ a),
  )

  fits : length p + (length f + (length o + 3)) < npos
  unfolding ret
  fits = omega (arith, short, sizes)

  find_open : find ret b'(' 0 ≡ length p
  unfolding find ret
  find_open = find_at-append b'(' 0 p _ path ∙ omega arith

  drop_open : drop (length p) ret ≡ b'(' ∷ (f ++ (b'+' ∷ (o ++ (b')' ∷ a))))
  unfolding ret
  drop_open = drop-append p _ (length p) refl

  find_plus : find ret b'+' (length p) ≡ at_plus
  unfolding find
  find_plus =
      rw drop_open
        (find_at-append b'+' (length p) (b'(' ∷ f) (o ++ (b')' ∷ a)) (omega arith, function))

  drop_plus : drop at_plus ret ≡ b'+' ∷ (o ++ (b')' ∷ a))
  unfolding ret
  drop_plus =
      rw (← append_assoc p (b'(' ∷ f) (b'+' ∷ (o ++ (b')' ∷ a))))
        (drop-append (p ++ b'(' ∷ f) _ at_plus (omega (arith, length-append p (b'(' ∷ f))))

  find_close : find ret b')' at_plus ≡ at_plus + suc (length o)
  unfolding find
  find_close = rw drop_plus (find_at-append b')' at_plus (b'+' ∷ o) a (omega arith, offset))

  cut_offset : substr ret at_plus (suc (length o)) ≡ b'+' ∷ o
  unfolding substr
  cut_offset = rw drop_plus (ap (◌∷◌ b'+') (take-append o (b')' ∷ a) (length o) refl))

  cut_name : substr ret (length p + 1) (length f) ≡ f
  unfolding substr ret
  cut_name =
      let split = append_assoc p (b'(' ∷ []) (f ++ (b'+' ∷ (o ++ (b')' ∷ a)))) in
      let rest : drop (length p + 1) (p ++ (b'(' ∷ (f ++ (b'+' ∷ (o ++ (b')' ∷ a))))))
          ≡ f ++ (b'+' ∷ (o ++ (b')' ∷ a))) =
        rw (← split) (
          drop-append (p ++ b'(' ∷ []) _ (length p + 1)
            (omega (arith, length-append p (b'(' ∷ [])))) in
      rw rest (take-append f _ (length f) refl)

  cut_path : substr ret 0 (length p) ≡ p
  unfolding substr ret
  cut_path = take-append p _ (length p) refl

  cut_line_eq :
      (demangle : Bytes → Option Bytes)
      → cut_line demangle ret ≡ (
          if not (length f == 0)
          then demangled (demangle f) f (b'+' ∷ o)
          else after_slash (p ++ b'+' ∷ o))
  unfolding cut_line
  cut_line_eq demangle =
      let after : add64 (length p) 1 ≡ length p + 1 = omega (arith, fits) in
      let wide : sub64 (at_plus + suc (length o)) at_plus ≡ suc (length o) = omega (arith, fits) in
      let long : sub64 (sub64 at_plus (length p)) 1 ≡ length f = omega (arith, fits) in
      let found : (length p == npos) ≡ false = ground (arith, fits) in
      let found2 : (at_plus == npos) ≡ false = ground (arith, fits) in
      let same : (at_plus == (length p + 1)) ≡ (length f == 0) = ground (arith, fits) in
      rw
        (
          find_open, find_plus, find_close, after, wide, long, found, found2, same, cut_offset,
          cut_name, cut_path,
        )
        refl

after_slash_none : (s : Bytes) → Lacks b'/' s → after_slash s ≡ s
unfolding after_slash
after_slash_none s h = rw (rfind_at_none b'/' 0 npos s h) refl

after_slash-append :
    (d s : Bytes) → Lacks b'/' s → length (d ++ b'/' ∷ s) < npos → after_slash (d ++ b'/' ∷ s) ≡ s
unfolding after_slash
after_slash-append d s h short =
    let size = length-append d (b'/' ∷ s) in
    let last : rfind_at b'/' 0 npos (d ++ b'/' ∷ s) ≡ length d =
      rfind_at-append b'/' 0 npos d s h ∙ omega arith in
    let found : (length d == npos) ≡ false = ground (arith, size, short) in
    let after : add64 (length d) 1 ≡ length d + 1 = omega (arith, size, short) in
    let rest : drop (length d + 1) (d ++ b'/' ∷ s) ≡ s = rw (← append_assoc d (b'/' ∷ []) s) (
      drop-append (d ++ b'/' ∷ []) s (length d + 1) (omega (arith, length-append d (b'/' ∷ [])))) in
    rw (last, found, after, rest) (take_all s npos (omega (arith, size, short)))

Lacks-append : (c : ℕ) (xs ys : Bytes) → Lacks c xs → Lacks c ys → Lacks c (xs ++ ys)
Lacks-append c [] ys h k = k
Lacks-append c (x ∷ xs) ys h k = (h.0, Lacks-append c xs ys h.1 k)

-- The path without its folder, and the offset.
base_name :
    (folder : Option Bytes) (file o : Bytes)
    → Lacks b'/' file
    → Lacks b'/' o
    → let p = elim folder as (λ x. Bytes) [ none ↦ file | some f ↦ f ++ b'/' ∷ file ] in
      length (p ++ b'+' ∷ o) < npos → after_slash (p ++ b'+' ∷ o) ≡ file ++ b'+' ∷ o
base_name none file o h k short =
    after_slash_none (file ++ b'+' ∷ o) (Lacks-append b'/' file (b'+' ∷ o) h (omega arith, k))
base_name (some f) file o h k short =
    let split = append_assoc f (b'/' ∷ file) (b'+' ∷ o) in
    rw split (
      after_slash-append f (file ++ b'+' ∷ o) (Lacks-append b'/' file (b'+' ∷ o) h (omega arith, k))
        (rw split at short))

module _ (sys : Symbols) (addr : ℕ) (l : Line) (h : IsLine l) where
  cut_line-print : cut_line sys.demangle (print l) ≡ (
      if not (length l.function == 0)
      then demangled (sys.demangle l.function) l.function (b'+' ∷ l.offset)
      else after_slash (path_of l ++ b'+' ∷ l.offset))
  unfolding ret
  cut_line-print =
      cut_line_eq (path_of l) l.function l.offset l.address h.path h.function h.offset.0 h.short
        sys.demangle

  path_fits : length (path_of l ++ b'+' ∷ l.offset) < npos
  path_fits = omega (
    arith,
    length-append (path_of l) (b'+' ∷ l.offset),
    fits (path_of l) l.function l.offset l.address h.path h.function h.offset.0 h.short,
  )

  cut_line-symbol :
      (fn : Bytes) → l.function ≡ fn → cut_line sys.demangle (print l) ≡ symbol sys.demangle l
  cut_line-symbol [] e =
      rw (cut_line-print, symbol, e)
        (base_name l.folder l.file l.offset h.file h.offset.1 path_fits)
  cut_line-symbol (c ∷ cs) e =
      let named : (length (c ∷ cs) == 0) ≡ false = ground arith in
      rw (cut_line-print, symbol, e, named) refl

  -- If backtrace_symbols gives for an address that is not null a line path(function+offset)address
  -- in which the marks stand only there, addr2sym gives the demangled function, or the function
  -- with () and the offset if it cannot be demangled, or the name of the file without its folder
  -- and the offset if the function is empty.
  pub addr2sym_unix-symbol :
      addr ≢ 0
      → sys.backtrace_symbols addr ≡ some (print l)
      → addr2sym_unix sys addr ≡ symbol sys.demangle l
  unfolding addr2sym_unix
  addr2sym_unix-symbol ne e =
      let live : (addr == 0) ≡ false = ground arith in
      rw (live, e) (cut_line-symbol l.function refl)
