-- ===== src/Addr2sym/Tests.antt =====
-- Lines of `backtrace_symbols`, evaluated.
use sallocator.Base.{
  zero, suc, ◌≡◌, refl, true, false, Option, none, some, [], ◌∷◌, arith, ◌==◌, if◌then◌else◌, Bytes,
}
use sallocator.Addr2sym.{Symbols, addr2sym_unix, init_dbg_help, DbgHelp}
use sallocator.Addr2sym.Backtrace.{Line, IsLine, print, symbol, addr2sym_unix-symbol}

-- bin/a(f+1)[5]
abbrev line : Line
line = record {
  folder = some (b'b' ∷ b'i' ∷ b'n' ∷ []);
  file = b'a' ∷ [];
  function = b'f' ∷ [];
  offset = b'1' ∷ [];
  address = b'[' ∷ b'5' ∷ b']' ∷ [];
}

-- bin/a(+1)[5]
abbrev stripped : Line
stripped = record line { function = [] }

-- "f" is the mangled form of "g", and the address 7 is in a line without a function.
abbrev symbols : Symbols
symbols = record {
  backtrace_symbols = λ a. elim a as (λ x. Option Bytes) [
    | zero ↦ none
    | suc n ↦ if n == 6 then some (print stripped) else some (print line)
  ];
  demangle = λ s. some (b'g' ∷ []);
  sym_from_addr = λ a. some (b'f' ∷ []);
  undecorate = λ s. none;
  decimal = λ a. b'9' ∷ [];
  pointer_in_hex = λ a. b'9' ∷ [];
}

line-IsLine : IsLine line
line-IsLine = record {
  path = (omega arith, (omega arith, (omega arith, (omega arith, (omega arith, tt)))));
  file = (omega arith, tt);
  function = (omega arith, tt);
  offset = ((omega arith, tt), (omega arith, tt));
  short = omega arith;
}

addr2sym_unix-symbol_example : addr2sym_unix symbols 5 ≡ symbol symbols.demangle line
addr2sym_unix-symbol_example = addr2sym_unix-symbol symbols 5 line line-IsLine (omega arith) refl

named_line : addr2sym_unix symbols 5 ≡ b'g' ∷ []
unfolding addr2sym_unix
named_line = refl

stripped_line : addr2sym_unix symbols 7 ≡ b'a' ∷ b'+' ∷ b'1' ∷ []
unfolding addr2sym_unix
stripped_line = refl

-- The second call does nothing.
help_once :
    let fresh : DbgHelp = record { initialized = false; calls = 0 } in
    init_dbg_help (init_dbg_help fresh) ≡ record { initialized = true; calls = 1 }
unfolding init_dbg_help
help_once = refl
