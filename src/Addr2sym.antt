-- ===== src/Addr2sym.antt =====
-- MemDetector/include/intern/addr2sym.hpp: the name of the function at an address, one function for
-- each way to compile the header. A text is the list of its bytes. The calls of the system and of
-- the C library are an interface.
pub mod Backtrace
mod Tests
use sallocator.Base.{
  ℕ, ◌+◌, ◌-◌, Bool, true, false, Option, none, some, List, [], ◌∷◌, ◌++◌, add64, sub64, ◌==◌, not,
  if◌then◌else◌, Bytes, npos, find, rfind, substr,
}

-- `backtrace_symbols` of one address, `abi::__cxa_demangle`, `SymFromAddr`, `UnDecorateSymbolName`,
-- the formats `%llu` and `std::hex` of a pointer. `none` is a failure.
pub record Symbols : Type 0 where
  pub backtrace_symbols : ℕ → Option Bytes
  pub demangle : Bytes → Option Bytes
  pub sym_from_addr : ℕ → Option Bytes
  pub undecorate : Bytes → Option Bytes
  pub decimal : ℕ → Bytes
  pub pointer_in_hex : ℕ → Bytes

-- The texts "null", "???", "()" and "0x".
abbrev pub null_text : Bytes
null_text = b'n' ∷ b'u' ∷ b'l' ∷ b'l' ∷ []

abbrev pub unknown_text : Bytes
unknown_text = b'?' ∷ b'?' ∷ b'?' ∷ []

abbrev pub call_text : Bytes
call_text = b'(' ∷ b')' ∷ []

abbrev pub hex_text : Bytes
hex_text = b'0' ∷ b'x' ∷ []

-- `if (demangled) ... else ...`, for the mangled name `ret`.
abbrev pub demangled : Option Bytes → (ret offset : Bytes) → Bytes
demangled (some name) ret offset = name
demangled none ret offset = ret ++ call_text ++ offset

-- What stands behind the last slash.
unfoldable pub after_slash : Bytes → Bytes
unfolding rfind substr
after_slash ret =
    let slash = rfind ret b'/' in
    if not (slash == npos) then substr ret (add64 slash 1) npos else ret

-- A line of `backtrace_symbols` cut into its parts.
unfoldable pub cut_line : (Bytes → Option Bytes) → Bytes → Bytes
unfolding find substr after_slash
cut_line demangle ret =
    let pos = find ret b'(' 0 in
    let pos2 = find ret b'+' pos in
    let pos3 = find ret b')' pos2 in
    let offset = substr ret pos2 (sub64 pos3 pos2) in
    let name = substr ret (add64 pos 1) (sub64 (sub64 pos2 pos) 1) in
    if pos == npos
    then ret
    else if pos2 == npos
    then ret
    else if not (pos2 == add64 pos 1)
    then demangled (demangle name) name offset
    else after_slash (substr ret 0 pos ++ offset)

-- The static variable of `init_dbg_help`, and how often it has called `SymInitialize`.
pub record DbgHelp : Type 0 where
  pub initialized : Bool
  pub calls : ℕ

unfoldable pub init_dbg_help : DbgHelp → DbgHelp
init_dbg_help d =
    if not d.initialized then record { initialized = true; calls = d.calls + 1 } else d

module _ (sys : Symbols) where
  -- Under Unix.
  unfoldable pub addr2sym_unix : ℕ → Bytes
  unfolding cut_line
  addr2sym_unix addr = if addr == 0 then null_text else elim (sys.backtrace_symbols addr) [
    | none ↦ unknown_text
    | some line ↦ cut_line sys.demangle line
  ]

  -- `UnDecorateSymbolName`, or the name as it is.
  abbrev undecorated : Bytes → Bytes
  undecorated name = elim (sys.undecorate name) [ none ↦ name | some text ↦ text ]

  -- With the compiler of Microsoft.
  unfoldable pub addr2sym_msvc : ℕ → DbgHelp → Bytes × DbgHelp
  unfolding init_dbg_help
  addr2sym_msvc addr d =
      let text : Bytes = if addr == 0 then null_text else elim (sys.sym_from_addr addr) [
        | none ↦ hex_text ++ sys.decimal addr
        | some name ↦ undecorated name
      ] in
      (text, init_dbg_help d)

  -- With another compiler under Windows, where the text "_WIN32" is printed too.
  unfoldable pub addr2sym_win32 : ℕ → DbgHelp → Bytes × DbgHelp
  unfolding init_dbg_help
  addr2sym_win32 addr d =
      let text : Bytes = elim (sys.sym_from_addr addr) [
        | none ↦ unknown_text
        | some name ↦ undecorated name
      ] in
      (text, init_dbg_help d)

  -- Elsewhere.
  unfoldable pub addr2sym_other : ℕ → Bytes
  addr2sym_other addr = if addr == 0 then null_text else hex_text ++ sys.pointer_in_hex addr
