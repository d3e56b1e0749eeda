-- ===== src/StackMemory/Tests.antt =====
-- A `StackMemory` over a buffer that is cut from the front, and without an argument.
use sallocator.Base.{
  ℕ, ◌+◌, ◌-◌, ◌<◌, ◌≤◌, ◌≡◌, refl, Bool, true, false, Option, none, some, List, [], ◌∷◌, arith,
  leb,
}
use sallocator.Os.{posix}
use sallocator.StackMemory.{
  Monotonic, Limits, IsMonotonic, stack_memory, do_allocate, Call, allocates, deallocates, run,
  set_stack_size, stack_size,
}
use sallocator.StackMemory.Refuses.{stack_memory-refuses}

-- The upstream is the null resource (`true`) or one that always serves; a state is the next address,
-- the bytes left, and the upstream.
abbrev served : ℕ → ℕ → ℕ → Bool → Bool → Option ℕ × (ℕ × ℕ × Bool)
served bytes next left true false = (none, (next, left, true))
served bytes next left false false = (some 1, (next, left, false))
served bytes next left u true = (some next, (next + bytes, left - bytes, u))

abbrev cut : Monotonic
cut = record {
  Upstream = Bool;
  null_memory_resource = true;
  State = ℕ × ℕ × Bool;
  make = λ b n u. (b, n, u);
  do_allocate = λ bytes alignment s. served bytes s.0 s.1 s.2 (leb bytes s.1);
  do_deallocate = λ p bytes alignment s. s;
}

served-source : (bytes next left : ℕ) (u fits : Bool) → (served bytes next left u fits).1.2 ≡ u
served-source bytes next left true true = refl
served-source bytes next left true false = refl
served-source bytes next left false true = refl
served-source bytes next left false false = refl

served-room : (bytes next left : ℕ) (fits : Bool) → (served bytes next left true fits).1.1 ≤ left
served-room bytes next left true = omega arith
served-room bytes next left false = omega arith

cut-full :
    (bytes next left : ℕ) (u : Bool)
    → u ≡ true
    → left < bytes
    → (served bytes next left u (leb bytes left)).0 ≡ none
cut-full bytes next left u e h =
    let over : leb bytes left ≡ false = ground arith in rw (over, e) refl

cut-IsMonotonic : IsMonotonic cut
cut-IsMonotonic = record {
  room = λ s. s.1;
  source = λ s. s.2;
  make_room = λ b n u. omega arith;
  make_source = λ b n u. refl;
  same_source = λ bytes alignment s. served-source bytes s.0 s.1 s.2 (leb bytes s.1);
  less_room = λ bytes alignment s e. rw e (served-room bytes s.0 s.1 (leb bytes s.1));
  full = λ bytes alignment s e h. cut-full bytes s.0 s.1 s.2 e h;
  deallocates_nothing = λ p bytes alignment s. refl;
}

-- The soft limit and the hard one.
abbrev limits : Limits
limits = record { State = ℕ × ℕ; getrlimit = λ s. some s; setrlimit = λ rl s. rl }

abbrev calls : List Call
calls = allocates 16 8 ∷ deallocates 5 16 8 ∷ []

stack_memory-refuses_example :
    (do_allocate cut 24 8 (run cut calls (stack_memory cut limits posix true (5, 6)).0)).0 ≡ none
stack_memory-refuses_example =
    stack_memory-refuses cut-IsMonotonic limits posix (5, 6) calls 24 8 (omega arith)

-- Only the soft limit changes.
soft_limit : (stack_memory cut limits posix true (5, 6)).1 ≡ (stack_size, 6)
unfolding stack_memory set_stack_size
soft_limit = refl
