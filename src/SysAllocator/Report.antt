-- ===== src/SysAllocator/Report.antt =====
-- `MemDetector::Print` of MemoryPool/include/Allocator.hpp, with the map of the records explicit.
-- The digits that `std::format_to` makes of a number are an argument.
use sallocator.Base.{
  ℕ, ◌<◌, ◌≤◌, ◌^◌, ◌≡◌, refl, Option, none, some, List, [], ◌∷◌, ◌++◌, All, arith, ◌==◌, length,
  length-append, Bytes, Bool-cases, inl, inr, map, concat, sym, ap, ◌∙◌, true,
}
use sallocator.SysAllocator.{PerThreadMallocData, MemDatas, lookup, try_emplace, add_new, register}

abbrev tid_text : Bytes
tid_text = b'{' ∷ b'\n' ∷ b'\t' ∷ b't' ∷ b'i' ∷ b'd' ∷ b'=' ∷ []

abbrev address_text : Bytes
address_text =
    b';' ∷ b'\n' ∷ b'\t' ∷ b'm' ∷ b'e' ∷ b'm' ∷ b'o' ∷ b'r' ∷ b'y' ∷ b'_' ∷ b'a' ∷ b'd' ∷ b'd'
    ∷ b'r' ∷ b'=' ∷ []

abbrev size_text : Bytes
size_text = b';' ∷ b'\n' ∷ b'\t' ∷ b's' ∷ b'i' ∷ b'z' ∷ b'e' ∷ b'=' ∷ []

abbrev alignment_text : Bytes
alignment_text =
    b';' ∷ b'\n' ∷ b'\t' ∷ b'a' ∷ b'l' ∷ b'i' ∷ b'g' ∷ b'n' ∷ b'm' ∷ b'e' ∷ b'n' ∷ b't' ∷ b'=' ∷ []

abbrev time_text : Bytes
time_text =
    b'\n' ∷ b'\t' ∷ b'a' ∷ b'l' ∷ b'l' ∷ b'o' ∷ b'c' ∷ b'a' ∷ b't' ∷ b'e' ∷ b' ' ∷ b't' ∷ b'i'
    ∷ b'm' ∷ b'e' ∷ b'=' ∷ []

abbrev end_text : Bytes
end_text = b'\n' ∷ b'}' ∷ b'\n' ∷ []

abbrev pub buffer_size : ℕ
buffer_size = 512

-- What is written to `buffer`, without the terminator.
unfoldable pub format_one : (ℕ → Bytes) → PerThreadMallocData → Bytes
format_one digits d =
    tid_text
    ++ (digits d.tid
        ++ (address_text
            ++ (digits d.ptr
                ++ (size_text
                    ++ (digits d.size
                        ++ (alignment_text
                            ++ (digits d.align ++ (time_text ++ (digits d.time ++ end_text)))))))))

abbrev zero_data : PerThreadMallocData
zero_data = record { tid = 0; ptr = 0; size = 0; align = 0; time = 0 }

-- `mem_datas[tid]`, which adds a record of zeros for a key that is missing.
abbrev found_or_added : ℕ → MemDatas → Option PerThreadMallocData → PerThreadMallocData × MemDatas
found_or_added tid datas none = (zero_data, (tid, zero_data) ∷ datas)
found_or_added tid datas (some d) = (d, datas)

-- `print_one`
unfoldable pub print_one : (ℕ → Bytes) → ℕ → MemDatas → Bytes × MemDatas
unfolding lookup format_one
print_one digits tid datas =
    let (d, datas') = found_or_added tid datas (lookup tid datas) in
    (format_one digits (record d { tid = tid }), datas')

-- The loop of `Print` over the records `rest`.
unfoldable pub print_loop : (ℕ → Bytes) → (rest datas : MemDatas) → Bytes × MemDatas
unfolding print_one
print_loop digits [] datas = ([], datas)
print_loop digits ((k, d) ∷ rest) datas =
    let (text, datas') = print_one digits d.tid datas in
    let (texts, datas'') = print_loop digits rest datas' in (text ++ texts, datas'')

unfoldable pub print : (ℕ → Bytes) → MemDatas → Bytes × MemDatas
unfolding print_loop
print digits datas = print_loop digits datas datas

-- The fields of a record have 64 bits.
pub record IsWords (d : PerThreadMallocData) : Type 0 where
  pub tid : d.tid < 2 ^ 64
  pub ptr : d.ptr < 2 ^ 64
  pub size : d.size < 2 ^ 64
  pub align : d.align < 2 ^ 64
  pub time : d.time < 2 ^ 64

-- With at most 20 digits for each number, the text and its terminator fit the buffer.
format_one-fits :
    (digits : ℕ → Bytes) (d : PerThreadMallocData)
    → ((n : ℕ) → n < 2 ^ 64 → length (digits n) ≤ 20)
    → IsWords d
    → length (format_one digits d) < buffer_size
unfolding format_one
format_one-fits digits d few w =
    let r5 = digits d.time ++ end_text in
    let r4 = digits d.align ++ (time_text ++ r5) in
    let r3 = digits d.size ++ (alignment_text ++ r4) in
    let r2 = digits d.ptr ++ (size_text ++ r3) in
    omega (
      arith,
      length-append (digits d.tid) (address_text ++ r2),
      few d.tid w.tid,
      length-append (digits d.ptr) (size_text ++ r3),
      few d.ptr w.ptr,
      length-append (digits d.size) (alignment_text ++ r4),
      few d.size w.size,
      length-append (digits d.align) (time_text ++ r5),
      few d.align w.align,
      length-append (digits d.time) end_text,
      few d.time w.time,
    )

-- The entries of `rest` have their own thread as their key, by which they are found.
abbrev IsFound : (rest datas : MemDatas) → Type 0
IsFound rest datas = All (λ e. (e.0 ≡ e.1.tid) × (lookup e.0 datas ≡ some e.1)) rest

IsFound-cons :
    (rest datas : MemDatas) (tid : ℕ) (new : PerThreadMallocData)
    → lookup tid datas ≡ none
    → IsFound rest datas
    → IsFound rest ((tid, new) ∷ datas)
unfolding lookup
IsFound-cons [] datas tid new missing h = tt
IsFound-cons ((k, d) ∷ rest) datas tid new missing ((own, found), h) = (
  (
    own,
    elim (Bool-cases (tid == k)) [
      | inl same ↦
          let e : tid ≡ k = ground arith in
          absurd (cc (sym missing ∙ ap (λ x. lookup x datas) e ∙ found))
      | inr apart ↦ rw apart found
    ],
  ),
  IsFound-cons rest datas tid new missing h,
)

add_new-IsFound :
    (tid : ℕ) (new : PerThreadMallocData) (datas : MemDatas)
    → tid ≡ new.tid
    → IsFound datas datas
    → (found : Option PerThreadMallocData) → lookup tid datas ≡ found
    → let after = add_new found tid new datas in IsFound after after
unfolding lookup
add_new-IsFound tid new datas own h none e =
    let self : (tid == tid) ≡ true = ground arith in
    ((own, rw self refl), IsFound-cons datas datas tid new e h)
add_new-IsFound tid new datas own h (some d) e = h

-- The records after calls of `Register`, the last one first.
unfoldable pub registered : List PerThreadMallocData → MemDatas
unfolding register try_emplace
registered [] = []
registered (d ∷ ds) = register d.tid d.ptr d.size d.align d.time (registered ds)

registered-IsFound : (ds : List PerThreadMallocData) → IsFound (registered ds) (registered ds)
unfolding registered register try_emplace
registered-IsFound [] = tt
registered-IsFound (d ∷ ds) =
    add_new-IsFound d.tid d (registered ds) refl (registered-IsFound ds) _ refl

print_loop-IsFound :
    (digits : ℕ → Bytes) (rest datas : MemDatas)
    → IsFound rest datas
    → print_loop digits rest datas ≡ (concat (map (λ e. format_one digits e.1) rest), datas)
unfolding print_loop print_one
print_loop-IsFound digits [] datas h = refl
print_loop-IsFound digits ((k, d) ∷ rest) datas ((own, found), h) =
    let there : lookup d.tid datas ≡ some d = ap (λ x. lookup x datas) (sym own) ∙ found in
    rw (there, print_loop-IsFound digits rest datas h) refl

registered-IsWords :
    (ds : List PerThreadMallocData) → All IsWords ds → All (λ e. IsWords e.1) (registered ds)
unfolding registered register try_emplace
registered-IsWords [] h = tt
registered-IsWords (d ∷ ds) (w, h) = added (lookup d.tid (registered ds)) (registered-IsWords ds h)
  where
    added :
        (found : Option PerThreadMallocData)
        → All (λ e. IsWords e.1) (registered ds)
        → All (λ e. IsWords e.1) (add_new found d.tid d (registered ds))
    added none rest = (w, rest)
    added (some f) rest = rest

-- After any calls of Register with arguments of 64 bits, and with at most 20 digits for each
-- number of 64 bits, Print writes the text of each record in the map once, leaves the map as it
-- is, and each text fits the buffer of 512 bytes with its terminator.
pub print-registered :
    (digits : ℕ → Bytes) (ds : List PerThreadMallocData)
    → ((n : ℕ) → n < 2 ^ 64 → length (digits n) ≤ 20)
    → All IsWords ds
    → (print digits (registered ds)
        ≡ (concat (map (λ e. format_one digits e.1) (registered ds)), registered ds))
      × All (λ e. length (format_one digits e.1) < buffer_size) (registered ds)
unfolding print
print-registered digits ds few words = (
  print_loop-IsFound digits (registered ds) (registered ds) (registered-IsFound ds),
  all_fit (registered ds) (registered-IsWords ds words),
)
  where
    all_fit :
        (datas : MemDatas)
        → All (λ e. IsWords e.1) datas
        → All (λ e. length (format_one digits e.1) < buffer_size) datas
    all_fit [] h = tt
    all_fit (e ∷ datas) (w, h) = (format_one-fits digits e.1 few w, all_fit datas h)
