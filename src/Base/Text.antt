-- ===== src/Base/Text.antt =====
-- `std::string` as a list of bytes: the searches and the substrings that the components use.
use Prim.Native.Nat.{ℕ, zero, suc, ◌+◌, ◌-◌, ◌^◌, ◌≤◌}
use mathlib.Core.Path.{◌≡◌, refl, ap}
use mathlib.Core.Logic.{◌≢◌}
use mathlib.Core.List.{List, [], ◌∷◌, ◌++◌}
use native.Mathlib.Omega.{arith}
use mathlib.Core.Bool.{Bool, true, false, ◌&&◌}
use sallocator.Base.Tests.{◌==◌, if◌then◌else◌}
use sallocator.Base.Lists.{length, All}

abbrev pub Bytes : Type 0
Bytes = List ℕ

-- `std::string::npos`
abbrev pub npos : ℕ
npos = 2 ^ 64 - 1

abbrev pub drop {ℓ} : {A : Type ℓ} → ℕ → List A → List A
drop zero xs = xs
drop (suc n) [] = []
drop (suc n) (x ∷ xs) = drop n xs

abbrev pub take {ℓ} : {A : Type ℓ} → ℕ → List A → List A
take zero xs = []
take (suc n) [] = []
take (suc n) (x ∷ xs) = x ∷ take n xs

abbrev pub concat : List Bytes → Bytes
concat [] = []
concat (s ∷ rest) = s ++ concat rest

unfoldable pub same_text : Bytes → Bytes → Bool
same_text [] [] = true
same_text [] (y ∷ ys) = false
same_text (x ∷ xs) [] = false
same_text (x ∷ xs) (y ∷ ys) = (x == y) && same_text xs ys

-- The first index from `i` on at which the rest `s` of a text has the byte.
unfoldable pub find_at : (c i : ℕ) → Bytes → ℕ
find_at c i [] = npos
find_at c i (x ∷ s) = let rest = find_at c (suc i) s in if x == c then i else rest

-- `s.find(c, pos)`
unfoldable pub find : Bytes → (c pos : ℕ) → ℕ
unfolding find_at
find s c pos = find_at c pos (drop pos s)

-- The last such index, or `last`.
unfoldable pub rfind_at : (c i last : ℕ) → Bytes → ℕ
rfind_at c i last [] = last
rfind_at c i last (x ∷ s) = rfind_at c (suc i) (if x == c then i else last) s

-- `s.rfind(c)`
unfoldable pub rfind : Bytes → (c : ℕ) → ℕ
unfolding rfind_at
rfind s c = rfind_at c 0 npos s

-- `s.substr(pos, count)`, for a `pos` that is not behind the end.
unfoldable pub substr : Bytes → (pos count : ℕ) → Bytes
substr s pos count = take count (drop pos s)

-- The byte does not occur.
abbrev pub Lacks : ℕ → Bytes → Type 0
Lacks c s = All (λ x. x ≢ c) s

pub find_at-append :
    (c i : ℕ) (xs ys : Bytes) → Lacks c xs → find_at c i (xs ++ c ∷ ys) ≡ i + length xs
unfolding find_at
find_at-append c i [] ys h = ground arith
find_at-append c i (x ∷ xs) ys h = ground (arith, h.0, find_at-append c (suc i) xs ys h.1)

pub find_at_none : (c i : ℕ) (xs : Bytes) → Lacks c xs → find_at c i xs ≡ npos
unfolding find_at
find_at_none c i [] h = refl
find_at_none c i (x ∷ xs) h = ground (arith, h.0, find_at_none c (suc i) xs h.1)

pub rfind_at_none : (c i last : ℕ) (xs : Bytes) → Lacks c xs → rfind_at c i last xs ≡ last
unfolding rfind_at
rfind_at_none c i last [] h = refl
rfind_at_none c i last (x ∷ xs) h = ground (arith, h.0, rfind_at_none c (suc i) last xs h.1)

pub rfind_at-append :
    (c i last : ℕ) (xs ys : Bytes) → Lacks c ys → rfind_at c i last (xs ++ c ∷ ys) ≡ i + length xs
unfolding rfind_at
rfind_at-append c i last [] ys h = ground (arith, rfind_at_none c (suc i) i ys h)
rfind_at-append c i last (x ∷ xs) ys h =
    omega (arith, rfind_at-append c (suc i) (if x == c then i else last) xs ys h)

module _ {ℓ} {A : Type ℓ} where
  pub drop-append : (xs ys : List A) (n : ℕ) → n ≡ length xs → drop n (xs ++ ys) ≡ ys
  drop-append [] ys zero e = refl
  drop-append [] ys (suc n) e = absurd (omega (arith, e))
  drop-append (x ∷ xs) ys zero e = absurd (omega (arith, e))
  drop-append (x ∷ xs) ys (suc n) e = drop-append xs ys n (omega (arith, e))

  pub take-append : (xs ys : List A) (n : ℕ) → n ≡ length xs → take n (xs ++ ys) ≡ xs
  take-append [] ys zero e = refl
  take-append [] ys (suc n) e = absurd (omega (arith, e))
  take-append (x ∷ xs) ys zero e = absurd (omega (arith, e))
  take-append (x ∷ xs) ys (suc n) e = ap (◌∷◌ x) (take-append xs ys n (omega (arith, e)))

  pub take_all : (xs : List A) (n : ℕ) → length xs ≤ n → take n xs ≡ xs
  take_all [] zero h = refl
  take_all [] (suc n) h = refl
  take_all (x ∷ xs) zero h = absurd (omega (arith, h))
  take_all (x ∷ xs) (suc n) h = ap (◌∷◌ x) (take_all xs n (omega (arith, h)))
