-- ===== src/Bytes.antt =====
-- `std::string` and `std::string_view` as lists of byte values, with the members that the sources
-- call: comparison, `find`, `substr`.
pub mod Decimal
pub mod Search
use Prim.Native.Char.{code}
use building_programming_lan.Prelude.{
  ℕ, suc, String, ◌≡◌, refl, ◌↔◌, Bool, true, false, ◌&&◌, Option, none, some, List, [], ◌∷◌, ◌++◌,
  arith, ◌==◌, if◌then◌else◌,
}

abbrev pub Bytes : Type 0
Bytes = List ℕ

-- The code points of a literal: its bytes, since the literals are ASCII.
abbrev pub codes : String → Bytes
codes String.[] = []
codes (String.◌∷◌ c s) = code c ∷ codes s

-- `operator==` of strings.
unfoldable pub eq_bytes : Bytes → Bytes → Bool
eq_bytes [] [] = true
eq_bytes [] (y ∷ ys) = false
eq_bytes (x ∷ xs) [] = false
eq_bytes (x ∷ xs) (y ∷ ys) = x == y && eq_bytes xs ys

-- Whether the text begins with the needle.
unfoldable pub starts_with : Bytes → Bytes → Bool
starts_with [] s = true
starts_with (c ∷ n) [] = false
starts_with (c ∷ n) (x ∷ s) = c == x && starts_with n s

-- `s.find(needle)`: the offset of the first occurrence; `none` is `npos`.
unfoldable pub find : Bytes → Bytes → Option ℕ
find needle [] = if starts_with needle [] then some 0 else none
find needle (x ∷ s) =
    let later = find needle s in
    if starts_with needle (x ∷ s)
    then some 0
    else elim later [ none ↦ none | some k ↦ some (suc k) ]

pub eq_bytes_iff : (xs ys : Bytes) → (eq_bytes xs ys ≡ true) ↔ (xs ≡ ys)
unfolding eq_bytes
eq_bytes_iff [] [] = ground arith
eq_bytes_iff [] (y ∷ ys) = ground arith
eq_bytes_iff (x ∷ xs) [] = ground arith
eq_bytes_iff (x ∷ xs) (y ∷ ys) = ground (arith, eq_bytes_iff xs ys)

pub eq_bytes_refl : (xs : Bytes) → eq_bytes xs xs ≡ true
eq_bytes_refl xs = (eq_bytes_iff xs xs).1 refl

pub starts_with-append : (n s : Bytes) → starts_with n (n ++ s) ≡ true
unfolding starts_with
starts_with-append [] s = refl
starts_with-append (c ∷ n) s = ground (arith, starts_with-append n s)

-- A needle that stands at the front is the front.
pub starts_with_split : (n s : Bytes) → starts_with n s ≡ true → (rest : Bytes) × (s ≡ n ++ rest)
unfolding starts_with
starts_with_split [] s h = (s, refl)
starts_with_split (c ∷ n) [] h = absurd (ground arith)
starts_with_split (c ∷ n) (x ∷ s) h =
    let (rest, e) = starts_with_split n s (ground arith) in (rest, ground arith)

-- The offset of a search that found something.
abbrev pub offset : Option ℕ → ℕ
offset none = 0
offset (some k) = k
