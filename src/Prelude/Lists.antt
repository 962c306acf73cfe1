-- ===== src/Prelude/Lists.antt =====
-- Lists measured and indexed by native numbers, under the library's names.
use Prim.Native.Nat.{ℕ, zero, suc, ◌+◌, ◌-◌, ◌≤◌, ◌<◌, min}
use mathlib.Core.Path.{◌≡◌, refl, ap, sym, subst}
use mathlib.Core.List.{List, [], ◌∷◌, ◌++◌}
use mathlib.Core.Option.{Option, none, some}
use native.Mathlib.Omega.{arith}

zero_add : (n : ℕ) → 0 + n ≡ n
zero_add n = omega arith

zero_min : (n : ℕ) → min 0 n ≡ 0
zero_min n = omega arith

zero_of_min : (n : ℕ) → min n 0 ≡ 0
zero_of_min n = omega arith

zero_sub : (n : ℕ) → 0 - n ≡ 0
zero_sub n = omega arith

sub_zero : (n : ℕ) → n - 0 ≡ n
sub_zero n = omega arith

min-suc : (m n : ℕ) → min (suc m) (suc n) ≡ suc (min m n)
min-suc m n = omega arith

suc_sub : (m n : ℕ) → suc m - suc n ≡ m - n
suc_sub m n = omega arith

suc_add : (m n : ℕ) → suc (m + n) ≡ suc m + n
suc_add m n = omega arith

module _ {ℓ} {A : Type ℓ} where
  abbrev pub length : List A → ℕ
  length [] = 0
  length (x ∷ xs) = suc (length xs)

  abbrev pub get_elem? : List A → ℕ → Option A
  get_elem? [] i = none
  get_elem? (x ∷ xs) zero = some x
  get_elem? (x ∷ xs) (suc i) = get_elem? xs i

  abbrev pub take : ℕ → List A → List A
  take zero xs = []
  take (suc n) [] = []
  take (suc n) (x ∷ xs) = x ∷ take n xs

  abbrev pub drop : ℕ → List A → List A
  drop zero xs = xs
  drop (suc n) [] = []
  drop (suc n) (x ∷ xs) = drop n xs

  pub length-append : (xs ys : List A) → length (xs ++ ys) ≡ length xs + length ys
  length-append [] ys = omega arith
  length-append (x ∷ xs) ys = omega (arith, length-append xs ys)

  pub take-append-drop : (n : ℕ) (xs : List A) → take n xs ++ drop n xs ≡ xs
  take-append-drop zero xs = refl
  take-append-drop (suc n) [] = refl
  take-append-drop (suc n) (x ∷ xs) = rw (take-append-drop n xs)

  pub length-take : (n : ℕ) (xs : List A) → length (take n xs) ≡ min n (length xs)
  length-take zero xs = omega arith
  length-take (suc n) [] = omega arith
  length-take (suc n) (x ∷ xs) = omega (arith, length-take n xs)

  pub length-drop : (n : ℕ) (xs : List A) → length (drop n xs) ≡ length xs - n
  length-drop zero xs = omega arith
  length-drop (suc n) [] = omega arith
  length-drop (suc n) (x ∷ xs) = omega (arith, length-drop n xs)

  pub take-length_append : (xs ys : List A) → take (length xs) (xs ++ ys) ≡ xs
  take-length_append [] ys = refl
  take-length_append (x ∷ xs) ys = ap (◌∷◌ x) (take-length_append xs ys)

  pub drop-length_append : (xs ys : List A) → drop (length xs) (xs ++ ys) ≡ ys
  drop-length_append [] ys = refl
  drop-length_append (x ∷ xs) ys = drop-length_append xs ys

  pub take_all : (n : ℕ) (xs : List A) → length xs ≤ n → take n xs ≡ xs
  take_all zero [] h = refl
  take_all zero (x ∷ xs) h = absurd (omega arith)
  take_all (suc n) [] h = refl
  take_all (suc n) (x ∷ xs) h = ap (◌∷◌ x) (take_all n xs (omega arith))

  pub drop_all : (n : ℕ) (xs : List A) → length xs ≤ n → drop n xs ≡ []
  drop_all zero [] h = refl
  drop_all zero (x ∷ xs) h = absurd (omega arith)
  drop_all (suc n) [] h = refl
  drop_all (suc n) (x ∷ xs) h = drop_all n xs (omega arith)

  -- The last element, as `back()` of a vector that is not empty.
  abbrev pub get_last? : List A → Option A
  get_last? [] = none
  get_last? (x ∷ []) = some x
  get_last? (x ∷ y ∷ xs) = get_last? (y ∷ xs)

  pub take-append_left :
      (n : ℕ) (xs ys : List A) → n < length xs + 1 → take n (xs ++ ys) ≡ take n xs
  take-append_left zero xs ys h = refl
  take-append_left (suc n) [] ys h = absurd (omega arith)
  take-append_left (suc n) (x ∷ xs) ys h = ap (◌∷◌ x) (take-append_left n xs ys (omega arith))

  pub drop-append_add : (xs ys : List A) (n : ℕ) → drop (length xs + n) (xs ++ ys) ≡ drop n ys
  drop-append_add [] ys n = ap (λ (k : ℕ). drop k ys) (zero_add n)
  drop-append_add (x ∷ xs) ys n =
      subst (λ (k : ℕ). drop k (x ∷ (xs ++ ys)) ≡ drop n ys) (suc_add (length xs) n)
        (drop-append_add xs ys n)

  pub take-append :
      (n : ℕ) (xs ys : List A)
      → take n (xs ++ ys) ≡ take (min n (length xs)) xs ++ take (n - length xs) ys
  take-append zero xs ys = ground (arith, zero_min (length xs), zero_sub (length xs))
  take-append (suc n) [] ys = rw (zero_of_min (suc n), sub_zero (suc n))
  take-append (suc n) (x ∷ xs) ys =
      rw (min-suc n (length xs), suc_sub n (length xs)) (ap (◌∷◌ x) (take-append n xs ys))

  take_nil : (n : ℕ) → take n [] ≡ []
  take_nil zero = refl
  take_nil (suc n) = refl

  pub take-take :
      (n m : ℕ) (xs : List A)
      → take (min n (length xs)) xs ++ take m (drop (min n (length xs)) xs) ≡ take (n + m) xs
  take-take zero m xs = rw (zero_min (length xs)) (ap (λ (k : ℕ). take k xs) (sym (zero_add m)))
  take-take (suc n) m [] = rw (zero_of_min (suc n), ← suc_add n m) (take_nil m)
  take-take (suc n) m (x ∷ xs) =
      rw (min-suc n (length xs), ← suc_add n m) (ap (◌∷◌ x) (take-take n m xs))

  pub drop-drop : (i k : ℕ) (xs : List A) → drop (i + k) xs ≡ drop k (drop i xs)
  drop-drop zero k xs = ap (λ (j : ℕ). drop j xs) (zero_add k)
  drop-drop (suc i) zero [] = rw (← suc_add i 0)
  drop-drop (suc i) (suc k) [] = rw (← suc_add i (suc k))
  drop-drop (suc i) k (x ∷ xs) = rw (← suc_add i k) (drop-drop i k xs)
