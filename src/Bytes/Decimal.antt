-- ===== src/Bytes/Decimal.antt =====
-- Decimal numbers: what `std::ostream << int` prints and what `strtol(…, 10)` reads from digits.
use building_programming_lan.Prelude.{
  ℕ, zero, suc, ◌+◌, ◌-◌, ◌*◌, ◌/◌, ◌%◌, ◌^◌, ◌<◌, ◌≡◌, ◌∙◌, [], ◌∷◌, ◌++◌, arith, ltb, leb, ◌&&◌,
  if◌then◌else◌, append_assoc, append-nil, refl, sym, ap, inl, inr, Bool-cases,
}
use native.Mathlib.Nat.{pow-suc}
use building_programming_lan.Bytes.{Bytes}

-- The digits of a number, most significant first; `fuel` bounds how many there are.
unfoldable pub digits : ℕ → ℕ → Bytes
digits zero n = []
digits (suc fuel) n =
    let more = digits fuel (n / 10) in
    if ltb n 10 then (48 + n) ∷ [] else more ++ (48 + n % 10) ∷ []

-- A number below 10¹⁰, which holds every `int32_t`, has at most ten digits.
unfoldable pub decimal : ℕ → Bytes
decimal n = digits 10 n

-- The digits read so far and those to come; reading stops at the first byte that is no digit.
unfoldable pub read_digits : ℕ → Bytes → ℕ
read_digits acc [] = acc
read_digits acc (c ∷ s) =
    let rest = read_digits (acc * 10 + (c - 48)) s in if leb 48 c && leb c 57 then rest else acc

zero_of_lt_one : (n : ℕ) → n < 1 → n ≡ 0
zero_of_lt_one n h = omega arith

last_digit : (n : ℕ) → n / 10 * 10 + (48 + n % 10 - 48) ≡ n
last_digit n = omega arith

-- Reading what was printed gives the number, and goes on with what follows it.
pub read_digits-digits :
    (fuel n : ℕ) (s : Bytes) → n < 10 ^ fuel → read_digits 0 (digits fuel n ++ s) ≡ read_digits n s
unfolding read_digits digits
read_digits-digits zero n s h = rw (zero_of_lt_one n (omega arith))
read_digits-digits (suc fuel) n s h = elim (Bool-cases (ltb n 10)) [
  | inl small ↦ rw small (ground arith)
  | inr large ↦
      rw (large, append_assoc)
        (read_digits-digits fuel (n / 10) ((48 + n % 10) ∷ s) (omega (arith, pow-suc 10 fuel))
          ∙ ground (arith, ap (λ (k : ℕ). read_digits k s) (last_digit n)))
]

pub read_decimal : (n : ℕ) → n < 10000000000 → read_digits 0 (decimal n) ≡ n
unfolding decimal
read_decimal n h =
    ap (read_digits 0) (sym (append-nil (digits 10 n)))
    ∙ read_digits-digits 10 n [] h
    ∙ (unfold read_digits in refl)
