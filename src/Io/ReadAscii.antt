-- ===== src/Io/ReadAscii.antt =====
-- operation/readintfromascii.cpp. `errno` is a variable of the thread that the operation reads and
-- never clears: whether it is ERANGE goes in and comes out.
use building_programming_lan.Prelude.{
  ℕ, zero, suc, ◌+◌, ◌<◌, ◌≡◌, ◌≢◌, refl, sym, ◌∙◌, ap, Bool, true, false, ◌&&◌, ◌||◌, [], ◌∷◌,
  ◌++◌, length, take, min, arith, ltb, leb, length-append, tests, Bool-cases, inl, inr, ◌/◌, ◌%◌,
  ◌==◌, if◌then◌else◌,
}
use building_programming_lan.Prelude.Int.{pos}
use building_programming_lan.Bytes.{Bytes, eq_bytes, eq_bytes_iff}
use building_programming_lan.Bytes.Decimal.{digits, decimal, read_digits, read_decimal}
use building_programming_lan.Bytes.Search.{Lacks, Lacks-split}
use building_programming_lan.Compute.{print_int}
use building_programming_lan.Value.{OperationResult, value, int32}
use building_programming_lan.Io.Context.{IoContext, new_io, mismatch, need_read}

-- LONG_MAX, where `long` has 64 bits.
abbrev long_max : ℕ
long_max = 9223372036854775807

abbrev int_max : ℕ
int_max = 2147483647

-- `*it >= '0' && *it < '9'`
unfoldable pub is_digit : ℕ → Bool
is_digit c = leb b'0' c && ltb c b'9'

-- The loop that counts the leading digits.
unfoldable pub count_digits : Bytes → ℕ
unfolding is_digit
count_digits [] = 0
count_digits (c ∷ s) = let rest = count_digits s in if is_digit c then suc rest else 0

-- `strtol` of a buffer that holds digits alone stops at LONG_MAX, and sets `errno` there.
unfoldable pub execute : Bool → IoContext → OperationResult × Bool
unfolding eq_bytes read_digits
execute erange ctx =
    let n = read_digits 0 ctx.buffer in
    let converted = min n long_max in
    let erange' = erange || ltb long_max n in
    if ctx.ready
    then (if eq_bytes ctx.buffer (b'0' ∷ [])
        then (value (int32 (pos 0)), erange)
        else if converted == 0
        then (mismatch, erange')
        else if erange' || ltb int_max converted
        then (mismatch, erange')
        else (value (int32 (pos converted)), erange'))
    else if ctx.eof
    then (mismatch, erange)
    else (need_read, erange)

unfoldable pub handle_read : IoContext → Bytes → IoContext × ℕ
unfolding count_digits
handle_read ctx input =
    let consumed = count_digits input in
    if ltb consumed (length input)
    then (record ctx { buffer = take consumed input; ready = true }, consumed)
    else (ctx, 0)

unfoldable pub ready_to_evaluate : IoContext → Bool
ready_to_evaluate ctx = ctx.ready || ctx.eof

-- Bytes that the loop takes for digits.
abbrev pub AllDigits : Bytes → Type 0
AllDigits [] = Unit {0}
AllDigits (c ∷ s) = (is_digit c ≡ true) × AllDigits s

count_digits-append :
    (p s : Bytes) (c : ℕ) → AllDigits p → is_digit c ≡ false → count_digits (p ++ c ∷ s) ≡ length p
unfolding count_digits
count_digits-append [] s c f h = ground arith
count_digits-append (x ∷ p) s c f h = ground (arith, count_digits-append p s c f.1 h)

take-digits : (p s : Bytes) → take (length p) (p ++ s) ≡ p
take-digits [] s = refl
take-digits (x ∷ p) s = ap (◌∷◌ x) (take-digits p s)

-- The digits before any other byte are what is read.
pub handle_read_digits :
    (p s : Bytes) (c : ℕ)
    → AllDigits p
    → is_digit c ≡ false
    → handle_read new_io (p ++ c ∷ s) ≡ (record new_io { buffer = p; ready = true }, length p)
unfolding handle_read
handle_read_digits p s c f h =
    ground (arith, count_digits-append p s c f h, take-digits p (c ∷ s), length-append p (c ∷ s))

-- A number is cut before its first digit 9: of digits below 9 with a 9 behind them only these
-- digits are consumed, from a fresh context.
pub nine_cuts :
    (p s : Bytes)
    → AllDigits p
    → handle_read new_io (p ++ b'9' ∷ s) ≡ (record new_io { buffer = p; ready = true }, length p)
nine_cuts p s f = handle_read_digits p s b'9' f (unfold is_digit in refl)

one_digit : (d : ℕ) → d < 10 → 48 + d ≢ 57 → is_digit (48 + d) ≡ true
unfolding is_digit
one_digit d h n = ground arith

AllDigits-append : (p s : Bytes) → AllDigits p → AllDigits s → AllDigits (p ++ s)
AllDigits-append [] s f g = g
AllDigits-append (x ∷ p) s f g = (f.0, AllDigits-append p s f.1 g)

digits-AllDigits : (fuel n : ℕ) → Lacks b'9' (digits fuel n) → AllDigits (digits fuel n)
unfolding digits
digits-AllDigits zero n f = tt
digits-AllDigits (suc fuel) n f = elim (Bool-cases (ltb n 10)) [
  | inl small ↦ rw small (one_digit n (omega tests) (rw small at f).0, tt)
  | inr large ↦
      let both = Lacks-split b'9' (digits fuel (n / 10)) _ (rw large at f) in
      rw large (
        AllDigits-append (digits fuel (n / 10)) _ (digits-AllDigits fuel (n / 10) both.0)
          (one_digit (n % 10) (omega arith) both.1.0, tt))
]

-- The text "0" is the only one that is not given to `strtol`.
decimal-ne-zero : (n : ℕ) → n < 10000000000 → n ≢ 0 → decimal n ≢ b'0' ∷ []
decimal-ne-zero n h z e =
    z (sym (read_decimal n h) ∙ ap (read_digits 0) e ∙ (unfold read_digits in refl))

execute-decimal :
    (n : ℕ)
    → n < 2147483648
    → (execute false (record new_io { buffer = decimal n; ready = true })).0 ≡ value (int32 (pos n))
unfolding execute
execute-decimal zero h = unfold decimal digits in refl
execute-decimal (suc n) h = ground (
  arith,
  read_decimal (suc n) (omega arith),
  eq_bytes_iff (decimal (suc n)) (b'0' ∷ []),
  decimal-ne-zero (suc n) (omega arith) (omega arith),
)

-- What IntToAscii prints for a number below 2^31 without the digit 9, followed by a byte that is
-- no digit to the reader, is consumed whole and read back as that number, if `errno` was clear.
pub read-print_int :
    (n c : ℕ) (s : Bytes)
    → n < 2147483648
    → Lacks b'9' (print_int (pos n))
    → is_digit c ≡ false
    → (r : IoContext) × (handle_read new_io (print_int (pos n) ++ c ∷ s)
        ≡ (r, length (print_int (pos n))))
      × ((execute false r).0 ≡ value (int32 (pos n)))
read-print_int n c s h f g = (
  record new_io { buffer = decimal n; ready = true },
  unfold print_int in
      handle_read_digits (decimal n) s c
        (unfold decimal in digits-AllDigits 10 n (unfold print_int decimal in f)) g,
  execute-decimal n h,
)
