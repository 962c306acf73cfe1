-- ===== src/Io/ReadStatic.antt =====
-- operation/readstaticoctets.cpp
use building_programming_lan.Prelude.{
  ℕ, zero, suc, ◌≤◌, ◌≡◌, ◌≢◌, refl, Bool, true, false, ◌||◌, [], ◌∷◌, length, take, arith, ltb,
  leb, ◌==◌, if◌then◌else◌, length-take,
}
use building_programming_lan.Bytes.{Bytes, starts_with}
use building_programming_lan.Value.{OperationResult, value, bool}
use building_programming_lan.Io.Context.{IoContext, new_io, mismatch, need_read}

-- `strncmp(s, t, n) == 0`: it stops at a difference, at a NUL in both, or after n bytes.
unfoldable pub strncmp_eq : Bytes → Bytes → ℕ → Bool
strncmp_eq s t zero = true
strncmp_eq [] [] (suc n) = true
strncmp_eq [] (y ∷ t) (suc n) = y == 0
strncmp_eq (x ∷ s) [] (suc n) = x == 0
strncmp_eq (x ∷ s) (y ∷ t) (suc n) =
    let rest = strncmp_eq s t n in if x == y then (if x == 0 then true else rest) else false

unfoldable pub execute : Bytes → IoContext → OperationResult
unfolding strncmp_eq
execute contents ctx =
    if ltb (length ctx.buffer) (length contents)
    then (if ctx.eof then mismatch else need_read)
    else if strncmp_eq ctx.buffer contents (length contents)
    then value (bool true)
    else mismatch

unfoldable pub handle_read : Bytes → IoContext → Bytes → IoContext × ℕ
handle_read contents ctx input =
    if ltb (length input) (length contents)
    then (ctx, 0)
    else (record ctx { buffer = take (length contents) input }, length contents)

unfoldable pub ready_to_evaluate : Bytes → IoContext → Bool
ready_to_evaluate contents ctx = leb (length contents) (length ctx.buffer) || ctx.eof

-- No byte is NUL, so that `strncmp` compares to the end.
abbrev pub NoNul : Bytes → Type 0
NoNul [] = Unit {0}
NoNul (c ∷ s) = (c ≢ 0) × NoNul s

strncmp-starts_with :
    (s t : Bytes) → NoNul t → length t ≤ length s → strncmp_eq s t (length t) ≡ starts_with t s
unfolding strncmp_eq starts_with
strncmp-starts_with s [] f h = refl
strncmp-starts_with [] (y ∷ t) f h = absurd (omega arith)
strncmp-starts_with (x ∷ s) (y ∷ t) f h = ground (arith, strncmp-starts_with s t f.1 (omega arith))

starts_with-take :
    (t s : Bytes) → length t ≤ length s → starts_with t (take (length t) s) ≡ starts_with t s
unfolding starts_with
starts_with-take [] s h = refl
starts_with-take (c ∷ t) [] h = absurd (omega arith)
starts_with-take (c ∷ t) (x ∷ s) h = ground (arith, starts_with-take t s)

-- For contents without a NUL byte, from a fresh context: input shorter than the contents is not
-- consumed and the operation waits; from longer input it consumes as many bytes as the contents
-- have, and returns true if the input begins with them and a mismatch if not.
pub execute-handle_read :
    (contents input : Bytes)
    → NoNul contents
    → ((handle_read contents new_io input).1
        ≡ (if ltb (length input) (length contents) then 0 else length contents))
      × (execute contents (handle_read contents new_io input).0 ≡ (
          if ltb (length input) (length contents)
          then need_read
          else if starts_with contents input
          then value (bool true)
          else mismatch))
unfolding execute handle_read
execute-handle_read contents input f = ground (
  arith,
  strncmp-starts_with (take (length contents) input) contents f,
  starts_with-take contents input,
  length-take (length contents) input,
)
